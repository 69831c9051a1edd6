-- ===== src/Nudge/Laws.antt =====
-- engine/nudge.ts: how the nudges of an agent are spaced, and how they escalate.
use multi_agent_engine.Common.{
  ℕ, suc, ◌+◌, ◌≤◌, ◌<◌, ◌≡◌, refl, ap, ◌⊎◌, inl, inr, Bool, true, false, List, [], ◌∷◌, ◌==◌,
  if◌then◌else◌, All, ◌∙◌, subst, Bool-cases, arith,
}
use multi_agent_engine.Nudge.{
  NudgeState, NudgeType, rule_based, llm_escalated, web_search, Attempt, Delivery,
  create_nudge_state, should_nudge, choose, send, execute_nudge, record_nudge, run,
}

-- The messages whose event was emitted, and the start of the last of them, or 0.
abbrev pub counts : List Delivery → ℕ
counts [] = 0
counts (d ∷ rest) = let n = counts rest in if d.is_counted then suc n else n

abbrev pub last_counted : List Delivery → ℕ
last_counted [] = 0
last_counted (d ∷ rest) = let n = last_counted rest in if d.is_counted then d.started else n

-- Each message was attempted at least 30 seconds after the attempt of the last counted one before it.
abbrev pub Spaced : List Delivery → Type 0
Spaced [] = Unit
Spaced (d ∷ rest) = ((counts rest ≡ 0) ⊎ (last_counted rest + 30000 ≤ d.started)) × Spaced rest

abbrev is_search : NudgeType → Bool
is_search web_search = true
is_search _ = false

abbrev pub searches : List Delivery → ℕ
searches [] = 0
searches (d ∷ rest) = let n = searches rest in if is_search d.nudge_type then suc n else n

-- What a message may be, after so many that were counted.
abbrev pub IsTimely : NudgeType → ℕ → Type 0
IsTimely rule_based before = Unit
IsTimely llm_escalated before = 3 ≤ before
IsTimely web_search before = 4 ≤ before

abbrev pub Timely : List Delivery → Type 0
Timely [] = Unit
Timely (d ∷ rest) = IsTimely d.nudge_type (counts rest) × Timely rest

pub record Inv (s : NudgeState) (log : List Delivery) : Type 0 where
  pub counted : s.nudge_count ≡ counts log
  pub latest : s.last_nudge_at ≡ last_counted log
  pub spaced : Spaced log
  pub timely : Timely log
  pub positive : (counts log ≡ 0) ⊎ (0 < last_counted log)
  pub searched : searches log ≤ (if s.web_search_used then 1 else 0)

abbrev pub IsPositive : Attempt → Type 0
IsPositive a = 0 < a.now

waited :
    (s : NudgeState) (now : ℕ)
    → should_nudge s now ≡ true
    → (s.last_nudge_at ≡ 0) ⊎ (s.last_nudge_at + 30000 ≤ now)
unfolding should_nudge
waited s now h = elim (Bool-cases (s.last_nudge_at == 0)) [
  | inl e ↦ inl (ground (arith, e))
  | inr e ↦ inr (ground (arith, e, h))
]

-- What the choice keeps, and when it takes which type.
choose_lem :
    (s : NudgeState) (a : Attempt) (n : ℕ)
    → n ≤ (if s.web_search_used then 1 else 0)
    → let (t, s') = choose s a in
      (s'.nudge_count ≡ s.nudge_count)
      × (s'.last_nudge_at ≡ s.last_nudge_at)
      × IsTimely t s.nudge_count
      × ((if is_search t then suc n else n) ≤ (if s'.web_search_used then 1 else 0))
unfolding choose
choose_lem s a n h = (ground (arith, h), ground (arith, h), ground (arith, h), ground (arith, h))

spaced_next :
    (log : List Delivery) (last now : ℕ)
    → last ≡ last_counted log
    → (counts log ≡ 0) ⊎ (0 < last_counted log)
    → (last ≡ 0) ⊎ (last + 30000 ≤ now)
    → (counts log ≡ 0) ⊎ (last_counted log + 30000 ≤ now)
spaced_next log last now e (inl p) w = inl p
spaced_next log last now e (inr p) (inl w) = absurd (omega (arith, e, p, w))
spaced_next log last now e (inr p) (inr w) = inr (omega (arith, e, w))

sent-Inv :
    (s : NudgeState) (a : Attempt) (log : List Delivery)
    → 0 < a.now
    → Inv s log
    → (s.last_nudge_at ≡ 0) ⊎ (s.last_nudge_at + 30000 ≤ a.now)
    → let r = send a (choose s a) in Inv r.0 (record_nudge r.1 log)
unfolding send
sent-Inv s a log p v w =
    let (c, l, t, more) = choose_lem s a (searches log) v.searched in
    let apart = spaced_next log s.last_nudge_at a.now v.latest v.positive w in
    let timely = subst (λ n. IsTimely (choose s a).0 n) v.counted t in
    elim (Bool-cases a.is_sent) [
      | inr e ↦ simp e (record {
        counted = c ∙ v.counted;
        latest = l ∙ v.latest;
        spaced = (apart, v.spaced);
        timely = (timely, v.timely);
        positive = v.positive;
        searched = more;
      })
      | inl e ↦ simp e (record {
        counted = ap suc (c ∙ v.counted);
        latest = refl;
        spaced = (apart, v.spaced);
        timely = (timely, v.timely);
        positive = inr p;
        searched = more;
      })
    ]

execute_nudge-Inv :
    (s : NudgeState) (a : Attempt) (log : List Delivery)
    → 0 < a.now
    → Inv s log
    → let r = execute_nudge s a in Inv r.0 (record_nudge r.1 log)
unfolding execute_nudge
execute_nudge-Inv s a log p v = elim (Bool-cases (should_nudge s a.now)) [
  | inr e ↦ rw e v
  | inl e ↦ rw e (sent-Inv s a log p v (waited s a.now e))
]

run-Inv :
    (s : NudgeState) (log : List Delivery) (attempts : List Attempt)
    → All IsPositive attempts
    → Inv s log
    → let r = run (s, log) attempts in Inv r.0 r.1
unfolding run
run-Inv s log [] p v = v
run-Inv s log (a ∷ rest) p v =
    let r = execute_nudge s a in
    run-Inv r.0 (record_nudge r.1 log) rest p.1 (execute_nudge-Inv s a log p.0 v)

-- Over any attempts to nudge an agent, at positive times: the state counts the messages whose event was
-- emitted, and keeps when the attempt of the last of them started. Every message comes of an attempt
-- that started at least 30 seconds after that of the last counted message before it; a model writes one
-- only after three counted ones, a web search only after four, and it does so at most once. When the
-- messages go out, after a model or the search has answered, is not bounded, and messages that are not
-- counted hold back none.
pub run-create_nudge_state-Inv :
    (attempts : List Attempt)
    → All IsPositive attempts
    → let r = run (create_nudge_state, []) attempts in Inv r.0 r.1
run-create_nudge_state-Inv attempts p = run-Inv create_nudge_state [] attempts p (record {
  counted = refl;
  latest = refl;
  spaced = tt;
  timely = tt;
  positive = inl refl;
  searched = omega arith;
})
