-- ===== src/Replay/Score/Laws.antt =====
-- engine/replay.ts: what a session that passes has done.
use multi_agent_engine.Common.{
  ◌≡◌, sym, ap, subst, inl, inr, Bool, true, false, not, List, [], ◌∷◌, ◌++◌, any, keep, map,
  All-Memᴰ, Memᴰ, any-Memᴰ, mem-append_right, ◌==◌, Bool-cases, arith,
}
use mathlib.Core.List.Memᴰ.{head, tail}
use multi_agent_engine.Pipeline.{Text}
use multi_agent_engine.SpawnDecision.{is_empty}
use multi_agent_engine.SpawnDecision.Paths.{text_eq}
use multi_agent_engine.SpawnDecision.Laws.{keep-nil}
use multi_agent_engine.Replay.{TraceEvent, SessionTrace}
use multi_agent_engine.Replay.Compare.{has, as_set}
use multi_agent_engine.Replay.Compare.Sets.{text_eq-≡}
use multi_agent_engine.Replay.Score.Clean.{score_session-fails}
use multi_agent_engine.Replay.Score.{
  step_key, is_start, is_end, ends_step, completed, unmatched_starts, is_unfinished, ends_of,
  ended_keys, duplicate_ends, all_steps_ran, pass, is_completed, checks_of, score_session,
}

unmatched_starts-ends :
    (before : List TraceEvent) (e : TraceEvent) (after : List TraceEvent)
    → unmatched_starts (before ++ e ∷ after) ≡ 0
    → is_start e ≡ true
    → any (ends_step (step_key e)) after ≡ true
unfolding unmatched_starts
unmatched_starts-ends [] e after h s = ground (arith, h, s)
unmatched_starts-ends (x ∷ xs) e after h s = unmatched_starts-ends xs e after (ground (arith, h)) s

has-Memᴰ : (xs : List Text) {x : Text} → has xs x ≡ true → Memᴰ x xs
has-Memᴰ xs {x} h =
    let (y, m, k) = any-Memᴰ (text_eq x) xs h in subst (λ z. Memᴰ z xs) (sym (text_eq-≡ x y k)) m

as_set-Memᴰ : (xs : List Text) {x : Text} → Memᴰ x xs → Memᴰ x (as_set xs)
unfolding as_set
as_set-Memᴰ [] m = elim m [ ]
as_set-Memᴰ (y ∷ ys) {x} m = elim (Bool-cases (has (as_set ys) y)) [
  | inl e ↦ rw e (elim m [
    | head h ↦ subst (λ z. Memᴰ z (as_set ys)) (sym h) (has-Memᴰ (as_set ys) e)
    | tail k ↦ as_set-Memᴰ ys k
  ])
  | inr e ↦ rw e (elim m [ head h ↦ head h | tail k ↦ tail (as_set-Memᴰ ys k) ])
]

map_kept-Memᴰ :
    (p : TraceEvent → Bool) (f : TraceEvent → Text) (xs : List TraceEvent) {x : TraceEvent}
    → Memᴰ x xs
    → p x ≡ true
    → Memᴰ (f x) (map f (keep p xs))
map_kept-Memᴰ p f [] m h = elim m [ ]
map_kept-Memᴰ p f (y ∷ ys) {x} (head e) h =
    let k : p y ≡ true = subst (λ z. p z ≡ true) e h in rw k (head (ap f e))
map_kept-Memᴰ p f (y ∷ ys) (tail m) h = elim (Bool-cases (p y)) [
  | inl k ↦ rw k (tail (map_kept-Memᴰ p f ys m h))
  | inr k ↦ rw k (map_kept-Memᴰ p f ys m h)
]

duplicate_ends-once :
    (events : List TraceEvent) {d : TraceEvent}
    → is_empty (duplicate_ends events) ≡ true
    → Memᴰ d events
    → is_end d ≡ true
    → ends_of (step_key d) events ≡ 1
unfolding duplicate_ends
duplicate_ends-once events {d} h m e =
    let twice : Text → Bool = λ key. not (ends_of key events == 1) in
    let a = keep-nil twice (ended_keys events) h in
    let k =
      as_set-Memᴰ (map step_key (keep is_end events)) (map_kept-Memᴰ is_end step_key events m e) in
    let r : twice (step_key d) ≡ false =
      All-Memᴰ (λ key. twice key ≡ false) (ended_keys events) a k in
    ground (arith, r)

-- A step that was started ended once, after its start, and completed.
abbrev pub EndsOnce : List TraceEvent → TraceEvent → List TraceEvent → Type 0
EndsOnce before e after =
    (d : TraceEvent) × Memᴰ d after
    × (ends_step (step_key e) d ≡ true)
    × (completed d.status ≡ true)
    × (ends_of (step_key e) (before ++ e ∷ after) ≡ 1)

all_steps_ran-EndsOnce :
    (before : List TraceEvent) (e : TraceEvent) (after : List TraceEvent)
    → all_steps_ran (before ++ e ∷ after) ≡ true
    → is_start e ≡ true
    → EndsOnce before e after
unfolding all_steps_ran
all_steps_ran-EndsOnce before e after h s =
    let events = before ++ e ∷ after in
    let (d, m, k) =
      any-Memᴰ (ends_step (step_key e)) after
        (unmatched_starts-ends before e after (ground (arith, h)) s) in
    let ended : is_end d ≡ true = ground (arith, k) in
    let same_key = text_eq-≡ (step_key d) (step_key e) (ground (arith, k)) in
    let in_events : Memᴰ d events = mem-append_right before (e ∷ after) (tail m) in
    let done =
      All-Memᴰ (λ x. is_unfinished x ≡ false) events
        (keep-nil is_unfinished events (ground (arith, h))) in_events in
    let once = duplicate_ends-once events (ground (arith, h)) in_events ended in
    (d, m, k, ground (arith, done, ended), subst (λ key. ends_of key events ≡ 1) same_key once)

-- In a session that passes, every step that was started ended exactly once, after its start, and
-- completed; and the session itself completed.
pub score_session-EndsOnce :
    (t : SessionTrace) (before : List TraceEvent) (e : TraceEvent) (after : List TraceEvent)
    → t.events ≡ before ++ e ∷ after
    → (score_session t).overall ≡ pass
    → is_start e ≡ true
    → (is_completed t ≡ true) × EndsOnce before e after
unfolding score_session checks_of
score_session-EndsOnce t before e after q h s =
    let (c, (r, _)) = score_session-fails t h in
    let r' : not (all_steps_ran t.events) ≡ false = r in
    (
      ground (arith, c),
      all_steps_ran-EndsOnce before e after
          (subst (λ es. all_steps_ran es ≡ true) q (ground (arith, r'))) s,
    )
