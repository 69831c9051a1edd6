-- ===== src/OrchestratorLoop/Parse/Laws.antt =====
-- engine/orchestrator-loop.ts: which actions come out of an answer.
use multi_agent_engine.Common.{
  ℕ, ◌<◌, ◌≡◌, refl, ◌⊎◌, inl, inr, String, Option, none, some, or_else, List, [], ◌∷◌, length,
  Memᴰ, Option-cases, sym, ap, ◌∙◌, subst, arith,
}
use mathlib.Core.List.Memᴰ.{head, tail}
use multi_agent_engine.Pipeline.{Text}
use multi_agent_engine.Chain.Actions.{
  Action, continue, pause, escalate_to_user, reassign, skip_step, spawn_team,
}
use multi_agent_engine.OrchestratorLoop.Parse.{
  Value, text, number, is_continue, is_pause, is_reassign, is_skip_step, is_spawn_team, is_escalate,
  RawAction, typed, Reply, validate, valid_actions, or_continue, default_actions, parse_actions,
}

-- The actions that the prompt asks the model for, with the fields that each must have.
pub data Asks (units : String → Text) : RawAction → Action → Type 0 where
  continues : {r i n t k m : Option Value} → Asks units (typed is_continue r i n t k m) continue
  pauses :
      {why : String} {i n t k m : Option Value}
      → Asks units (typed is_pause (some (text why)) i n t k m) pause
  reassigns :
      {why team : String} {i : ℕ} {t k m : Option Value}
      → Asks units
          (typed is_reassign (some (text why)) (some (number i)) (some (text team)) t k m)
          (reassign i team)
  skips :
      {why : String} {i : ℕ} {n t k m : Option Value}
      → Asks units
          (typed is_skip_step (some (text why)) (some (number i)) n t k m)
          (skip_step i (units why))
  spawns :
      {why team task : String} {i n m : Option Value}
      → Asks units
          (typed is_spawn_team (some (text why)) i n (some (text team)) (some (text task)) m)
          (spawn_team team)
  escalates :
      {message : String} {r i n t k : Option Value}
      → Asks units (typed is_escalate r i n t k (some (text message))) escalate_to_user

Asks-validate :
    (units : String → Text) {r : RawAction} {a : Action}
    → Asks units r a
    → validate units r ≡ some a
unfolding validate
Asks-validate units continues = refl
Asks-validate units pauses = refl
Asks-validate units reassigns = refl
Asks-validate units skips = refl
Asks-validate units spawns = refl
Asks-validate units escalates = refl

-- What the validation accepts.
Accepted : (String → Text) → RawAction → Type 0
Accepted units r =
    (validate units r ≡ none) ⊎ ((a : Action) × (validate units r ≡ some a) × Asks units r a)

validate-Accepted : (units : String → Text) (r : RawAction) → Accepted units r
unfolding validate Accepted
validate-Accepted units (typed is_continue r i n t k m) = inr (continue, refl, continues)
validate-Accepted units (typed is_pause (some (text why)) i n t k m) = inr (pause, refl, pauses)
validate-Accepted units
      (typed is_reassign (some (text why)) (some (number i)) (some (text team)) t k m) =
    inr (reassign i team, refl, reassigns)
validate-Accepted units (typed is_skip_step (some (text why)) (some (number i)) n t k m) =
    inr (skip_step i (units why), refl, skips)
validate-Accepted units
      (typed is_spawn_team (some (text why)) i n (some (text team)) (some (text task)) m) =
    inr (spawn_team team, refl, spawns)
validate-Accepted units (typed is_escalate r i n t k (some (text message))) =
    inr (escalate_to_user, refl, escalates)
validate-Accepted units _ = inl refl

-- An element that an action of the result comes from.
abbrev pub Source : (String → Text) → List RawAction → Action → Type 0
Source units rs a = (r : RawAction) × Memᴰ r rs × Asks units r a

valid_actions-Source :
    (units : String → Text) (rs : List RawAction) (a : Action)
    → Memᴰ a (valid_actions units rs)
    → Source units rs a
unfolding valid_actions Accepted
valid_actions-Source units [] a m = elim m [ ]
valid_actions-Source units (r ∷ rs) a m =
    let later = valid_actions-Source units rs a in
    elim (validate-Accepted units r) [
      | inl e ↦ let (s, i, d) = later (rw e at m) in (s, tail i, d)
      | inr (b, e, d) ↦
          let m' : Memᴰ a (b ∷ valid_actions units rs) = rw e at m in
          elim m' [
            | head same ↦ (r, head refl, subst (Asks units r) (sym same) d)
            | tail n ↦ let (s, i, d') = later n in (s, tail i, d')
          ]
    ]

Source-valid_actions :
    (units : String → Text) (rs : List RawAction) (r : RawAction) (a : Action)
    → Memᴰ r rs
    → Asks units r a
    → Memᴰ a (valid_actions units rs)
unfolding valid_actions
Source-valid_actions units [] r a m d = elim m [ ]
Source-valid_actions units (x ∷ rs) r a (head e) d =
    rw (sym (ap (validate units) e) ∙ Asks-validate units d) (head refl)
Source-valid_actions units (x ∷ rs) r a (tail m) d =
    let ih = Source-valid_actions units rs r a m d in
    elim (Option-cases (validate units x)) [ inl e ↦ rw e ih | inr (b, e) ↦ rw e (tail ih) ]

or_continue-Memᴰ : (rest : List Action) (a : Action) → Memᴰ a rest → Memᴰ a (or_continue rest)
or_continue-Memᴰ [] a m = elim m [ ]
or_continue-Memᴰ (b ∷ rest) a m = m

or_continue-cases :
    (rest : List Action) (a : Action) → Memᴰ a (or_continue rest) → (a ≡ continue) ⊎ Memᴰ a rest
or_continue-cases [] a (head e) = inl e
or_continue-cases [] a (tail m) = elim m [ ]
or_continue-cases (b ∷ rest) a m = inr m

or_continue-some : (rest : List Action) → 0 < length (or_continue rest)
or_continue-some [] = omega arith
or_continue-some (b ∷ rest) = omega arith

-- The elements of an answer's `actions`.
abbrev pub elements : Option Reply → List RawAction
elements none = []
elements (some r) = or_else r.actions default_actions

-- The actions of an answer are never none. Every action but CONTINUE comes from an element of the
-- answer that has the type and all the fields which the action requires, and every such element
-- gives its action.
pub parse_actions-Source :
    (units : String → Text) (reply : Option Reply)
    → (0 < length (parse_actions units reply).actions)
      × ((a : Action)
          → Memᴰ a (parse_actions units reply).actions
          → (a ≡ continue) ⊎ Source units (elements reply) a)
      × ((s : RawAction) (a : Action)
          → Memᴰ s (elements reply)
          → Asks units s a
          → Memᴰ a (parse_actions units reply).actions)
unfolding parse_actions
parse_actions-Source units none = (
  omega arith,
  (λ a m. elim (or_continue-cases [] a m) [ inl e ↦ inl e | inr n ↦ elim n [ ] ]),
  λ s a m d. elim m [ ],
)
parse_actions-Source units (some r) =
    let rs = or_else r.actions default_actions in
    (
      or_continue-some (valid_actions units rs),
      (λ a m. elim (or_continue-cases (valid_actions units rs) a m) [
        | inl e ↦ inl e
        | inr m' ↦ inr (valid_actions-Source units rs a m')
      ]),
      λ s a m d.
          or_continue-Memᴰ (valid_actions units rs) a (Source-valid_actions units rs s a m d),
    )
