-- ===== src/Certification/Validate/Steered.antt =====
-- engine/certification-validator.ts: the steering actions of a validated session.
use multi_agent_engine.Common.{
  any-Memᴰ, ◌≡◌, refl, inl, inr, Bool, true, false, List, [], ◌∷◌, ◌++◌, all, keep, Memᴰ,
  Bool-cases, arith, mem-append_cases, mem-append_left, mem-append_right,
}
use mathlib.Core.List.{append-nil}
use mathlib.Core.List.Memᴰ.{head, tail}
use multi_agent_engine.SpawnDecision.{is_empty}
use multi_agent_engine.SpawnDecision.Paths.{is_nil}
use multi_agent_engine.Certification.Event.{TraceEvent, is_steer_event}
use multi_agent_engine.Certification.Steering.{
  has_authority, has_impact, steered, is_start_of, is_end_of, start_part, end_part, bracket_issues,
  bracket_part, brackets, unattended_part, authority_part, impact_part, hiding_part,
  check_steer_events,
}
use multi_agent_engine.Certification.Validate.{ValidatorContext, validate_certification_evidence}
use multi_agent_engine.Certification.Validate.Laws.{validated-Passes}
use multi_agent_engine.Certification.Validate.Sound.{empty_parts}

-- A test that all kept elements pass is passed by one that is kept.
all_kept :
    (p q : TraceEvent → Bool) (before : List TraceEvent) (e : TraceEvent) (after : List TraceEvent)
    → p e ≡ true
    → all q (keep p (before ++ e ∷ after)) ≡ true
    → q e ≡ true
all_kept p q [] e after h a = let a' = rw h at a in ground (arith, a')
all_kept p q (x ∷ xs) e after h a = elim (Bool-cases (p x)) [
  | inl k ↦ let a' = rw k at a in all_kept p q xs e after h (ground (arith, a'))
  | inr k ↦ all_kept p q xs e after h (rw k at a)
]

keep-not_empty :
    (p : TraceEvent → Bool) (before : List TraceEvent) (e : TraceEvent) (after : List TraceEvent)
    → p e ≡ true
    → is_empty (keep p (before ++ e ∷ after)) ≡ false
keep-not_empty p [] e after h = rw h refl
keep-not_empty p (x ∷ xs) e after h = elim (Bool-cases (p x)) [
  | inl k ↦ rw k refl
  | inr k ↦ rw k (keep-not_empty p xs e after h)
]

-- The events before and after a steering action that bracket it.
abbrev pub Bracketed : List TraceEvent → TraceEvent → List TraceEvent → Type 0
Bracketed before e after =
    ((s : TraceEvent) × Memᴰ s before × (is_start_of (steered e) s ≡ true))
    × ((t : TraceEvent) × Memᴰ t after × (is_end_of (steered e) t ≡ true))

reversed_onto : List TraceEvent → List TraceEvent → List TraceEvent
reversed_onto [] acc = acc
reversed_onto (x ∷ xs) acc = reversed_onto xs (x ∷ acc)

bracket_issues-Bracketed :
    (before : List TraceEvent) (e : TraceEvent) (after : List TraceEvent)
    → is_empty (bracket_issues before e after) ≡ true
    → Bracketed before e after
unfolding bracket_issues
bracket_issues-Bracketed before e after h = elim (Bool-cases (is_nil (steered e))) [
  | inl n ↦ absurd (cc (h, n))
  | inr n ↦
      let h' : is_empty (start_part before e ++ end_part after e) ≡ true = rw n at h in
      let (s, t) = empty_parts (start_part before e) (end_part after e) h' in
      (
        any-Memᴰ (is_start_of (steered e)) before (ground (arith, s)),
        any-Memᴰ (is_end_of (steered e)) after (ground (arith, t)),
      )
]

reversed_onto-Memᴰ :
    (xs acc : List TraceEvent) {a : TraceEvent} → Memᴰ a (reversed_onto xs acc) → Memᴰ a (xs ++ acc)
unfolding reversed_onto
reversed_onto-Memᴰ [] acc m = m
reversed_onto-Memᴰ (x ∷ xs) acc m =
    elim (mem-append_cases xs (x ∷ acc) (reversed_onto-Memᴰ xs (x ∷ acc) m)) [
      | inl l ↦ tail (mem-append_left xs acc l)
      | inr (head e) ↦ head e
      | inr (tail r) ↦ tail (mem-append_right xs acc r)
    ]

brackets-Bracketed :
    (acc before : List TraceEvent) (e : TraceEvent) (after : List TraceEvent)
    → is_empty (brackets acc (before ++ e ∷ after)) ≡ true
    → is_steer_event e ≡ true
    → Bracketed (reversed_onto before acc) e after
unfolding brackets reversed_onto
brackets-Bracketed acc [] e after h k =
    let (a, _) = empty_parts (bracket_part acc e after) (brackets (e ∷ acc) after) h in
    bracket_issues-Bracketed acc e after (rw k at a)
brackets-Bracketed acc (x ∷ xs) e after h k =
    let rest = xs ++ e ∷ after in
    let (_, b) = empty_parts (bracket_part acc x rest) (brackets (x ∷ acc) rest) h in
    brackets-Bracketed (x ∷ acc) xs e after b k

-- A steering action in a validated session: the certification was interactive, the action has the
-- authority 90 and states its impact, its participant was started by a steering client before it, and
-- ended after it. So there is no such action where the certification was unattended.
pub validated-Bracketed :
    (c : ValidatorContext) (before : List TraceEvent) (e : TraceEvent) (after : List TraceEvent)
    → (validate_certification_evidence c (before ++ e ∷ after)).validated ≡ true
    → is_steer_event e ≡ true
    → (c.interactive_cert ≡ true)
      × (has_authority e ≡ true)
      × (has_impact e ≡ true)
      × Bracketed before e after
unfolding check_steer_events
validated-Bracketed c before e after h k =
    let events = before ++ e ∷ after in
    let steers = keep is_steer_event events in
    let p : is_empty (check_steer_events events c.interactive_cert) ≡ true =
      (validated-Passes c events h).steers in
    let hidden = hiding_part c.interactive_cert steers events in
    let (u, r) =
      empty_parts (unattended_part c.interactive_cert steers)
        (authority_part steers ++ (impact_part steers ++ (brackets [] events ++ hidden))) p in
    let (a, r1) =
      empty_parts (authority_part steers) (impact_part steers ++ (brackets [] events ++ hidden))
        r in
    let (i, r2) = empty_parts (impact_part steers) (brackets [] events ++ hidden) r1 in
    let (b, _) = empty_parts (brackets [] events) hidden r2 in
    let some_steers = keep-not_empty is_steer_event before e after k in
    let ((s, m, f), t) = brackets-Bracketed [] before e after b k in
    let in_before : Memᴰ s before = rw append-nil at (reversed_onto-Memᴰ before [] m) in
    (
      ground (arith, u, some_steers),
      all_kept is_steer_event has_authority before e after k (ground (arith, a)),
      all_kept is_steer_event has_impact before e after k (ground (arith, i)),
      ((s, in_before, f), t),
    )
