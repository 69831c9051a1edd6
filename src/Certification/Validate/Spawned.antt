-- ===== src/Certification/Validate/Spawned.antt =====
-- engine/certification-validator.ts: the decisions behind the workers of a validated session.
use multi_agent_engine.Common.{
  ℕ, suc, ◌+◌, ◌≤◌, ◌≡◌, sym, inl, inr, true, some, some_inj, List, [], ◌∷◌, ◌++◌, length,
  get_elem?, All, Memᴰ, Bool-cases, Option-cases, arith, subst, All-Memᴰ, length-snoc,
  get_elem?-append,
}
use mathlib.Core.List.{append_assoc}
use mathlib.Core.List.Memᴰ.{head, tail}
use multi_agent_engine.Pipeline.{Text}
use multi_agent_engine.SpawnDecision.{is_empty}
use multi_agent_engine.Certification.Event.{TraceEvent, is_worker_spawn, is_either}
use multi_agent_engine.Certification.Spawns.{
  trace_decision_errors, DecisionEvent, decision_events, decision_failures, invalid_part,
  duplicate_part, decision_key, spawn_part, is_for, find_decision, spawn_failure, spawn_failures,
  check_spawn_decisions,
}
use multi_agent_engine.Certification.Validate.{ValidatorContext, validate_certification_evidence}
use multi_agent_engine.Certification.Validate.Laws.{validated-Passes}
use multi_agent_engine.SpawnDecision.Laws.{is_empty-nil}
use multi_agent_engine.Certification.Validate.Sound.{empty_parts}

abbrev IsValid : DecisionEvent → Type 0
IsValid d = is_empty (trace_decision_errors d.decision) ≡ true

decision_failures-IsValid :
    (seen : List Text) (ds : List DecisionEvent)
    → is_empty (decision_failures seen ds) ≡ true
    → All IsValid ds
unfolding decision_failures
decision_failures-IsValid seen [] h = tt
decision_failures-IsValid seen (d ∷ ds) h =
    elim (Bool-cases (is_empty (trace_decision_errors d.decision))) [
      | inr e ↦ absurd (cc (h, e))
      | inl e ↦
          let later = decision_failures (decision_key d ∷ seen) ds in
          let (_, r) = empty_parts (invalid_part d) (duplicate_part seen d ++ later) h in
          let (_, r1) = empty_parts (duplicate_part seen d) later r in
          (e, decision_failures-IsValid (decision_key d ∷ seen) ds r1)
    ]

find_decision-Memᴰ :
    (spawn : TraceEvent) (ds : List DecisionEvent) {d : DecisionEvent}
    → find_decision spawn ds ≡ some d
    → Memᴰ d ds × (is_for spawn d ≡ true)
unfolding find_decision
find_decision-Memᴰ spawn [] h = cc h
find_decision-Memᴰ spawn (x ∷ xs) {d} h = elim (Bool-cases (is_for spawn x)) [
  | inl e ↦
      let s : x ≡ d = some_inj.0 (rw e at h) in
      (head (sym s), subst (λ y. is_for spawn y ≡ true) s e)
  | inr e ↦ let (m, f) = find_decision-Memᴰ spawn xs (rw e at h) in (tail m, f)
]

-- The decision for a spawn at a place: it stands in the trace, not after that place.
abbrev Decided : List DecisionEvent → ℕ → TraceEvent → Type 0
Decided ds i spawn = (d : DecisionEvent) × Memᴰ d ds × (is_for spawn d ≡ true) × (d.index ≤ i)

spawn_failure-Decided :
    (ds : List DecisionEvent) (i : ℕ) (spawn : TraceEvent)
    → is_empty (spawn_failure ds i spawn) ≡ true
    → Decided ds i spawn
unfolding spawn_failure
spawn_failure-Decided ds i spawn h = elim (Option-cases (find_decision spawn ds)) [
  | inl n ↦ absurd (cc (h, n))
  | inr (d, f) ↦ let (m, k) = find_decision-Memᴰ spawn ds f in (d, m, k, ground (arith, f))
]

spawn_failures-Decided :
    (ds : List DecisionEvent) (i : ℕ) (before : List TraceEvent) (e : TraceEvent)
    (after : List TraceEvent)
    → is_empty (spawn_failures ds i (before ++ e ∷ after)) ≡ true
    → is_worker_spawn e ≡ true
    → Decided ds (i + length before) e
unfolding spawn_failures
spawn_failures-Decided ds i [] e after h w =
    let (a, _) = empty_parts (spawn_part ds i e) (spawn_failures ds (suc i) after) h in
    let (d, m, k, l) = spawn_failure-Decided ds i e (rw w at a) in (d, m, k, omega arith)
spawn_failures-Decided ds i (x ∷ xs) e after h w =
    let (_, r) = empty_parts (spawn_part ds i x) (spawn_failures ds (suc i) (xs ++ e ∷ after)) h in
    let (d, m, k, l) = spawn_failures-Decided ds (suc i) xs e after r w in (d, m, k, omega arith)

-- The events of the decisions stand at their places, from the i-th on.
decision_events-get_elem? :
    (pre es : List TraceEvent) {d : DecisionEvent}
    → Memᴰ d (decision_events (length pre) es)
    → (get_elem? (pre ++ es) d.index ≡ some d.event) × (d.event.decision ≡ some d.decision)
unfolding decision_events
decision_events-get_elem? pre [] m = elim m [ ]
decision_events-get_elem? pre (e ∷ es) {d} m =
    let later : Memᴰ d (decision_events (suc (length pre)) es)
        → (get_elem? (pre ++ e ∷ es) d.index ≡ some d.event)
          × (d.event.decision ≡ some d.decision) =
      λ k.
        let k' : Memᴰ d (decision_events (length (pre ++ e ∷ [])) es) = rw (length-snoc pre e) k in
        let r = decision_events-get_elem? (pre ++ e ∷ []) es k' in
        rw (append_assoc pre (e ∷ []) es) at r in
    elim (Option-cases e.decision) [
      | inl n ↦ later (rw (n, decision_events) at m)
      | inr (q, f) ↦ elim (Bool-cases (is_either "spawn.decision" "spawn_decision" e)) [
        | inr y ↦ later (rw (f, y, decision_events) at m)
        | inl y ↦
            let new : DecisionEvent = record { event = e; decision = q; index = length pre } in
            let m' : Memᴰ d (new ∷ decision_events (suc (length pre)) es) =
              rw (f, y, decision_events) at m in
            elim m' [
              | head h ↦
                  subst
                    (λ x.
                      (get_elem? (pre ++ e ∷ es) x.index ≡ some x.event)
                      × (x.event.decision ≡ some x.decision))
                    (sym h) (get_elem?-append pre e es, f)
              | tail k ↦ later k
            ]
      ]
    ]

-- In a validated session with strict decisions, every event that spawns a worker has its decision: an
-- event of the trace that stands not after it, is for this worker, and carries a decision without
-- errors.
pub validated-HasDecision :
    (c : ValidatorContext) (before : List TraceEvent) (e : TraceEvent) (after : List TraceEvent)
    → (validate_certification_evidence c (before ++ e ∷ after)).validated ≡ true
    → c.strict_spawn_decisions ≡ true
    → is_worker_spawn e ≡ true
    → (d : DecisionEvent) × (get_elem? (before ++ e ∷ after) d.index ≡ some d.event)
      × (d.index ≤ length before)
      × (d.event.decision ≡ some d.decision)
      × (is_for e d ≡ true)
      × (trace_decision_errors d.decision ≡ [])
unfolding check_spawn_decisions
validated-HasDecision c before e after h strict w =
    let events = before ++ e ∷ after in
    let ds = decision_events 0 events in
    let p : is_empty (check_spawn_decisions events c.strict_spawn_decisions) ≡ true =
      (validated-Passes c events h).spawns in
    let p' : is_empty (decision_failures [] ds ++ spawn_failures ds 0 events) ≡ true =
      rw (strict, check_spawn_decisions) at p in
    let (a, b) = empty_parts (decision_failures [] ds) (spawn_failures ds 0 events) p' in
    let (d, m, k, l) = spawn_failures-Decided ds 0 before e after b w in
    let (g, q) = decision_events-get_elem? [] events m in
    (
      d,
      g,
      omega arith,
      q,
      k,
      is_empty-nil _ (All-Memᴰ IsValid ds (decision_failures-IsValid [] ds a) m),
    )
