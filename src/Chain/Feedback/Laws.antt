-- ===== src/Chain/Feedback/Laws.antt =====
-- engine/chain-runner.ts: how often a step is retried, and when it counts as done.
use multi_agent_engine.Common.{
  ℕ, zero, suc, ◌+◌, ◌≤◌, ◌≡◌, ◌↔◌, refl, ◌⊎◌, inl, inr, Bool, true, false, not, ◌&&◌, ◌||◌, Option,
  none, some, or_else, List, if◌then◌else◌, Bool-cases, Option-cases, arith,
}
use multi_agent_engine.Chain.Feedback.{
  Grade, StepResult, is_bad, is_failed_grade, StepConfig, representative, retries, completed,
  StepStatus, degraded, Settled, Ending, ends, throws, status_of, settle_step, finish_with,
  retry_result, end_step, bad_result, any_bad,
}

-- What is said of the end of a step.
abbrev pub IsSettled : StepConfig → Settled → Type 0
IsSettled c s =
    ((s.status ≡ completed) ↔ (s.marked ≡ true))
    × ((s.marked ≡ true) → is_bad s.grade ≡ false)
    × ((s.status ≡ degraded) → c.certification ≡ true)
    × ((is_failed_grade s.grade ≡ true) → s.status ≡ StepStatus.failed)

status_of-IsSettled :
    (c : Bool) (v : Bool) (g : Option Grade)
    → ((status_of c v g ≡ completed) ↔ ((v && not (is_bad g)) ≡ true))
      × (((v && not (is_bad g)) ≡ true) → is_bad g ≡ false)
      × ((status_of c v g ≡ degraded) → c ≡ true)
      × ((is_failed_grade g ≡ true) → status_of c v g ≡ StepStatus.failed)
unfolding status_of
status_of-IsSettled c v g = (ground arith, ground arith, ground arith, ground arith)

settle_step-IsSettled :
    (c : StepConfig) (all_met : Bool) (r : Option StepResult) (ps : Option (List StepResult))
    (k : ℕ)
    → IsSettled c (settle_step c all_met r ps k)
unfolding settle_step
settle_step-IsSettled c all_met r ps k = status_of-IsSettled c.certification _ _

-- The retries of a step: their number, and what they leave.
abbrev pub Retried : (ℕ → Option StepResult) → ℕ → ℕ → Option StepResult × ℕ → Type 0
Retried run left k (none, n) = (n ≤ left + k) × ((j : ℕ) × (suc j ≡ n) × (run j ≡ none))
Retried run left k (some r, n) = (n ≤ left + k) × ((is_bad r.grade ≡ false) ⊎ (n ≡ left + k))

Retried-suc :
    (run : ℕ → Option StepResult) (left k : ℕ) (x : Option StepResult × ℕ)
    → Retried run left (suc k) x
    → Retried run (suc left) k x
Retried-suc run left k (none, n) (l, j) = (omega (arith, l), j)
Retried-suc run left k (some r, n) (l, inl g) = (omega (arith, l), inl g)
Retried-suc run left k (some r, n) (l, inr e) = (omega (arith, l), inr (omega (arith, e)))

retries-Retried :
    (run : ℕ → Option StepResult) (left k : ℕ) (r : StepResult)
    → Retried run left k (retries run left k r)
unfolding retries
retries-Retried run zero k r = (omega arith, inr (omega arith))
retries-Retried run (suc left) k r = elim (Bool-cases (is_bad r.grade)) [
  | inr g ↦ rw g (omega arith, inl g)
  | inl b ↦ elim (Option-cases (run k)) [
    | inl e ↦ rw (b, e) (omega arith, (k, refl, e))
    | inr (r', e) ↦
        rw (b, e)
          (Retried-suc run left k (retries run left (suc k) r')
            (retries-Retried run left (suc k) r'))
  ]
]

-- An ending: settled after at most the allowed retries, or thrown out of by a retry.
abbrev pub EndsWithin : StepConfig → (ℕ → Option StepResult) → ℕ → Ending → Type 0
EndsWithin c run n (ends s) = IsSettled c s × (s.attempts ≤ n)
EndsWithin c run n (throws k) = (k ≤ n) × ((j : ℕ) × (suc j ≡ k) × (run j ≡ none))

finish_with-EndsWithin :
    (c : StepConfig) (all_met : Bool) (run : ℕ → Option StepResult) (n : ℕ)
    (ps : Option (List StepResult)) (x : Option StepResult × ℕ)
    → Retried run n 0 x
    → EndsWithin c run n (finish_with c all_met ps x)
unfolding finish_with settle_step
finish_with-EndsWithin c all_met run n ps (none, k) (l, j) = (omega (arith, l), j)
finish_with-EndsWithin c all_met run n ps (some r, k) (l, g) =
    (settle_step-IsSettled c all_met (some r) ps k, omega (arith, l))

-- The retries that a step may have: none in certification mode, for an agent's or a deterministic
-- step, or where no result is incomplete.
abbrev pub allowed : StepConfig → Option StepResult → Option (List StepResult) → ℕ
allowed c result parallel =
    if (bad_result result || any_bad parallel) && (c.can_retry && not c.certification)
    then or_else c.max_attempts 2
    else 0

retry_result-EndsWithin :
    (c : StepConfig) (all_met : Bool) (ps : Option (List StepResult)) (run : ℕ → Option StepResult)
    (r : Option StepResult)
    → EndsWithin c run (or_else c.max_attempts 2) (retry_result c all_met ps run r)
unfolding retry_result settle_step
retry_result-EndsWithin c all_met ps run none =
    (settle_step-IsSettled c all_met none ps 0, omega arith)
retry_result-EndsWithin c all_met ps run (some r) =
    finish_with-EndsWithin c all_met run (or_else c.max_attempts 2) ps
      (retries run (or_else c.max_attempts 2) 0 r)
      (retries-Retried run (or_else c.max_attempts 2) 0 r)

-- A step is retried at most `max_attempts` times, two by default, and not at all in certification
-- mode, where it has no team, or where no result is FEEDBACK or FAILED. Unless a retry throws, it is
-- completed exactly when its checks are marked as done, which happens only with a grade other than
-- FEEDBACK and FAILED; it is degraded only in certification mode; and with the grade FAILED it fails.
pub end_step-EndsWithin :
    (c : StepConfig) (all_met : Bool) (run : ℕ → Option StepResult) (result : Option StepResult)
    (parallel : Option (List StepResult))
    → EndsWithin c run (allowed c result parallel) (end_step c all_met run result parallel)
unfolding end_step settle_step
end_step-EndsWithin c all_met run result parallel =
    elim (Bool-cases
      ((bad_result result || any_bad parallel) && (c.can_retry && not c.certification))) [
        | inl e ↦
            rw e (retry_result-EndsWithin c all_met parallel run (representative result parallel))
        | inr e ↦ rw e (
          settle_step-IsSettled c all_met (representative result parallel) parallel 0,
          omega arith,
        )
      ]
