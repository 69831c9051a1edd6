-- ===== src/Chain/Feedback.antt =====
-- The end of a step in runChain of engine/chain-runner.ts: the retries on feedback, the grade, and
-- what becomes of the step; with worstGrade of engine/output-parsing.ts. What the retried teams give
-- and the answer of verifyTillDone are inputs; messages, events and the log are left out.
pub mod Worst
pub mod Laws
use multi_agent_engine.Common.{
  ℕ, zero, suc, ◌+◌, Bool, true, false, not, ◌&&◌, ◌||◌, Option, none, some, or_else, List, [], ◌∷◌,
  any, ltb, map, if◌then◌else◌,
}

pub data Grade : Type 0 where
  perfect verified partial feedback failed ungraded : Grade

pub record StepResult : Type 0 where
  pub grade : Option Grade
  pub cost : ℕ
  pub tokens : ℕ

-- "FEEDBACK" or "FAILED"
abbrev pub is_bad : Option Grade → Bool
is_bad (some feedback) = true
is_bad (some failed) = true
is_bad _ = false

abbrev pub is_failed_grade : Option Grade → Bool
is_failed_grade (some failed) = true
is_failed_grade _ = false

-- One more than the position among the grades, so that 0 stands for -1.
abbrev pub position : Option Grade → ℕ
position none = 0
position (some ungraded) = 0
position (some perfect) = 1
position (some verified) = 2
position (some partial) = 3
position (some feedback) = 4
position (some failed) = 5

-- The `reduce` over the parallel results.
unfoldable pub worst_result : StepResult → List StepResult → StepResult
worst_result worst [] = worst
worst_result worst (r ∷ rs) =
    worst_result (if ltb (position worst.grade) (position r.grade) then r else worst) rs

-- `order[g] ?? 0`
abbrev pub order : Grade → ℕ
order perfect = 0
order verified = 1
order partial = 2
order feedback = 3
order failed = 4
order ungraded = 0

worse : Option Grade → Option Grade → Option Grade
worse worst none = worst
worse none (some g) = some g
worse (some w) (some g) = if ltb (order w) (order g) then some g else some w

worst_from : Option Grade → List (Option Grade) → Option Grade
unfolding worse
worst_from worst [] = worst
worst_from worst (g ∷ gs) = worst_from (worse worst g) gs

unfoldable pub worst_grade : List (Option Grade) → Option Grade
unfolding worst_from
worst_grade gs = worst_from none gs

-- A step: whether it has a team or parallel teams, `max_attempts` of its `on_feedback`, and whether
-- it has checks; with certification mode.
pub record StepConfig : Type 0 where
  pub can_retry : Bool
  pub max_attempts : Option ℕ
  pub has_till_done : Bool
  pub certification : Bool

abbrev pub grade_of : StepResult → Option Grade
grade_of r = r.grade

abbrev bad_result : Option StepResult → Bool
bad_result none = false
bad_result (some r) = is_bad r.grade

abbrev bad : StepResult → Bool
bad r = is_bad r.grade

abbrev any_bad : Option (List StepResult) → Bool
any_bad none = false
any_bad (some rs) = any bad rs

-- The result to go on with: the worst of the parallel ones, where one of them is incomplete.
representative : Option StepResult → Option (List StepResult) → Option StepResult
representative (some r) parallel = some r
representative none none = none
representative none (some []) = none
representative none (some (r ∷ rs)) = if any bad (r ∷ rs) then some (worst_result r rs) else none

-- The retries, with those left and the number of the next; `none` where a team throws. The second
-- part counts the retries.
retries : (ℕ → Option StepResult) → ℕ → ℕ → StepResult → Option StepResult × ℕ
retries run zero k r = (some r, k)
retries run (suc left) k r =
    let rest : Option StepResult × ℕ = elim (run k) [
      | none ↦ (none, suc k)
      | some r' ↦ retries run left (suc k) r'
    ] in
    if is_bad r.grade then rest else (some r, k)

pub data StepStatus : Type 0 where
  completed degraded failed : StepStatus

-- The end of a step that no retry has thrown out of: its status, its grade, the costs that the
-- pipeline is told, whether its checks are marked, and the number of retries.
pub record Settled : Type 0 where
  pub status : StepStatus
  pub grade : Option Grade
  pub told : Option (ℕ × ℕ)
  pub marked : Bool
  pub attempts : ℕ

pub data Ending : Type 0 where
  ends : Settled → Ending
  throws : ℕ → Ending  -- after so many retries

abbrev worst_of : Option (List StepResult) → Option Grade
worst_of none = none
worst_of (some rs) = worst_grade (map grade_of rs)

-- `stepResult?.grade ?? (parallelResults ? worstGrade(…) : undefined)`
grade_or_worst : Option StepResult → Option (List StepResult) → Option Grade
grade_or_worst none parallel = worst_of parallel
grade_or_worst (some r) parallel = elim r.grade [ none ↦ worst_of parallel | some g ↦ some g ]

abbrev with_feedback : Option StepResult → Option StepResult
with_feedback none = none
with_feedback (some r) =
    some (record r { grade = if is_bad r.grade then r.grade else some feedback })

abbrev sum_costs : List StepResult → ℕ × ℕ
sum_costs [] = (0, 0)
sum_costs (r ∷ rs) = let (c, t) = sum_costs rs in (r.cost + c, r.tokens + t)

told_costs : Option StepResult → Option (List StepResult) → Option (ℕ × ℕ)
told_costs (some r) parallel = some (r.cost, r.tokens)
told_costs none (some rs) = some (sum_costs rs)
told_costs none none = none

status_of : Bool → Bool → Option Grade → StepStatus
status_of certification step_verified grade =
    let soft = not step_verified || is_bad grade in
    if is_failed_grade grade || (soft && not certification)
    then StepStatus.failed
    else if soft
    then degraded
    else completed

-- The verification and what follows it; `all_met` is the answer of verifyTillDone.
settle_step : StepConfig → Bool → Option StepResult → Option (List StepResult) → ℕ → Settled
unfolding grade_or_worst told_costs status_of
settle_step c all_met result parallel attempts =
    let first = grade_or_worst result parallel in
    let unmet = not (is_bad first) && (c.has_till_done && not all_met) in
    let result' = if unmet then with_feedback result else result in
    let grade = grade_or_worst result' parallel in
    record {
      status = status_of c.certification (not unmet) grade;
      grade = grade;
      told = told_costs result' parallel;
      marked = not unmet && not (is_bad grade);
      attempts = attempts;
    }

finish_with : StepConfig → Bool → Option (List StepResult) → Option StepResult × ℕ → Ending
unfolding settle_step
finish_with c all_met parallel (none, k) = throws k
finish_with c all_met parallel (some r, k) = ends (settle_step c all_met (some r) parallel k)

retry_result :
    StepConfig
    → Bool
    → Option (List StepResult)
    → (ℕ → Option StepResult)
    → Option StepResult
    → Ending
unfolding finish_with settle_step retries
retry_result c all_met parallel run none = ends (settle_step c all_met none parallel 0)
retry_result c all_met parallel run (some r) =
    finish_with c all_met parallel (retries run (or_else c.max_attempts 2) 0 r)

unfoldable pub end_step :
    StepConfig
    → Bool
    → (ℕ → Option StepResult)
    → Option StepResult
    → Option (List StepResult)
    → Ending
unfolding retry_result representative settle_step
end_step c all_met run result parallel =
    let current = representative result parallel in
    if (bad_result result || any_bad parallel) && (c.can_retry && not c.certification)
    then retry_result c all_met parallel run current
    else ends (settle_step c all_met current parallel 0)
