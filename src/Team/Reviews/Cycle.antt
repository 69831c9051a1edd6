-- ===== src/Team/Reviews/Cycle.antt =====
-- The loop of leadReviewAndRetry of engine/team-execution.ts.
use multi_agent_engine.Common.{
  ℕ, zero, suc, Bool, true, false, ◌&&◌, none, some, or_else, List, [], ◌∷◌, any, keep, get_elem?,
  if◌then◌else◌,
}
use multi_agent_engine.Pipeline.{Text}
use multi_agent_engine.Team.Data.{
  WorkerReview, DelegateResult, Outcome, done, and_then, is_needs_work,
}
use multi_agent_engine.Team.Reviews.Parts.{
  State, find_team_member, add_failed, build_failed_worker_reviews,
}
use multi_agent_engine.Team.Workers.{FailedWorker}
use multi_agent_engine.Team.Reviews.Calls.{
  put, is_for, Job, review_only, lead_review_workers, set_review, apply_fix, spawn_senior,
  retry_worker,
}

-- `review.reworkedPrompt`
unfoldable pub rework : Job → ℕ → WorkerReview → State → Outcome State
unfolding retry_worker
rework j attempt r s = elim r.reworked_prompt [
  | none ↦ done s
  | some p ↦ elim (find_team_member j.team.members r) [
    | none ↦ done s
    | some m ↦ retry_worker j attempt m r p s
  ]
]

unfoldable pub after_fix : Job → ℕ → ℕ → WorkerReview → State → Outcome State
unfolding spawn_senior rework
after_fix j attempt i r s = elim r.sr_domains [
  | none ↦ rework j attempt r s
  | some [] ↦ rework j attempt r s
  | some (n ∷ ns) ↦ spawn_senior j (n ∷ ns) i r s
]

-- A review that needs work; a fix of the lead is dropped in a step for review only.
unfoldable pub handle : Job → ℕ → ℕ → WorkerReview → State → Outcome State
unfolding after_fix apply_fix
handle j attempt i r s = elim r.direct_fix [
  | none ↦ after_fix j attempt i r s
  | some fix ↦
      let without = record r { direct_fix = none } in
      elim (review_only j) [
        | true ↦ after_fix j attempt i without (set_review i without s)
        | false ↦ done (apply_fix i r fix s)
      ]
]

unfoldable pub handle_at : Job → ℕ → ℕ → State → Outcome State
unfolding handle
handle_at j attempt i s = elim (get_elem? s.reviews i) [
  | none ↦ done s
  | some r ↦ handle j attempt i r s
]

-- The inner loop, over the positions of the reviews that need work.
unfoldable pub handle_all : Job → ℕ → List ℕ → State → Outcome State
unfolding handle_at
handle_all j attempt [] s = done s
handle_all j attempt (i ∷ is) s = and_then (handle_at j attempt i s) (handle_all j attempt is)

-- The positions, from the i-th on, of the reviews that need work.
unfoldable pub needing_work : ℕ → List WorkerReview → List ℕ
needing_work i [] = []
needing_work i (r ∷ rs) =
    let rest = needing_work (suc i) rs in if is_needs_work r.grade then i ∷ rest else rest

abbrev pub still_needs : Text → List WorkerReview → ℕ → Bool
still_needs id reviews i = elim (get_elem? reviews i) [
  | none ↦ false
  | some r ↦ is_for id r && is_needs_work r.grade
]

unfoldable pub retried_results : List ℕ → State → List DelegateResult
retried_results needs s = keep (λ d. any (still_needs d.agent_id s.reviews) needs) s.results

unfoldable pub merge_reviews : List WorkerReview → List WorkerReview → List WorkerReview
merge_reviews reviews [] = reviews
merge_reviews reviews (r ∷ rs) = merge_reviews (put (is_for r.worker_id) r reviews) rs

abbrev pub merged : List WorkerReview → State → Outcome State
merged rs s = done (record s { reviews = merge_reviews s.reviews rs })

unfoldable pub review_again : Job → List ℕ → State → Outcome State
unfolding merge_reviews retried_results
review_again j needs s = elim (retried_results needs s) [
  | [] ↦ done s
  | d ∷ ds ↦ lead_review_workers j (d ∷ ds) s merged
]

unfoldable pub cycle : Job → ℕ → List ℕ → State → Outcome State
unfolding handle_all review_again
cycle j attempt needs s =
    and_then (handle_all j attempt needs (record s { cycles = suc s.cycles }))
      (review_again j needs)

-- The retry loop, with the attempts left and the number of the next.
unfoldable pub retry_cycles : Job → ℕ → ℕ → State → Outcome State
unfolding needing_work
retry_cycles j zero attempt s = done s
retry_cycles j (suc left) attempt s = elim (needing_work 0 s.reviews) [
  | [] ↦ done s
  | i ∷ is ↦ and_then (cycle j attempt (i ∷ is) s) (retry_cycles j left (suc attempt))
]

abbrev pub with_failed : Job → List FailedWorker → List WorkerReview → State → State
with_failed j failures reviews s = record s {
  reviews =
      add_failed reviews (build_failed_worker_reviews j.step.team j.team s.assignments failures);
}

abbrev pub then_retry : Job → List FailedWorker → List WorkerReview → State → Outcome State
then_retry j failures reviews s =
    retry_cycles j (or_else j.step.max_worker_retries 3) 1 (with_failed j failures reviews s)

unfoldable pub lead_review_and_retry : Job → List FailedWorker → State → Outcome State
lead_review_and_retry j failures s = lead_review_workers j s.results s (then_retry j failures)
