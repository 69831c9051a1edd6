-- ===== src/Team/Reviews/Kept/Loop.antt =====
-- The loop of leadReviewAndRetry of engine/team-execution.ts keeps what each change keeps.
use multi_agent_engine.Common.{
  ℕ, zero, suc, refl, true, false, none, some, List, [], ◌∷◌, get_elem?,
}
use multi_agent_engine.Team.Data.{WorkerReview, done, and_then}
use multi_agent_engine.Team.Reviews.Parts.{State, find_team_member}
use multi_agent_engine.Team.Reviews.Calls.{
  has_id, Job, review_only, lead_review_workers, set_review, apply_fix, spawn_senior, retry_worker,
}
use multi_agent_engine.Team.Reviews.Cycle.{
  rework, after_fix, handle, handle_at, handle_all, retried_results, merged, review_again, cycle,
  needing_work, retry_cycles, then_retry, lead_review_and_retry,
}
use multi_agent_engine.Team.Workers.{FailedWorker}
use multi_agent_engine.Team.Reviews.Kept.{
  IsKept, After, and_then-After, lead_review_workers-After, spawn_senior-After, retry_worker-After,
}

module _ (j : Job) (P : ℕ → State → Type 0) (kept : IsKept j P) where
  rework-After :
      (attempt : ℕ) (r : WorkerReview) (s : State) → P 0 s → After P (rework j attempt r s)
  unfolding rework
  rework-After attempt r s h =
      elim r.reworked_prompt
        as (λ o. After P (elim o [
          | none ↦ done s
          | some p ↦ elim (find_team_member j.team.members r) [
            | none ↦ done s
            | some m ↦ retry_worker j attempt m r p s
          ]
        ])) [
          | none ↦ h
          | some p ↦
              elim (find_team_member j.team.members r)
                as (λ o.
                  After P (elim o [ none ↦ done s | some m ↦ retry_worker j attempt m r p s ])) [
                    | none ↦ h
                    | some m ↦ retry_worker-After j P kept attempt m r p s h
                  ]
        ]

  after_fix-After :
      (attempt i : ℕ) (r : WorkerReview) (s : State) → P 0 s → After P (after_fix j attempt i r s)
  unfolding after_fix
  after_fix-After attempt i r s h =
      elim r.sr_domains
        as (λ o. After P (elim o [
          | none ↦ rework j attempt r s
          | some [] ↦ rework j attempt r s
          | some (n ∷ ns) ↦ spawn_senior j (n ∷ ns) i r s
        ])) [
          | none ↦ rework-After attempt r s h
          | some [] ↦ rework-After attempt r s h
          | some (n ∷ ns) ↦ spawn_senior-After j P kept (n ∷ ns) i r s h
        ]

  handle-After :
      (attempt i : ℕ) (r : WorkerReview) (s : State) → P 0 s → After P (handle j attempt i r s)
  unfolding handle apply_fix
  handle-After attempt i r s h =
      elim r.direct_fix
        as (λ o. After P (elim o [
          | none ↦ after_fix j attempt i r s
          | some fix ↦
              let without = record r { direct_fix = none } in
              elim (review_only j) [
                | true ↦ after_fix j attempt i without (set_review i without s)
                | false ↦ done (apply_fix i r fix s)
              ]
        ])) [
          | none ↦ after_fix-After attempt i r s h
          | some fix ↦
              elim (review_only j)
                as (λ b. After P (elim b [
                  | true ↦
                      after_fix j attempt i (record r { direct_fix = none })
                        (set_review i (record r { direct_fix = none }) s)
                  | false ↦ done (apply_fix i r fix s)
                ])) [
                  | true ↦ after_fix-After attempt i _ _ (kept.on_reviews 0 s _ h)
                  | false ↦
                      kept.on_reviews 0 _ _ (kept.on_fix s (has_id r.worker_id) _ (λ d. refl) h)
                ]
        ]

  handle_all-After :
      (attempt : ℕ) (is : List ℕ) (s : State) → P 0 s → After P (handle_all j attempt is s)
  unfolding handle_all handle_at
  handle_all-After attempt [] s h = h
  handle_all-After attempt (i ∷ is) s h =
      and_then-After P (handle_at j attempt i s) _
        (elim (get_elem? s.reviews i)
          as (λ o. After P (elim o [ none ↦ done s | some r ↦ handle j attempt i r s ])) [
            | none ↦ h
            | some r ↦ handle-After attempt i r s h
          ])
        (λ s1 h1. handle_all-After attempt is s1 h1)

  pub review_again-After : (needs : List ℕ) (s : State) → P 0 s → After P (review_again j needs s)
  unfolding review_again
  review_again-After needs s h =
      elim (retried_results needs s)
        as (λ o.
          After P (elim o [ [] ↦ done s | d ∷ ds ↦ lead_review_workers j (d ∷ ds) s merged ])) [
            | [] ↦ h
            | d ∷ ds ↦
                lead_review_workers-After j P kept (d ∷ ds) s merged h
                  (λ vs s1 h1. kept.on_reviews 0 s1 _ h1)
          ]

  pub cycle-After :
      (attempt : ℕ) (needs : List ℕ) (s : State)
      → P 0 (record s { cycles = suc s.cycles })
      → After P (cycle j attempt needs s)
  unfolding cycle
  cycle-After attempt needs s h =
      and_then-After P (handle_all j attempt needs (record s { cycles = suc s.cycles })) _
        (handle_all-After attempt needs _ h) (λ s1 h1. review_again-After needs s1 h1)

  module _ (next : (s : State) → P 0 s → P 0 (record s { cycles = suc s.cycles })) where
    retry_cycles-After :
        (left attempt : ℕ) (s : State) → P 0 s → After P (retry_cycles j left attempt s)
    unfolding retry_cycles
    retry_cycles-After zero attempt s h = h
    retry_cycles-After (suc left) attempt s h =
        elim (needing_work 0 s.reviews)
          as (λ o. After P (elim o [
            | [] ↦ done s
            | i ∷ is ↦ and_then (cycle j attempt (i ∷ is) s) (retry_cycles j left (suc attempt))
          ])) [
            | [] ↦ h
            | i ∷ is ↦
                and_then-After P (cycle j attempt (i ∷ is) s) _
                  (cycle-After attempt (i ∷ is) s (next s h))
                  (λ s1 h1. retry_cycles-After left (suc attempt) s1 h1)
          ]

    pub lead_review_and_retry-After :
        (failures : List FailedWorker) (s : State)
        → P 0 s
        → After P (lead_review_and_retry j failures s)
    unfolding lead_review_and_retry
    lead_review_and_retry-After failures s h =
        lead_review_workers-After j P kept s.results s (then_retry j failures) h
          (λ vs s1 h1. retry_cycles-After _ 1 _ (kept.on_reviews 0 s1 _ h1))
