-- ===== src/Team/Reviews/Kept.antt =====
-- What every step of a review keeps: a property of the state that each change keeps holds after the
-- reviews and retries of engine/team-execution.ts, also where they throw.
pub mod Loop
use multi_agent_engine.Common.{
  ℕ, zero, suc, ◌≡◌, refl, ◌⊎◌, inl, inr, String, Bool, true, false, Option, none, some, List, [],
  ◌∷◌, get_elem?, Option-cases, or_else, if◌then◌else◌,
}
use multi_agent_engine.Pipeline.{Text}
use multi_agent_engine.Budget.{
  BudgetState, Verdict, within, over_agent, over_session, over_tokens, check_budget,
}
use multi_agent_engine.SpawnDecision.{is_empty}
use multi_agent_engine.Team.Gates.{Rights, retry_rights, sr_rights}
use multi_agent_engine.Team.Data.{
  TeamMember, WorkerReview, DelegateResult, Outcome, done, threw, and_then, state_of,
}
use multi_agent_engine.Team.Reviews.Parts.{
  State, tick, add_totals, charge, settle_charge, assert_active, parse_reviews, find_team_member,
  assign,
}
use multi_agent_engine.Team.Reviews.Calls.{
  put, replace, has_id, is_result_of, Job, review_only, run_agent, lead_review_workers, answered,
  set_review, apply_fix, sr_name, domain_members, not_found, take_over, took_over, retried,
  spawn_senior, retry_worker,
}
use multi_agent_engine.Team.Reviews.Cycle.{
  rework, after_fix, handle, handle_at, handle_all, retried_results, merge_reviews, merged,
  review_again, retry_cycles,
}
use multi_agent_engine.Team.Workers.{FailedWorker}

-- Rights with which a retry or a senior may be started.
pub data IsRight (j : Job) (g : Rights) : Type 0 where
  by_retry :
      (m : TeamMember) (attempt : ℕ)
      → retry_rights j.env.numeral j.step.strict m (review_only j) attempt ≡ some g
      → IsRight j g
  by_senior :
      (ms : List TeamMember) (senior worker : String)
      → sr_rights j.step.strict ms senior worker (review_only j) ≡ some g
      → IsRight j g

-- The number is what was charged for a result that has not yet its place.
pub record IsKept (j : Job) (P : ℕ → State → Type 0) : Type 0 where
  pub on_tick : (s : State) → P 0 s → P 0 (tick s)
  pub on_start :
      (s : State) (g : Rights)
      → IsRight j g
      → P 0 s
      → P 0 (record s { started = g ∷ s.started; ticks = suc s.ticks })
  pub on_refusal : (s : State) (b : BudgetState) → P 0 s → P 0 (record s { budget = b })
  pub on_charge :
      (s : State) (b : BudgetState) (c t : ℕ)
      → P 0 s
      → P c (record s { budget = b; session = add_totals s.session c t })
  pub on_review_cost :
      (s : State) (c t : ℕ) → P 0 s → P 0 (record s { session = add_totals s.session c t })
  pub on_reviews :
      (n : ℕ) (s : State) (rs : List WorkerReview) → P n s → P n (record s { reviews = rs })
  pub on_assign :
      (n : ℕ) (s : State) (m : List (Text × String)) → P n s → P n (record s { assignments = m })
  pub on_fix :
      (s : State) (p : DelegateResult → Bool) (f : DelegateResult → DelegateResult)
      → ((d : DelegateResult) → (f d).cost ≡ d.cost)
      → P 0 s
      → P 0 (record s { results = replace p f s.results })
  pub on_replace :
      (s : State) (p : DelegateResult → Bool) (d : DelegateResult)
      → P d.cost s
      → P 0 (record s { results = replace p (λ _. d) s.results })
  pub on_put :
      (s : State) (p : DelegateResult → Bool) (d : DelegateResult)
      → P d.cost s
      → P 0 (record s { results = put p d s.results })

-- The property holds whether the code goes on or throws.
abbrev pub After : (ℕ → State → Type 0) → Outcome State → Type 0
After P o = P 0 (state_of o)

pub and_then-After :
    (P : ℕ → State → Type 0) (o : Outcome State) (f : State → Outcome State)
    → After P o
    → ((s : State) → P 0 s → After P (f s))
    → After P (and_then o f)
and_then-After P (done s) f h k = k s h
and_then-After P (threw s) f h k = h

module _ (j : Job) (P : ℕ → State → Type 0) (kept : IsKept j P) where
  assert_active-After : (s : State) → P 0 s → After P (assert_active j.env s)
  unfolding assert_active
  assert_active-After s h =
      elim (j.env.stopped s.ticks) as (λ b. After P (if b then threw (tick s) else done (tick s))) [
        | true ↦ kept.on_tick s h
        | false ↦ kept.on_tick s h
      ]

  settle_charge-After :
      (v : Verdict × BudgetState × Bool) (c t : ℕ) (s : State) (f : State → Outcome State)
      → P 0 s
      → ((s' : State) → P c s' → After P (f s'))
      → After P (and_then (settle_charge v c t s) f)
  unfolding settle_charge
  settle_charge-After (within, b, told) c t s f h k = k _ (kept.on_charge s b c t h)
  settle_charge-After (over_agent, b, told) c t s f h k = kept.on_refusal s b h
  settle_charge-After (over_session, b, told) c t s f h k = kept.on_refusal s b h
  settle_charge-After (over_tokens, b, told) c t s f h k = kept.on_refusal s b h

  charge-After :
      (c t : ℕ) (s : State) (f : State → Outcome State)
      → P 0 s
      → ((s' : State) → P c s' → After P (f s'))
      → After P (and_then (charge c t s) f)
  unfolding charge
  charge-After c t s f h k =
      settle_charge-After (check_budget s.budget s.session (record { cost = c; tokens = t })) c t s
        f h k

  run_agent-After :
      (g : Option Rights) (s : State) (f : DelegateResult → State → Outcome State)
      → ((r : Rights) → g ≡ some r → IsRight j r)
      → P 0 s
      → ((d : DelegateResult) (s' : State) → P d.cost s' → After P (f d s'))
      → After P (run_agent j g s f)
  unfolding run_agent
  run_agent-After none s f right h k = h
  run_agent-After (some r) s f right h k =
      elim (j.env.delegate s.ticks r)
        as (λ o. After P (elim o [
          | none ↦ threw (record s { started = r ∷ s.started; ticks = suc s.ticks })
          | some d ↦
              and_then
                (charge d.cost d.tokens (record s { started = r ∷ s.started; ticks = suc s.ticks }))
                (f d)
        ])) [
          | none ↦ kept.on_start s r (right r refl) h
          | some d ↦ charge-After d.cost d.tokens _ (f d) (kept.on_start s r (right r refl) h) (k d)
        ]

  pub lead_review_workers-After :
      (rs : List DelegateResult) (s : State) (f : List WorkerReview → State → Outcome State)
      → P 0 s
      → ((vs : List WorkerReview) (s' : State) → P 0 s' → After P (f vs s'))
      → After P (lead_review_workers j rs s f)
  unfolding lead_review_workers answered
  lead_review_workers-After rs s f h k =
      and_then-After P (assert_active j.env s) _ (assert_active-After s h) (λ s1 h1.
        elim (j.env.review s1.ticks)
          as (λ o. After P (elim o [
            | none ↦ threw (tick s1)
            | some a ↦
                f (parse_reviews a.block rs)
                  (record (tick s1) { session = add_totals s1.session a.cost a.tokens })
          ])) [
            | none ↦ kept.on_tick s1 h1
            | some a ↦ k _ _ (kept.on_review_cost (tick s1) a.cost a.tokens (kept.on_tick s1 h1))
          ])

  took_over-After :
      (i : ℕ) (r : WorkerReview) (d : DelegateResult) (s : State)
      → P d.cost s
      → After P (took_over i r d s)
  took_over-After i r d s h = kept.on_reviews 0 _ _ (kept.on_replace s (has_id r.worker_id) d h)

  pub spawn_senior-After :
      (domains : List String) (i : ℕ) (r : WorkerReview) (s : State)
      → P 0 s
      → After P (spawn_senior j domains i r s)
  unfolding spawn_senior not_found
  spawn_senior-After domains i r s h =
      let ms = domain_members j domains in
      let g = sr_rights j.step.strict ms (sr_name domains) r.worker_name (review_only j) in
      and_then-After P (assert_active j.env s) _ (assert_active-After s h) (λ s1 h1.
        elim (is_empty ms)
          as (λ b. After P (elim b [
            | true ↦ took_over i r (not_found j domains) s1
            | false ↦ run_agent j g s1 (took_over i r)
          ])) [
            | true ↦ took_over-After i r (not_found j domains) s1 h1
            | false ↦
                run_agent-After g s1 (took_over i r)
                  (λ x e. by_senior ms (sr_name domains) r.worker_name e) h1
                  (λ d s2 h2. took_over-After i r d s2 h2)
          ])

  pub retry_worker-After :
      (attempt : ℕ) (m : TeamMember) (r : WorkerReview) (prompt : String) (s : State)
      → P 0 s
      → After P (retry_worker j attempt m r prompt s)
  unfolding retry_worker
  retry_worker-After attempt m r prompt s h =
      and_then-After P (assert_active j.env s) _ (assert_active-After s h) (λ s1 h1.
        run_agent-After _ s1 (retried r prompt) (λ x e. by_retry m attempt e) h1
          (λ d s2 h2. kept.on_assign 0 _ _ (
            kept.on_put s2 (is_result_of r)
              (record d { agent_id = r.worker_id; agent_name = r.worker_name }) h2)))
