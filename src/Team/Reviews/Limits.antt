-- ===== src/Team/Reviews/Limits.antt =====
-- engine/team-execution.ts: how many retry cycles there are, and how they end.
use multi_agent_engine.Common.{
  ℕ, zero, suc, ◌+◌, ◌≤◌, ◌≡◌, refl, ◌⊎◌, inl, inr, List, [], ◌∷◌, ap, ◌∙◌, arith, or_else, none,
  some,
}
use multi_agent_engine.Team.Data.{DelegateResult, Outcome, done, threw, and_then, state_of}
use multi_agent_engine.Team.Reviews.Parts.{State, tick, add_totals, parse_reviews}
use multi_agent_engine.Team.Reviews.Cases.{assert_active-cases}
use multi_agent_engine.Team.Reviews.Calls.{Job, answered, lead_review_workers}
use multi_agent_engine.Team.Reviews.Cycle.{
  needing_work, cycle, retry_cycles, then_retry, lead_review_and_retry,
}
use multi_agent_engine.Team.Reviews.Kept.{IsKept}
use multi_agent_engine.Team.Reviews.Kept.Loop.{cycle-After}
use multi_agent_engine.Team.Workers.{FailedWorker}

-- The number of cycles is the same.
abbrev At : ℕ → ℕ → State → Type 0
At k n s = s.cycles ≡ k

At-IsKept : (j : Job) (k : ℕ) → IsKept j (At k)
At-IsKept j k = record {
  on_tick = λ s h. h;
  on_start = λ s g r h. h;
  on_refusal = λ s b h. h;
  on_charge = λ s b c t h. h;
  on_review_cost = λ s c t h. h;
  on_reviews = λ n s rs h. h;
  on_assign = λ n s m h. h;
  on_fix = λ s p f x h. h;
  on_replace = λ s p d h. h;
  on_put = λ s p d h. h;
}

cycle-cycles :
    (j : Job) (attempt : ℕ) (needs : List ℕ) (s : State)
    → (state_of (cycle j attempt needs s)).cycles ≡ suc s.cycles
cycle-cycles j attempt needs s =
    cycle-After j (At (suc s.cycles)) (At-IsKept j (suc s.cycles)) attempt needs s refl

-- How the cycles end, from `k` on with `n` left: within the limit, and where nothing is thrown, with no
-- review that needs work, or with all cycles used.
abbrev pub EndsWithin : ℕ → ℕ → Outcome State → Type 0
EndsWithin k n (threw s) = s.cycles ≤ k + n
EndsWithin k n (done s) =
    (s.cycles ≤ k + n) × ((needing_work 0 s.reviews ≡ []) ⊎ (s.cycles ≡ k + n))

EndsWithin-next : (k n : ℕ) (o : Outcome State) → EndsWithin (suc k) n o → EndsWithin k (suc n) o
EndsWithin-next k n (threw s) h = omega arith
EndsWithin-next k n (done s) (h, inl e) = (omega arith, inl e)
EndsWithin-next k n (done s) (h, inr e) = (omega arith, inr (omega arith))

and_then-EndsWithin :
    (k n : ℕ) (o : Outcome State) (f : State → Outcome State)
    → (state_of o).cycles ≡ suc k
    → ((s : State) → s.cycles ≡ suc k → EndsWithin (suc k) n (f s))
    → EndsWithin k (suc n) (and_then o f)
and_then-EndsWithin k n (done s) f e h = EndsWithin-next k n (f s) (h s e)
and_then-EndsWithin k n (threw s) f e h = omega arith

one_cycle-EndsWithin :
    (j : Job) (n attempt k : ℕ) (s : State)
    → s.cycles ≡ k
    → ((s1 : State) → s1.cycles ≡ suc k → EndsWithin (suc k) n (retry_cycles j n (suc attempt) s1))
    → (needs : List ℕ) → needing_work 0 s.reviews ≡ needs
    → EndsWithin k (suc n) (elim needs [
      | [] ↦ done s
      | i ∷ is ↦ and_then (cycle j attempt (i ∷ is) s) (retry_cycles j n (suc attempt))
    ])
one_cycle-EndsWithin j n attempt k s e later [] h = (omega arith, inl h)
one_cycle-EndsWithin j n attempt k s e later (i ∷ is) h =
    and_then-EndsWithin k n (cycle j attempt (i ∷ is) s) _
      (cycle-cycles j attempt (i ∷ is) s ∙ ap suc e) later

retry_cycles-EndsWithin :
    (j : Job) (n attempt k : ℕ) (s : State)
    → s.cycles ≡ k
    → EndsWithin k n (retry_cycles j n attempt s)
unfolding retry_cycles
retry_cycles-EndsWithin j zero attempt k s e = (omega arith, inr (omega arith))
retry_cycles-EndsWithin j (suc n) attempt k s e =
    one_cycle-EndsWithin j n attempt k s e
      (λ s1 e1. retry_cycles-EndsWithin j n (suc attempt) (suc k) s1 e1) (needing_work 0 s.reviews)
      refl

-- The cycles that the step allows.
abbrev pub limit_of : Job → ℕ
limit_of j = or_else j.step.max_worker_retries 3

answered-EndsWithin :
    (j : Job) (failures : List FailedWorker) (rs : List DelegateResult) (s : State)
    → EndsWithin s.cycles (limit_of j) (answered j rs (then_retry j failures) s)
unfolding answered
answered-EndsWithin j failures rs s =
    elim (j.env.review s.ticks)
      as (λ o. EndsWithin s.cycles (limit_of j) (elim o [
        | none ↦ threw (tick s)
        | some a ↦
            then_retry j failures (parse_reviews a.block rs)
              (record (tick s) { session = add_totals s.session a.cost a.tokens })
      ])) [ none ↦ omega arith | some a ↦ retry_cycles-EndsWithin j (limit_of j) 1 s.cycles _ refl ]

pub lead_review_and_retry-EndsWithin :
    (j : Job) (failures : List FailedWorker) (s : State)
    → EndsWithin s.cycles (limit_of j) (lead_review_and_retry j failures s)
unfolding lead_review_and_retry lead_review_workers
lead_review_and_retry-EndsWithin j failures s =
    assert_active-cases j.env s
      (λ o.
        EndsWithin s.cycles (limit_of j)
          (and_then o (answered j s.results (then_retry j failures))))
      (answered-EndsWithin j failures s.results (tick s)) (omega arith)
