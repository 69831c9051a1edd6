-- ===== src/Team/Reviews/Costs.antt =====
-- engine/team-execution.ts: the costs of the results never exceed what the session was charged.
use multi_agent_engine.Common.{ℕ, ◌+◌, ◌≤◌, ◌≡◌, Bool, List, [], ◌∷◌, arith, Bool-cases, inl, inr}
use multi_agent_engine.Team.Data.{DelegateResult, sum_cost}
use multi_agent_engine.Team.Reviews.Parts.{State}
use multi_agent_engine.Team.Reviews.Calls.{put, replace, Job}
use multi_agent_engine.Team.Reviews.Kept.{IsKept}

-- The session was at `base` before; `n` was charged for a result that has not yet its place.
abbrev pub IsPaid : ℕ → ℕ → State → Type 0
IsPaid base n s = base + sum_cost s.results + n ≤ s.session.cost

put-cost :
    (p : DelegateResult → Bool) (d : DelegateResult) (rs : List DelegateResult)
    → sum_cost (put p d rs) ≤ sum_cost rs + d.cost
put-cost p d [] = omega arith
put-cost p d (r ∷ rs) = elim (Bool-cases (p r)) [
  | inl e ↦ rw e (omega arith)
  | inr e ↦ rw e (omega (arith, put-cost p d rs))
]

replace-cost :
    (p : DelegateResult → Bool) (d : DelegateResult) (rs : List DelegateResult)
    → sum_cost (replace p (λ _. d) rs) ≤ sum_cost rs + d.cost
replace-cost p d [] = omega arith
replace-cost p d (r ∷ rs) = elim (Bool-cases (p r)) [
  | inl e ↦ rw e (omega arith)
  | inr e ↦ rw e (omega (arith, replace-cost p d rs))
]

replace-cost_same :
    (p : DelegateResult → Bool) (f : DelegateResult → DelegateResult) (rs : List DelegateResult)
    → ((d : DelegateResult) → (f d).cost ≡ d.cost)
    → sum_cost (replace p f rs) ≡ sum_cost rs
replace-cost_same p f [] h = omega arith
replace-cost_same p f (r ∷ rs) h = elim (Bool-cases (p r)) [
  | inl e ↦ rw e (omega (arith, h r))
  | inr e ↦ rw e (omega (arith, replace-cost_same p f rs h))
]

pub IsPaid-IsKept : (j : Job) (base : ℕ) → IsKept j (IsPaid base)
IsPaid-IsKept j base = record {
  on_tick = λ s h. h;
  on_start = λ s g r h. h;
  on_refusal = λ s b h. h;
  on_charge = λ s b c t h. omega arith;
  on_review_cost = λ s c t h. omega arith;
  on_reviews = λ n s rs h. h;
  on_assign = λ n s m h. h;
  on_fix = λ s p f k h. omega (arith, replace-cost_same p f s.results k);
  on_replace = λ s p d h. omega (arith, replace-cost p d s.results);
  on_put = λ s p d h. omega (arith, put-cost p d s.results);
}
