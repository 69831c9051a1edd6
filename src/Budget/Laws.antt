-- ===== src/Budget/Laws.antt =====
-- engine/budget.ts: what the checks decide, and what they keep over any sequence of charges.
use multi_agent_engine.Common.{
  ℕ, ◌+◌, ◌≤◌, ◌<◌, ◌≡◌, ◌↔◌, refl, Bool, true, false, Option, some, List, [], ◌∷◌, if◌then◌else◌,
  arith, sym, subst,
}
use multi_agent_engine.Budget.{
  BudgetLimits, BudgetState, Totals, within, hard_limits, check_limits, check_some, check_budget,
  percent_ge, check_proactive, check_budget_proactive, Ledger, Move, charge, watch, add, step, run,
}

-- Where limits are set, checkBudget lets a charge pass exactly when the agent's cost is within its
-- own limit and both the projected cost and the projected tokens stay below the session's limits.
-- The user is warned exactly when that has not happened before, the agent is within its limit, and
-- the projected cost reaches the threshold, also where the check throws in the end; the flag
-- records it, and the limits stay as they are.
pub check_budget-within :
    (l : BudgetLimits) (warned : Bool) (session agent : Totals)
    → let b : BudgetState = record { budgets = some l; budget_warned = warned } in
      let r = check_budget b session agent in
      ((r.0 ≡ within) ↔ (
        (agent.cost ≤ l.max_per_agent)
        × (session.cost + agent.cost < l.max_per_session)
        × (session.tokens + agent.tokens < l.max_total_tokens)))
      × ((r.2 ≡ true) ↔ (
          (warned ≡ false)
          × (agent.cost ≤ l.max_per_agent)
          × (l.warn_at ≤ session.cost + agent.cost)))
      × (r.1.budgets ≡ some l)
      × (r.1.budget_warned ≡ (if r.2 then true else warned))
unfolding check_budget check_some check_limits hard_limits
check_budget-within l true session agent = (ground arith, ground arith, ground arith, ground arith)
check_budget-within l false session agent = (ground arith, ground arith, ground arith, ground arith)

-- The ledger of a session with limits: the totals stay below them, but for what was added without a
-- check, and the user has been warned once if the flag is set, and never if it is not; it is set where
-- the cost without those additions reaches the threshold.
pub record Inv (l : BudgetLimits) (g : Ledger) : Type 0 where
  pub limits : g.budget.budgets ≡ some l
  pub cost_below : g.totals.cost < l.max_per_session + g.unchecked.cost
  pub tokens_below : g.totals.tokens < l.max_total_tokens + g.unchecked.tokens
  pub warned_once : g.warnings ≡ (if g.budget.budget_warned then 1 else 0)
  pub warned_at : l.warn_at + g.unchecked.cost ≤ g.totals.cost → g.budget.budget_warned ≡ true

module _ (l : BudgetLimits) (warned : Bool) (session : Totals) (warnings : ℕ)
    (unchecked : Totals) where
  abbrev pub ledger : Ledger
  ledger = record {
    budget = record { budgets = some l; budget_warned = warned };
    totals = session;
    warnings = warnings;
    unchecked = unchecked;
  }

  charge-Inv : (agent : Totals) → Inv l ledger → Inv l (step ledger (charge agent))
  unfolding step check_budget check_some check_limits hard_limits
  charge-Inv agent v = ground (arith, v.cost_below, v.tokens_below, v.warned_once, v.warned_at)

  watch-Inv : Inv l ledger → Inv l (step ledger watch)
  unfolding step check_budget_proactive check_proactive percent_ge
  watch-Inv v = ground (arith, v.cost_below, v.tokens_below, v.warned_once, v.warned_at)

abbrev with_limits : Option BudgetLimits → Ledger → Ledger
with_limits b g = record g { budget = record g.budget { budgets = b } }

step-Inv : (l : BudgetLimits) (g : Ledger) (m : Move) → Inv l g → Inv l (step g m)
unfolding step
step-Inv l g (charge agent) v =
    subst (λ b. Inv l (with_limits b g) → Inv l (step (with_limits b g) (charge agent)))
      (sym v.limits) (charge-Inv l g.budget.budget_warned g.totals g.warnings g.unchecked agent) v
step-Inv l g watch v =
    subst (λ b. Inv l (with_limits b g) → Inv l (step (with_limits b g) watch)) (sym v.limits)
      (watch-Inv l g.budget.budget_warned g.totals g.warnings g.unchecked) v
step-Inv l g (add agent) v = record {
  limits = v.limits;
  cost_below = omega (arith, v.cost_below);
  tokens_below = omega (arith, v.tokens_below);
  warned_once = v.warned_once;
  warned_at = λ h. v.warned_at (omega (arith, h));
}

run-Inv : (l : BudgetLimits) (g : Ledger) (ms : List Move) → Inv l g → Inv l (run g ms)
unfolding run
run-Inv l g [] v = v
run-Inv l g (m ∷ ms) v = run-Inv l (step g m) ms (step-Inv l g m v)

abbrev pub nothing : Totals
nothing = record { cost = 0; tokens = 0 }

-- However often a session is charged and watched from its start, and whatever is added to its totals
-- without a check in between, with a positive limit of cost, of tokens and a positive threshold: the
-- totals stay below the limits plus what was added without a check. The user is warned at most once,
-- by whichever check comes first, and has been warned once the cost without those additions has
-- reached the threshold.
pub run-within :
    (l : BudgetLimits) (ms : List Move)
    → 0 < l.max_per_session
    → 0 < l.max_total_tokens
    → 0 < l.warn_at
    → Inv l (run (ledger l false nothing 0 nothing) ms)
run-within l ms hc ht hw = run-Inv l (ledger l false nothing 0 nothing) ms (record {
  limits = refl;
  cost_below = omega (arith, hc);
  tokens_below = omega (arith, ht);
  warned_once = refl;
  warned_at = λ h. absurd (omega (arith, h, hw));
})
