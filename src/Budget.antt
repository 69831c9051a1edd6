-- ===== src/Budget.antt =====
-- The budget of a session, engine/budget.ts. Costs are exact numbers of some unit of money, where
-- the code has floating-point dollars; messages are counted, and the log is left out.
pub mod Laws
mod Tests
use multi_agent_engine.Common.{
  ℕ, suc, ◌+◌, ◌*◌, Bool, true, false, ◌&&◌, not, Option, none, some, or_else, List, [], ◌∷◌, ltb,
  leb, ◌==◌, if◌then◌else◌,
}

pub data BudgetAction : Type 0 where
  warn pause : BudgetAction

pub record BudgetLimits : Type 0 where
  pub max_per_session : ℕ
  pub warn_at : ℕ
  pub max_per_agent : ℕ
  pub max_total_tokens : ℕ
  pub budget_action : Option BudgetAction

pub record BudgetState : Type 0 where
  pub budgets : Option BudgetLimits
  pub budget_warned : Bool

pub record Totals : Type 0 where
  pub cost : ℕ
  pub tokens : ℕ

-- What `checkBudget` ends with: it returns, or it throws one of three errors.
pub data Verdict : Type 0 where
  within over_agent over_session over_tokens : Verdict

-- The two hard limits at the end, which do not depend on the warning.
hard_limits : BudgetLimits → Totals → Verdict
hard_limits l projected =
    if leb l.max_per_session projected.cost
    then over_session
    else if leb l.max_total_tokens projected.tokens
    then over_tokens
    else within

-- The answer, the new state, and whether the user is warned.
check_limits : BudgetLimits → Bool → Totals → Totals → Verdict × Bool × Bool
unfolding hard_limits
check_limits l warned session agent =
    let projected : Totals = record {
      cost = session.cost + agent.cost;
      tokens = session.tokens + agent.tokens;
    } in
    if ltb l.max_per_agent agent.cost
    then (over_agent, warned, false)
    else if not warned && leb l.warn_at projected.cost
    then (hard_limits l projected, true, true)
    else (hard_limits l projected, warned, false)

abbrev with_flag : BudgetState → Verdict × Bool × Bool → Verdict × BudgetState × Bool
with_flag b (v, warned, told) = (v, record b { budget_warned = warned }, told)

check_some : BudgetState → Option BudgetLimits → Totals → Totals → Verdict × BudgetState × Bool
unfolding check_limits
check_some b none session agent = (within, b, false)
check_some b (some l) session agent = with_flag b (check_limits l b.budget_warned session agent)

unfoldable pub check_budget : BudgetState → Totals → Totals → Verdict × BudgetState × Bool
unfolding check_some
check_budget b session agent = check_some b b.budgets session agent

-- `(cost / limit) * 100 >= k`. A limit of 0 gives NaN for no cost, and infinity for any other.
percent_ge : ℕ → ℕ → ℕ → Bool
percent_ge k cost limit = if limit == 0 then ltb 0 cost else leb (k * limit) (100 * cost)

abbrev is_pause : BudgetAction → Bool
is_pause warn = false
is_pause pause = true

-- Whether the session should be paused, the new state, and whether the user is warned.
check_proactive : BudgetState → Option BudgetLimits → ℕ → Bool × BudgetState × Bool
unfolding percent_ge
check_proactive b none cost = (false, b, false)
check_proactive b (some l) cost =
    let told = percent_ge 80 cost l.max_per_session && not b.budget_warned in
    (
      percent_ge 95 cost l.max_per_session && is_pause (or_else l.budget_action pause),
      record b { budget_warned = if told then true else b.budget_warned },
      told,
    )

unfoldable pub check_budget_proactive : BudgetState → ℕ → Bool × BudgetState × Bool
unfolding check_proactive
check_budget_proactive b cost = check_proactive b b.budgets cost

-- A session that several parts of the engine charge and watch, with the warnings that the user got.
pub record Ledger : Type 0 where
  pub budget : BudgetState
  pub totals : Totals
  pub warnings : ℕ
  pub unchecked : Totals  -- what was added without a check

pub data Move : Type 0 where
  charge : Totals → Move  -- `checkBudget`, and the addition where it does not throw
  watch : Move  -- `checkBudgetProactive`
  add : Totals → Move  -- without a check: a review by the lead, or the teams of a parallel step

abbrev pub plus : Totals → Totals → Totals
plus a b = record { cost = a.cost + b.cost; tokens = a.tokens + b.tokens }

abbrev told_once : Bool → ℕ → ℕ
told_once told n = if told then suc n else n

abbrev charged : Verdict → Totals → Totals → Totals
charged within session agent = plus session agent
charged _ session agent = session

unfoldable pub step : Ledger → Move → Ledger
step g (charge agent) =
    let (verdict, budget, told) = check_budget g.budget g.totals agent in
    record {
      budget = budget;
      totals = charged verdict g.totals agent;
      warnings = told_once told g.warnings;
      unchecked = g.unchecked;
    }
step g watch =
    let (_, budget, told) = check_budget_proactive g.budget g.totals.cost in
    record {
      budget = budget;
      totals = g.totals;
      warnings = told_once told g.warnings;
      unchecked = g.unchecked;
    }
step g (add agent) = record g { totals = plus g.totals agent; unchecked = plus g.unchecked agent }

unfoldable pub run : Ledger → List Move → Ledger
run g [] = g
run g (m ∷ ms) = run (step g m) ms
