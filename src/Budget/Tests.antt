-- ===== src/Budget/Tests.antt =====
-- A session with a budget, and its laws at concrete charges.
use multi_agent_engine.Common.{◌≡◌, refl, false, some, none, List, [], ◌∷◌, arith}
use multi_agent_engine.Budget.{
  BudgetLimits, BudgetState, Totals, Move, charge, watch, add, check_budget, check_budget_proactive,
  run, step,
}
use multi_agent_engine.Budget.Laws.{Inv, ledger, nothing, run-within}

abbrev limits : BudgetLimits
limits = record {
  max_per_session = 50;
  warn_at = 40;
  max_per_agent = 20;
  max_total_tokens = 1000;
  budget_action = none;
}

abbrev cheap : Totals
cheap = record { cost = 18; tokens = 100 }

abbrev moves : List Move
moves = charge cheap ∷ add cheap ∷ watch ∷ charge cheap ∷ watch ∷ []

third_refused : (run (ledger limits false nothing 0 nothing) moves).totals.cost ≡ 36
unfolding run step check_budget check_budget_proactive
third_refused = refl

run-within_example : Inv limits (run (ledger limits false nothing 0 nothing) moves)
run-within_example = run-within limits moves (omega arith) (omega arith) (omega arith)

abbrev unwarned : BudgetState
unwarned = record { budgets = some limits; budget_warned = false }
