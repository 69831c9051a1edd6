-- ===== src/Team/Reviews/Cases.antt =====
-- The two ways in which a check of the session and a charge of engine/team-execution.ts end.
use multi_agent_engine.Common.{ℕ, Bool, both_branches}
use multi_agent_engine.Budget.{
  BudgetState, Verdict, within, over_agent, over_session, over_tokens, check_budget,
}
use multi_agent_engine.Team.Data.{Outcome, done, threw}
use multi_agent_engine.Team.Reviews.Parts.{
  Env, State, tick, add_totals, assert_active, settle_charge, charge,
}

pub assert_active-cases {ℓ} :
    (env : Env) (s : State) (Q : Outcome State → Type ℓ)
    → Q (done (tick s))
    → Q (threw (tick s))
    → Q (assert_active env s)
unfolding assert_active
assert_active-cases env s Q hd ht = both_branches Q (env.stopped s.ticks) ht hd

settle_charge-cases {ℓ} :
    (v : Verdict × BudgetState × Bool) (c t : ℕ) (s : State) (Q : Outcome State → Type ℓ)
    → ((b : BudgetState) → Q (done (record s { budget = b; session = add_totals s.session c t })))
    → ((b : BudgetState) → Q (threw (record s { budget = b })))
    → Q (settle_charge v c t s)
unfolding settle_charge
settle_charge-cases (within, b, told) c t s Q hd ht = hd b
settle_charge-cases (over_agent, b, told) c t s Q hd ht = ht b
settle_charge-cases (over_session, b, told) c t s Q hd ht = ht b
settle_charge-cases (over_tokens, b, told) c t s Q hd ht = ht b

pub charge-cases {ℓ} :
    (c t : ℕ) (s : State) (Q : Outcome State → Type ℓ)
    → ((b : BudgetState) → Q (done (record s { budget = b; session = add_totals s.session c t })))
    → ((b : BudgetState) → Q (threw (record s { budget = b })))
    → Q (charge c t s)
unfolding charge
charge-cases c t s Q hd ht =
    settle_charge-cases (check_budget s.budget s.session (record { cost = c; tokens = t })) c t s Q
      hd ht
