-- ===== src/Nudge/Tests.antt =====
-- Nudges to a stalled agent at concrete times.
use multi_agent_engine.Common.{false, ℕ, ◌≡◌, refl, true, List, [], ◌∷◌, length, All, arith}
use multi_agent_engine.Nudge.{Attempt, create_nudge_state, execute_nudge, run}
use multi_agent_engine.Nudge.Laws.{Inv, IsPositive, run-create_nudge_state-Inv}

abbrev at_time : ℕ → Attempt
at_time now = record {
  now = now;
  took = 2000;
  is_senior = true;
  has_adapter = true;
  search_finds = true;
  is_sent = true;
}

abbrev attempts : List Attempt
attempts =
    at_time 10000
    ∷ at_time 25000
    ∷ at_time 40000
    ∷ record (at_time 70000) { is_sent = false }
    ∷ at_time 71000
    ∷ at_time 101000
    ∷ at_time 131000
    ∷ []

six_sent : length (run (create_nudge_state, []) attempts).1 ≡ 6
unfolding run execute_nudge
six_sent = refl

positive : All IsPositive attempts
positive = (
  omega arith,
  (omega arith, (omega arith, (omega arith, (omega arith, (omega arith, (omega arith, tt)))))),
)

run-create_nudge_state-Inv_example : let r = run (create_nudge_state, []) attempts in Inv r.0 r.1
run-create_nudge_state-Inv_example = run-create_nudge_state-Inv attempts positive
