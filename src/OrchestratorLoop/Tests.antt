-- ===== src/OrchestratorLoop/Tests.antt =====
-- A session with its reasoning loop, and the loop's laws at concrete steps.
use multi_agent_engine.Common.{
  ◌<◌, ◌≡◌, ◌⊎◌, inl, refl, String, true, false, Option, some, none, List, [], ◌∷◌, length, Memᴰ,
}
use multi_agent_engine.Session.{known, active, completed}
use multi_agent_engine.Budget.{Totals, BudgetState, check_budget}
use multi_agent_engine.Pipeline.{Text}
use multi_agent_engine.Chain.Actions.{Action, continue, spawn_team}
use multi_agent_engine.OrchestratorLoop.{
  World, Op, start, tick, trigger, agent_done, stop_and_drain, receive, report, close, transition,
  handle_user_message, SessionEvent, actions, step, run, new_world, idle,
}
use multi_agent_engine.OrchestratorLoop.Laws.{Inv, loop-Inv}
use multi_agent_engine.OrchestratorLoop.Drain.{stop_and_drain-resolved}
use multi_agent_engine.OrchestratorLoop.Prompts.{run-ended}
use multi_agent_engine.OrchestratorLoop.Parse.{
  text, is_spawn_team, is_reassign, RawAction, typed, Reply, parse_actions, validate,
}
use multi_agent_engine.OrchestratorLoop.Parse.Laws.{Source, Asks, elements, parse_actions-Source}

abbrev nothing_spent : Totals
nothing_spent = record { cost = 0; tokens = 0 }

abbrev answer_cost : Totals
answer_cost = record { cost = 2; tokens = 30 }

abbrev unlimited : BudgetState
unlimited = record { budgets = none; budget_warned = false }

-- A cycle is under way, a trigger waits for the next tick.
abbrev before : List Op
before = start ∷ tick 20000 ∷ trigger 25000 agent_done none ∷ []

abbrev after : List Op
after = receive (actions (continue ∷ []) answer_cost) ∷ report true ∷ close ∷ []

abbrev in_cycle : World
in_cycle = run (new_world none 3 true (known active) nothing_spent unlimited []) before

loop-Inv_example : Inv in_cycle
loop-Inv_example = loop-Inv none 3 true (known active) nothing_spent unlimited [] before

charged : (run in_cycle after).loop.spent.cost ≡ 2
unfolding run step new_world check_budget
charged = refl

idle_again : (run in_cycle (stop_and_drain 9 ∷ after)).loop.cycle ≡ idle
unfolding run step new_world check_budget
idle_again = refl

stop_and_drain-resolved_example : Memᴰ 9 (run in_cycle (stop_and_drain 9 ∷ after)).loop.resolved
stop_and_drain-resolved_example =
    stop_and_drain-resolved none 3 true (known active) nothing_spent unlimited [] before after 9
      idle_again

abbrev finished : World
finished = new_world none 3 true (known completed) nothing_spent unlimited []

finished_status : finished.status ≡ known completed
unfolding new_world
finished_status = refl

run-ended_example :
    ((run finished (handle_user_message 5 ∷ transition active ∷ [])).status ≡ finished.status)
    × ((run finished (handle_user_message 5 ∷ transition active ∷ [])).prompts ≡ finished.prompts)
run-ended_example =
    run-ended finished (handle_user_message 5 ∷ transition active ∷ []) (inl finished_status)

abbrev events : List SessionEvent
events =
    record {
      agent_id = "lead-1";
      event_type = "agent_spawn";
      agent_role = some "lead";
      agent_name = some "Planner";
    }
    ∷ record {
      agent_id = "lead-2";
      event_type = "agent_done";
      agent_role = none;
      agent_name = none;
    }
    ∷ []

abbrev no_units : String → Text
no_units s = []

abbrev raw : List RawAction
raw =
    typed is_spawn_team (some (text "late")) none none (some (text "docs")) (some (text "write"))
      none
    ∷ typed is_reassign (some (text "no index")) none (some (text "docs")) none none none
    ∷ []

abbrev reply : Option Reply
reply = some (record { assessment = none; actions = some raw; reply = none })

one_accepted : (parse_actions no_units reply).actions ≡ spawn_team "docs" ∷ []
unfolding parse_actions validate
one_accepted = refl

parse_actions-Source_example :
    (0 < length (parse_actions no_units reply).actions)
    × ((a : Action)
        → Memᴰ a (parse_actions no_units reply).actions
        → (a ≡ continue) ⊎ Source no_units (elements reply) a)
    × ((s : RawAction) (a : Action)
        → Memᴰ s (elements reply)
        → Asks no_units s a
        → Memᴰ a (parse_actions no_units reply).actions)
parse_actions-Source_example = parse_actions-Source no_units reply
