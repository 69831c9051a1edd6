-- ===== src/Monitor/Tests.antt =====
-- An agent that stalls, is reminded, and works again; and a session that is paused once.
use multi_agent_engine.Common.{◌≡◌, ◌≤◌, refl, true, false, List, [], ◌∷◌}
use multi_agent_engine.Team.Names.{codes}
use multi_agent_engine.Nudge.{Attempt}
use multi_agent_engine.Monitor.{
  Event, tick, track, tool_call, settles, heartbeat, stall_detected, auto_pause, new_monitor, run,
  step, on_tick, check_stalls, check_agents, check_agent, trigger_nudge, start_nudge,
  check_budget_projection, settle, track_tool_call,
}
use multi_agent_engine.Monitor.Laws.{llm_calls, pauses, run-new_monitor-Inv}

abbrev attempt : Attempt
attempt = record {
  now = 200000;
  took = 0;
  is_senior = false;
  has_adapter = false;
  search_finds = false;
  is_sent = true;
}

abbrev day : List Event
day =
    track (codes "a") (codes "A") (codes "worker") 1000
    ∷ tick 201000 true
    ∷ settles 0 attempt
    ∷ tool_call (codes "a") (codes "read") 210000
    ∷ tick 216000 true
    ∷ []

-- The beat of the second tick, the pause, and the stall, the newest first.
reported :
    (run day new_monitor).reports
    ≡ heartbeat (codes "a") false ∷ auto_pause ∷ stall_detected (codes "a") 200 ∷ []
unfolding run step on_tick check_stalls check_agents check_agent trigger_nudge start_nudge
    check_budget_projection settle track_tool_call
reported = refl

run-new_monitor-Inv_example :
    let m = run day new_monitor in (llm_calls m.in_flight ≤ 1) × (pauses m.reports ≤ 1)
run-new_monitor-Inv_example = run-new_monitor-Inv day
