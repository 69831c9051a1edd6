-- ===== src/OrchestratorLoop/Laws.antt =====
-- engine/orchestrator-loop.ts: when a cycle starts, and what every sequence of steps keeps.
use multi_agent_engine.Common.{
  ℕ, suc, ◌-◌, ◌≤◌, ◌≡◌, ◌≢◌, refl, ◌∙◌, Bool, true, false, not, ◌&&◌, String, Option, none, some,
  List, [], ◌∷◌, ◌++◌, both_branches, length, length-append, ltb, arith, sym,
}
use multi_agent_engine.Session.{Status}
use multi_agent_engine.Budget.{
  Totals, Verdict, within, over_agent, over_session, over_tokens, check_budget, BudgetState,
}
use multi_agent_engine.OrchestratorLoop.{
  Trigger, periodic, user_message, Cycle, idle, reasoning, reporting, closing, in_flight, World,
  should_run_cycle, settle, begin_cycle, Answer, failure, actions, receive_at, charge, report_at,
  fire, shift_at, drain_at, Op, start, stop, tick, trigger, handle_user_message, record_event,
  set_current_step, stop_and_drain, receive, report, close, close_at, transition, spend, step, run,
  new_world, SessionEvent,
}
use multi_agent_engine.Chain.Actions.{Action}

-- While no cycle is in flight, nobody waits; at most 50 events are kept; and what the loop has
-- spent is part of what the session has.
pub record Inv (w : World) : Type 0 where
  pub nobody_waits : w.loop.cycle ≡ idle → w.loop.idle_waiters ≡ []
  pub few_events : length w.loop.recent_events ≤ 50
  pub cost_counted : w.loop.spent.cost ≤ w.totals.cost
  pub tokens_counted : w.loop.spent.tokens ≤ w.totals.tokens

settle-Inv : (w : World) → Inv w → Inv (settle w)
unfolding settle
settle-Inv w v = record {
  nobody_waits = λ h. refl;
  few_events = v.few_events;
  cost_counted = v.cost_counted;
  tokens_counted = v.tokens_counted;
}

-- A change of the loop's cycle to a running one.
running-Inv :
    (w w' : World)
    → Inv w
    → w'.loop.cycle ≢ idle
    → w'.loop.recent_events ≡ w.loop.recent_events
    → w'.loop.spent ≡ w.loop.spent
    → w'.totals ≡ w.totals
    → Inv w'
running-Inv w w' v c e s t = record {
  nobody_waits = λ h. absurd (c h);
  few_events = rw e v.few_events;
  cost_counted = rw (s, t) v.cost_counted;
  tokens_counted = rw (s, t) v.tokens_counted;
}

reasoning_runs : reasoning ≢ idle
reasoning_runs h = cc h

reporting_runs : (c : Totals) → reporting c ≢ idle
reporting_runs c h = cc h

closing_runs : closing ≢ idle
closing_runs h = cc h

begin_cycle-Inv : (now : ℕ) (t : Trigger) (w : World) → Inv w → Inv (begin_cycle now t w)
unfolding begin_cycle
begin_cycle-Inv now t w v =
    let begun : World = record w {
      loop = record w.loop { cycle = reasoning; last_cycle_at = now };
    } in
    let v' : Inv begun = running-Inv w begun v reasoning_runs refl refl refl in
    both_branches Inv (should_run_cycle w.status t && not (in_flight w.loop.cycle))
      (both_branches Inv w.loop.has_persona
        (running-Inv begun (record begun { prompts = suc w.prompts }) v' reasoning_runs refl refl
          refl)
        (settle-Inv begun v'))
      v

receive_at-Inv : (c : Cycle) (a : Answer) (w : World) → Inv w → Inv (receive_at c a w)
unfolding receive_at
receive_at-Inv idle a w v = v
receive_at-Inv reasoning failure w v = settle-Inv w v
receive_at-Inv reasoning (actions todo cost) w v =
    running-Inv w _ v (reporting_runs cost) refl refl refl
receive_at-Inv (reporting cost) a w v = v
receive_at-Inv closing a w v = v

charge-Inv : (verdict : Verdict) (cost : Totals) (w : World) → Inv w → Inv (charge verdict cost w)
unfolding charge
charge-Inv within cost w v = record {
  nobody_waits = λ h. absurd (closing_runs h);
  few_events = v.few_events;
  cost_counted = omega (arith, v.cost_counted);
  tokens_counted = omega (arith, v.tokens_counted);
}
charge-Inv over_agent cost w v = settle-Inv w v
charge-Inv over_session cost w v = settle-Inv w v
charge-Inv over_tokens cost w v = settle-Inv w v

report_at-Inv : (c : Cycle) (sent : Bool) (w : World) → Inv w → Inv (report_at c sent w)
unfolding report_at
report_at-Inv idle sent w v = v
report_at-Inv reasoning sent w v = v
report_at-Inv (reporting cost) false w v = settle-Inv w v
report_at-Inv closing sent w v = v
report_at-Inv (reporting cost) true w v =
    let r = check_budget w.budget w.totals cost in
    charge-Inv r.0 cost (record w { budget = r.1 })
      (record {
        nobody_waits = v.nobody_waits;
        few_events = v.few_events;
        cost_counted = v.cost_counted;
        tokens_counted = v.tokens_counted;
      })

close_at-Inv : (c : Cycle) (w : World) → Inv w → Inv (close_at c w)
unfolding close_at
close_at-Inv closing w v = settle-Inv w v
close_at-Inv idle w v = v
close_at-Inv reasoning w v = v
close_at-Inv (reporting cost) w v = v

-- A change of the loop that keeps its cycle, its waiters, its events and what it has spent.
quiet-Inv :
    (w w' : World)
    → Inv w
    → w'.loop.cycle ≡ w.loop.cycle
    → w'.loop.idle_waiters ≡ w.loop.idle_waiters
    → w'.loop.recent_events ≡ w.loop.recent_events
    → w'.loop.spent ≡ w.loop.spent
    → w'.totals ≡ w.totals
    → Inv w'
quiet-Inv w w' v c i e s t = record {
  nobody_waits = λ h. i ∙ v.nobody_waits (sym c ∙ h);
  few_events = rw e v.few_events;
  cost_counted = rw (s, t) v.cost_counted;
  tokens_counted = rw (s, t) v.tokens_counted;
}

fire-Inv : (now : ℕ) (p : Option (Trigger × Option String)) (w : World) → Inv w → Inv (fire now p w)
unfolding fire
fire-Inv now none w v = begin_cycle-Inv now periodic w v
fire-Inv now (some (t, x)) w v =
    let w' : World = record w { loop = record w.loop { pending = none } } in
    begin_cycle-Inv now t w' (quiet-Inv w w' v refl refl refl refl refl)

length-shift_at : (es : List SessionEvent) → length es ≤ 51 → length (shift_at 50 es) ≤ 50
length-shift_at [] h = omega arith
length-shift_at (e ∷ es) h = ground arith

drain_at-Inv :
    (c : Cycle) (k : ℕ) (w : World)
    → w.loop.cycle ≡ c
    → Inv w
    → Inv (record w { loop = drain_at (in_flight c) k w.loop })
unfolding drain_at
drain_at-Inv idle k w e v = quiet-Inv w _ v refl refl refl refl refl
drain_at-Inv reasoning k w e v = running-Inv w _ v (λ h. reasoning_runs (sym e ∙ h)) refl refl refl
drain_at-Inv closing k w e v = running-Inv w _ v (λ h. closing_runs (sym e ∙ h)) refl refl refl
drain_at-Inv (reporting cost) k w e v =
    running-Inv w _ v (λ h. reporting_runs cost (sym e ∙ h)) refl refl refl

pub step-Inv : (w : World) (o : Op) → Inv w → Inv (step w o)
unfolding step
step-Inv w start v = quiet-Inv w _ v refl refl refl refl refl
step-Inv w stop v = quiet-Inv w _ v refl refl refl refl refl
step-Inv w (tick now) v = both_branches Inv w.loop.timer (fire-Inv now w.loop.pending w v) v
step-Inv w (trigger now t context) v =
    both_branches Inv (ltb (now - w.loop.last_cycle_at) 10000)
      (quiet-Inv w (record w { loop = record w.loop { pending = some (t, context) } }) v refl refl
        refl refl refl)
      (begin_cycle-Inv now t w v)
step-Inv w (handle_user_message now) v = begin_cycle-Inv now user_message w v
step-Inv w (record_event e) v = record {
  nobody_waits = v.nobody_waits;
  few_events =
      length-shift_at (w.loop.recent_events ++ e ∷ [])
        (omega (arith, length-append w.loop.recent_events (e ∷ []), v.few_events));
  cost_counted = v.cost_counted;
  tokens_counted = v.tokens_counted;
}
step-Inv w (set_current_step i n) v = quiet-Inv w _ v refl refl refl refl refl
step-Inv w (stop_and_drain k) v = drain_at-Inv w.loop.cycle k w refl v
step-Inv w (receive a) v = receive_at-Inv w.loop.cycle a w v
step-Inv w (report sent) v = report_at-Inv w.loop.cycle sent w v
step-Inv w close v = close_at-Inv w.loop.cycle w v
step-Inv w (transition s) v = quiet-Inv w _ v refl refl refl refl refl
step-Inv w (spend cost) v = record {
  nobody_waits = v.nobody_waits;
  few_events = v.few_events;
  cost_counted = omega (arith, v.cost_counted);
  tokens_counted = omega (arith, v.tokens_counted);
}

pub run-Inv' : (w : World) (os : List Op) → Inv w → Inv (run w os)
unfolding run
run-Inv' w [] v = v
run-Inv' w (o ∷ os) v = run-Inv' (step w o) os (step-Inv w o v)

-- Over any steps of a new loop and of the engine around it, in any order: nobody who stopped the
-- loop is left waiting once no cycle is in flight, at most 50 events are kept, and the cost and the
-- tokens that the loop has spent are part of the session's.
pub loop-Inv :
    (current : Option ℕ) (total : ℕ) (has_persona : Bool) (status : Status) (totals : Totals)
    (budget : BudgetState) (queue : List Action) (os : List Op)
    → Inv (run (new_world current total has_persona status totals budget queue) os)
unfolding new_world
loop-Inv current total has_persona status totals budget queue os =
    run-Inv' (new_world current total has_persona status totals budget queue) os (record {
      nobody_waits = λ h. refl;
      few_events = omega arith;
      cost_counted = omega arith;
      tokens_counted = omega arith;
    })
