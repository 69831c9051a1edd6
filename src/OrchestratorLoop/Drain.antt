-- ===== src/OrchestratorLoop/Drain.antt =====
-- engine/orchestrator-loop.ts: stopAndDrain, and which cycles can follow each other.
use multi_agent_engine.Common.{
  ℕ, ◌-◌, ◌≡◌, refl, ◌⊎◌, inl, inr, Bool, true, false, not, ◌&&◌, String, Option, none, some, List,
  [], ◌∷◌, both_branches, ltb, subst, Memᴰ, mem-append_left, mem-append_right,
}
use mathlib.Core.List.Memᴰ.{head, not-nil}
use multi_agent_engine.Session.{Status}
use multi_agent_engine.Budget.{
  Totals, BudgetState, Verdict, within, over_agent, over_session, over_tokens, check_budget,
}
use multi_agent_engine.Chain.Actions.{Action}
use multi_agent_engine.OrchestratorLoop.{
  Trigger, periodic, user_message, Cycle, idle, reasoning, reporting, closing, in_flight, World,
  should_run_cycle, settle, begin_cycle, Answer, failure, actions, receive_at, charge, report_at,
  fire, drain_at, Op, start, stop, tick, trigger, handle_user_message, record_event,
  set_current_step, stop_and_drain, receive, report, close, close_at, transition, spend, step, run,
  new_world,
}
use multi_agent_engine.OrchestratorLoop.Laws.{Inv, step-Inv, run-Inv', loop-Inv}

-- A waiter that is registered or has been resolved stays so.
Stays : ℕ → World → Type 0
Stays k w = Memᴰ k w.loop.idle_waiters ⊎ Memᴰ k w.loop.resolved

settle-Stays : (k : ℕ) (w : World) → Stays k w → Memᴰ k (settle w).loop.resolved
unfolding settle Stays
settle-Stays k w (inl h) = mem-append_right w.loop.resolved w.loop.idle_waiters h
settle-Stays k w (inr h) = mem-append_left w.loop.resolved w.loop.idle_waiters h

begin_cycle-Stays :
    (k now : ℕ) (t : Trigger) (w : World) → Stays k w → Stays k (begin_cycle now t w)
unfolding begin_cycle Stays
begin_cycle-Stays k now t w h =
    let begun : World = record w {
      loop = record w.loop { cycle = reasoning; last_cycle_at = now };
    } in
    both_branches (Stays k) (should_run_cycle w.status t && not (in_flight w.loop.cycle))
      (both_branches (Stays k) w.loop.has_persona h (inr (settle-Stays k begun h))) h

receive_at-Stays :
    (k : ℕ) (c : Cycle) (a : Answer) (w : World) → Stays k w → Stays k (receive_at c a w)
unfolding receive_at Stays
receive_at-Stays k idle a w h = h
receive_at-Stays k reasoning failure w h = inr (settle-Stays k w h)
receive_at-Stays k reasoning (actions todo cost) w h = h
receive_at-Stays k (reporting cost) a w h = h
receive_at-Stays k closing a w h = h

charge-Stays :
    (k : ℕ) (v : Verdict) (cost : Totals) (w : World) → Stays k w → Stays k (charge v cost w)
unfolding charge Stays
charge-Stays k within cost w h = h
charge-Stays k over_agent cost w h = inr (settle-Stays k w h)
charge-Stays k over_session cost w h = inr (settle-Stays k w h)
charge-Stays k over_tokens cost w h = inr (settle-Stays k w h)

close_at-Stays : (k : ℕ) (c : Cycle) (w : World) → Stays k w → Stays k (close_at c w)
unfolding close_at Stays
close_at-Stays k closing w h = inr (settle-Stays k w h)
close_at-Stays k idle w h = h
close_at-Stays k reasoning w h = h
close_at-Stays k (reporting cost) w h = h

report_at-Stays :
    (k : ℕ) (c : Cycle) (sent : Bool) (w : World) → Stays k w → Stays k (report_at c sent w)
unfolding report_at Stays
report_at-Stays k closing sent w h = h
report_at-Stays k idle sent w h = h
report_at-Stays k reasoning sent w h = h
report_at-Stays k (reporting cost) false w h = inr (settle-Stays k w h)
report_at-Stays k (reporting cost) true w h =
    let r = check_budget w.budget w.totals cost in
    charge-Stays k r.0 cost (record w { budget = r.1 }) h

fire-Stays :
    (k now : ℕ) (p : Option (Trigger × Option String)) (w : World)
    → Stays k w
    → Stays k (fire now p w)
unfolding fire Stays
fire-Stays k now none w h = begin_cycle-Stays k now periodic w h
fire-Stays k now (some (t, x)) w h =
    begin_cycle-Stays k now t (record w { loop = record w.loop { pending = none } }) h

drain_at-Stays :
    (k j : ℕ) (b : Bool) (w : World) → Stays k w → Stays k (record w { loop = drain_at b j w.loop })
unfolding drain_at Stays
drain_at-Stays k j false w (inl h) = inl h
drain_at-Stays k j false w (inr h) = inr (mem-append_left w.loop.resolved (j ∷ []) h)
drain_at-Stays k j true w (inl h) = inl (mem-append_left w.loop.idle_waiters (j ∷ []) h)
drain_at-Stays k j true w (inr h) = inr h

drain_at-here : (k : ℕ) (b : Bool) (w : World) → Stays k (record w { loop = drain_at b k w.loop })
unfolding drain_at Stays
drain_at-here k false w = inr (mem-append_right w.loop.resolved (k ∷ []) (head refl))
drain_at-here k true w = inl (mem-append_right w.loop.idle_waiters (k ∷ []) (head refl))

step-Stays : (k : ℕ) (w : World) (o : Op) → Stays k w → Stays k (step w o)
unfolding step Stays
step-Stays k w start h = h
step-Stays k w stop h = h
step-Stays k w (tick now) h =
    both_branches (Stays k) w.loop.timer (fire-Stays k now w.loop.pending w h) h
step-Stays k w (trigger now t context) h =
    both_branches (Stays k) (ltb (now - w.loop.last_cycle_at) 10000) h
      (begin_cycle-Stays k now t w h)
step-Stays k w (handle_user_message now) h = begin_cycle-Stays k now user_message w h
step-Stays k w (record_event e) h = h
step-Stays k w (set_current_step i n) h = h
step-Stays k w (stop_and_drain j) h = drain_at-Stays k j (in_flight w.loop.cycle) w h
step-Stays k w (receive a) h = receive_at-Stays k w.loop.cycle a w h
step-Stays k w (report sent) h = report_at-Stays k w.loop.cycle sent w h
step-Stays k w close h = close_at-Stays k w.loop.cycle w h
step-Stays k w (transition s) h = h
step-Stays k w (spend cost) h = h

run-Stays : (k : ℕ) (w : World) (os : List Op) → Stays k w → Stays k (run w os)
unfolding run
run-Stays k w [] h = h
run-Stays k w (o ∷ os) h = run-Stays k (step w o) os (step-Stays k w o h)

drained :
    (k : ℕ) (w : World) (os : List Op)
    → Inv w
    → (run w (stop_and_drain k ∷ os)).loop.cycle ≡ idle
    → Memᴰ k (run w (stop_and_drain k ∷ os)).loop.resolved
unfolding run step Stays
drained k w os v idle_now =
    let w' = step w (stop_and_drain k) in
    elim (run-Stays k w' os (drain_at-here k (in_flight w.loop.cycle) w)) [
      | inl h ↦ absurd (
          not-nil (
            subst (λ ks. Memᴰ k ks)
              ((run-Inv' w' os (step-Inv w (stop_and_drain k) v)).nobody_waits idle_now) h))
      | inr h ↦ h
    ]

-- Whoever calls stopAndDrain, in any state that a new loop reaches, has been released as soon as no
-- cycle is in flight, whatever happens in between: errors and timeouts of the adapter, failing
-- messages, an exhausted budget, other waiters and new cycles.
pub stop_and_drain-resolved :
    (current : Option ℕ) (total : ℕ) (has_persona : Bool) (status : Status) (totals : Totals)
    (budget : BudgetState) (queue : List Action) (before after : List Op) (k : ℕ)
    → let w = run (new_world current total has_persona status totals budget queue) before in
      (run w (stop_and_drain k ∷ after)).loop.cycle ≡ idle
      → Memᴰ k (run w (stop_and_drain k ∷ after)).loop.resolved
stop_and_drain-resolved current total has_persona status totals budget queue before after k e =
    drained k (run (new_world current total has_persona status totals budget queue) before) after
      (loop-Inv current total has_persona status totals budget queue before) e
