-- ===== src/OrchestratorLoop.antt =====
-- The reasoning loop of the orchestrator, engine/orchestrator-loop.ts, as steps between its awaits.
-- The adapter's answers are inputs; prompts, messages and logging are left out.
pub mod Parse
pub mod View
pub mod Laws
pub mod Drain
pub mod Prompts
mod Tests
use multi_agent_engine.Common.{
  ℕ, suc, ◌+◌, ◌-◌, String, Bool, true, false, not, ◌&&◌, ◌||◌, Option, none, some, or_else, List,
  [], ◌∷◌, ◌++◌, ltb, length, str_eq, if◌then◌else◌,
}
use multi_agent_engine.Session.{
  SessionStatus, Status, known, unknown, active, paused, completed, error, transition_status,
}
use multi_agent_engine.Budget.{BudgetState, Totals, Verdict, within, check_budget}
use multi_agent_engine.Chain.Actions.{Action}

pub data Trigger : Type 0 where
  periodic user_message agent_done stall_detected severity_alert budget_warning : Trigger

pub record SessionEvent : Type 0 where
  pub agent_id : String
  pub event_type : String
  pub agent_role : Option String  -- of the event's data
  pub agent_name : Option String

-- Where a cycle is: at the adapter's answer, at the messages after it, with what it cost, or at the
-- last message. `cycleInFlight` is that it is not idle.
pub data Cycle : Type 0 where
  idle reasoning closing : Cycle
  reporting : Totals → Cycle

abbrev pub in_flight : Cycle → Bool
in_flight idle = false
in_flight _ = true

-- A waiter of `stopAndDrain` is a number.
pub record Loop : Type 0 where
  pub timer : Bool
  pub last_cycle_at : ℕ
  pub pending : Option (Trigger × Option String)
  pub cycle : Cycle
  pub recent_events : List SessionEvent
  pub idle_waiters : List ℕ
  pub resolved : List ℕ
  pub spent : Totals
  pub current_step : ℕ
  pub total_steps : ℕ
  pub has_persona : Bool

-- The loop, and what it shares with the rest of the engine; `prompts` counts the calls of the
-- adapter.
pub record World : Type 0 where
  pub loop : Loop
  pub status : Status
  pub totals : Totals
  pub budget : BudgetState
  pub queue : List Action
  pub prompts : ℕ

abbrev is_user_message : Trigger → Bool
is_user_message user_message = true
is_user_message _ = false

should_run_cycle : Status → Trigger → Bool
should_run_cycle (known completed) t = false
should_run_cycle (known error) t = false
should_run_cycle (known paused) t = is_user_message t
should_run_cycle _ t = true

-- The `finally` of a cycle.
settle : World → World
settle w = record w {
  loop = record w.loop {
    cycle = idle;
    resolved = w.loop.resolved ++ w.loop.idle_waiters;
    idle_waiters = [];
  };
}

-- runReasoningCycle up to its first await, or to its end where no persona is loaded.
begin_cycle : ℕ → Trigger → World → World
unfolding should_run_cycle settle
begin_cycle now t w =
    let begun = record w { loop = record w.loop { cycle = reasoning; last_cycle_at = now } } in
    if should_run_cycle w.status t && not (in_flight w.loop.cycle)
    then (if w.loop.has_persona then record begun { prompts = suc w.prompts } else settle begun)
    else w

-- The adapter's answer: an error or the timeout, or actions and what the call cost.
pub data Answer : Type 0 where
  failure : Answer
  actions : List Action → Totals → Answer

receive_at : Cycle → Answer → World → World
unfolding settle
receive_at reasoning failure w = settle w
receive_at reasoning (actions todo cost) w = record w {
  queue = w.queue ++ todo;
  loop = record w.loop { cycle = reporting cost };
}
receive_at _ a w = w

abbrev plus : Totals → Totals → Totals
plus a b = record { cost = a.cost + b.cost; tokens = a.tokens + b.tokens }

-- A charge that passes is added, and one message is left; one that throws ends the cycle.
charge : Verdict → Totals → World → World
unfolding settle
charge within cost w = record w {
  totals = plus w.totals cost;
  loop = record w.loop { spent = plus w.loop.spent cost; cycle = closing };
}
charge _ cost w = settle w

-- The budget, after the messages; `sent` is whether these did not throw.
report_at : Cycle → Bool → World → World
unfolding settle charge
report_at (reporting cost) false w = settle w
report_at (reporting cost) true w =
    let (verdict, budget, _) = check_budget w.budget w.totals cost in
    charge verdict cost (record w { budget = budget })
report_at _ sent w = w

-- The end, whether the last message was sent or threw.
close_at : Cycle → World → World
unfolding settle
close_at closing w = settle w
close_at _ w = w

fire : ℕ → Option (Trigger × Option String) → World → World
unfolding begin_cycle
fire now none w = begin_cycle now periodic w
fire now (some (t, _)) w = begin_cycle now t (record w { loop = record w.loop { pending = none } })

abbrev shift_at : ℕ → List SessionEvent → List SessionEvent
shift_at n [] = []
shift_at n (e ∷ es) = if ltb n (length (e ∷ es)) then es else e ∷ es

-- `stopAndDrain` stops the timer and registers its waiter only where a cycle is in flight.
drain_at : Bool → ℕ → Loop → Loop
drain_at false k l = record l { timer = false; resolved = l.resolved ++ k ∷ [] }
drain_at true k l = record l { timer = false; idle_waiters = l.idle_waiters ++ k ∷ [] }

pub data Op : Type 0 where
  start stop : Op
  tick : ℕ → Op  -- the interval's callback, with the clock
  trigger : ℕ → Trigger → Option String → Op
  handle_user_message : ℕ → Op
  record_event : SessionEvent → Op
  set_current_step : ℕ → ℕ → Op
  stop_and_drain : ℕ → Op
  receive : Answer → Op
  report : Bool → Op
  close : Op
  transition : SessionStatus → Op  -- of the session, by any part of the engine
  spend : Totals → Op

unfoldable pub step : World → Op → World
unfolding begin_cycle receive_at report_at close_at fire drain_at
step w start = record w { loop = record w.loop { timer = true } }
step w stop = record w { loop = record w.loop { timer = false } }
step w (tick now) = let w' = fire now w.loop.pending w in if w.loop.timer then w' else w
step w (trigger now t context) =
    let w' = begin_cycle now t w in
    if ltb (now - w.loop.last_cycle_at) 10000
    then record w { loop = record w.loop { pending = some (t, context) } }
    else w'
step w (handle_user_message now) = begin_cycle now user_message w
step w (record_event e) = record w {
  loop = record w.loop { recent_events = shift_at 50 (w.loop.recent_events ++ e ∷ []) };
}
step w (set_current_step i n) = record w {
  loop = record w.loop { current_step = i; total_steps = n };
}
step w (stop_and_drain k) = record w { loop = drain_at (in_flight w.loop.cycle) k w.loop }
step w (receive a) = receive_at w.loop.cycle a w
step w (report sent) = report_at w.loop.cycle sent w
step w close = close_at w.loop.cycle w
step w (transition s) = record w { status = (transition_status w.status s).0 }
step w (spend cost) = record w { totals = plus w.totals cost }

unfoldable pub run : World → List Op → World
run w [] = w
run w (o ∷ os) = run (step w o) os

-- The constructor, given the number of the chain's steps and whether a persona can be loaded.
unfoldable pub new_world : Option ℕ → ℕ → Bool → Status → Totals → BudgetState → List Action → World
new_world current total has_persona status totals budget queue = record {
  loop = record {
    timer = false;
    last_cycle_at = 0;
    pending = none;
    cycle = idle;
    recent_events = [];
    idle_waiters = [];
    resolved = [];
    spent = record { cost = 0; tokens = 0 };
    current_step = or_else current 0;
    total_steps = total;
    has_persona = has_persona;
  };
  status = status;
  totals = totals;
  budget = budget;
  queue = queue;
  prompts = 0;
}
