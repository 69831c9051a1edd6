-- ===== src/Monitor.antt =====
-- The monitor of the agents' activity: engine/active-monitor.ts with engine/monitoring.ts. The answer of
-- checkBudgetProactive is an input of a tick. A nudge starts in a tick and takes effect where it
-- settles; its state is an object, in the order of creation.
pub mod Laws
mod Tests
use multi_agent_engine.Common.{
  ℕ, zero, suc, ◌+◌, ◌-◌, ◌/◌, ◌%◌, Bool, true, false, not, ◌&&◌, Option, none, some, List, [], ◌∷◌,
  ◌++◌, any, length, ltb, leb, ◌==◌, if◌then◌else◌,
}
use multi_agent_engine.Pipeline.{Text}
use multi_agent_engine.SpawnDecision.Paths.{text_eq}
use multi_agent_engine.Nudge.{NudgeState, Attempt, create_nudge_state, execute_nudge}

pub record AgentActivity : Type 0 where
  pub name : Text
  pub role : Text
  pub last_event_at : ℕ
  pub tool_calls : ℕ
  pub last_tool : Text
  pub warned : Bool

-- A nudge that was started: the object of its state, and whether it needs a model.
pub record NudgeCall : Type 0 where
  pub object : ℕ
  pub needs_llm : Bool

pub data Report : Type 0 where
  heartbeat : Text → Bool → Report
  stall_detected : Text → ℕ → Report
  auto_pause : Report

pub record Monitor : Type 0 where
  pub agents : List (Text × AgentActivity)
  pub nudge_states : List (Text × ℕ)
  pub objects : List NudgeState
  pub in_flight : List NudgeCall
  pub llm_nudge_in_flight : Bool
  pub auto_pause_fired : Bool
  pub ticks : ℕ
  pub reports : List Report  -- the newest first

abbrev pub new_monitor : Monitor
new_monitor = record {
  agents = [];
  nudge_states = [];
  objects = [];
  in_flight = [];
  llm_nudge_in_flight = false;
  auto_pause_fired = false;
  ticks = 0;
  reports = [];
}

abbrev pub idle_warn_ms : ℕ
idle_warn_ms = 180000

-- `get`, `set` and `delete` of a map by text.
abbrev pub lookup {ℓ} : {A : Type ℓ} → Text → List (Text × A) → Option A
lookup k [] = none
lookup k ((i, a) ∷ xs) = let rest = lookup k xs in if text_eq i k then some a else rest

abbrev pub set_key {ℓ} : {A : Type ℓ} → Text → A → List (Text × A) → List (Text × A)
set_key k a [] = (k, a) ∷ []
set_key k a ((i, b) ∷ xs) =
    let rest = set_key k a xs in if text_eq i k then (i, a) ∷ xs else (i, b) ∷ rest

abbrev pub delete_key {ℓ} : {A : Type ℓ} → Text → List (Text × A) → List (Text × A)
delete_key k [] = []
delete_key k ((i, a) ∷ xs) =
    let rest = delete_key k xs in if text_eq i k then rest else (i, a) ∷ rest

abbrev object_at : ℕ → List NudgeState → NudgeState
object_at i [] = create_nudge_state
object_at zero (s ∷ ss) = s
object_at (suc i) (s ∷ ss) = object_at i ss

abbrev update_at : ℕ → NudgeState → List NudgeState → List NudgeState
update_at i s [] = []
update_at zero s (x ∷ xs) = s ∷ xs
update_at (suc i) s (x ∷ xs) = x ∷ update_at i s xs

abbrev pub report : Report → Monitor → Monitor
report r m = record m { reports = r ∷ m.reports }

-- The nudge of an agent starts, with the object of its state.
unfoldable pub start_nudge : ℕ → Monitor → Monitor
start_nudge i m =
    let needs = leb 3 (object_at i m.objects).nudge_count in
    record m {
      in_flight = record { object = i; needs_llm = needs } ∷ m.in_flight;
      llm_nudge_in_flight = if needs then true else m.llm_nudge_in_flight;
    }

unfoldable pub trigger_nudge : Text → Monitor → Monitor
unfolding start_nudge
trigger_nudge id m = elim (lookup id m.nudge_states) [
  | some i ↦ start_nudge i m
  | none ↦ start_nudge (length m.objects) record m {
    nudge_states = set_key id (length m.objects) m.nudge_states;
    objects = m.objects ++ create_nudge_state ∷ [];
  }
]

abbrev pub nudge_if_free : Text → Monitor → Monitor
nudge_if_free id m = if m.llm_nudge_in_flight then m else trigger_nudge id m

abbrev pub warn_if_new : Text → AgentActivity → ℕ → Monitor → Monitor
warn_if_new id a idle m = if a.warned then m else report (stall_detected id ((idle + 500) / 1000)) m

abbrev pub beat : Bool → Text → ℕ → Monitor → Monitor
beat is_heartbeat id idle m =
    if is_heartbeat then report (heartbeat id (ltb idle_warn_ms idle)) m else m

abbrev pub settled_warning : ℕ → AgentActivity → AgentActivity
settled_warning now a = record a { warned = ltb idle_warn_ms (now - a.last_event_at) }

-- The body of the loop over the agents.
unfoldable pub check_agent : ℕ → Bool → Text → AgentActivity → Monitor → Monitor
unfolding trigger_nudge
check_agent now is_heartbeat id a m =
    let idle = now - a.last_event_at in
    let m1 = beat is_heartbeat id idle m in
    if leb idle idle_warn_ms
    then record m1 { nudge_states = delete_key id m1.nudge_states }
    else nudge_if_free id (warn_if_new id a idle m1)

unfoldable pub check_agents : ℕ → Bool → List (Text × AgentActivity) → Monitor → Monitor
unfolding check_agent
check_agents now is_heartbeat [] m = m
check_agents now is_heartbeat ((id, a) ∷ rest) m =
    check_agents now is_heartbeat rest (check_agent now is_heartbeat id a m)

abbrev pub all_settled : ℕ → List (Text × AgentActivity) → List (Text × AgentActivity)
all_settled now [] = []
all_settled now ((id, a) ∷ rest) = (id, settled_warning now a) ∷ all_settled now rest

unfoldable pub check_stalls : ℕ → Monitor → Monitor
unfolding check_agents
check_stalls now m =
    let m1 = check_agents now (m.ticks % 2 == 0) m.agents m in
    record m1 { agents = all_settled now m1.agents }

unfoldable pub check_budget_projection : Bool → Monitor → Monitor
check_budget_projection should_pause m =
    if m.auto_pause_fired
    then m
    else if should_pause
    then report auto_pause (record m { auto_pause_fired = true })
    else m

unfoldable pub on_tick : ℕ → Bool → Monitor → Monitor
unfolding check_stalls check_budget_projection
on_tick now should_pause m =
    check_budget_projection should_pause (check_stalls now (record m { ticks = suc m.ticks }))

unfoldable pub track_tool_call :
    Text → Text → ℕ → List (Text × AgentActivity) → List (Text × AgentActivity)
track_tool_call id tool now agents = elim (lookup id agents) [
  | none ↦ agents
  | some a ↦
      set_key id
        record a {
          last_event_at = now;
          tool_calls = suc a.tool_calls;
          last_tool = tool;
          warned = false;
        }
        agents
]

abbrev without : ℕ → List NudgeCall → List NudgeCall
without i [] = []
without zero (c ∷ cs) = cs
without (suc i) (c ∷ cs) = c ∷ without i cs

abbrev call_at : ℕ → List NudgeCall → Option NudgeCall
call_at i [] = none
call_at zero (c ∷ cs) = some c
call_at (suc i) (c ∷ cs) = call_at i cs

-- The i-th nudge in flight settles, with what it did.
unfoldable pub settle : ℕ → Attempt → Monitor → Monitor
settle i a m = elim (call_at i m.in_flight) [
  | none ↦ m
  | some c ↦ record m {
    objects = update_at c.object (execute_nudge (object_at c.object m.objects) a).0 m.objects;
    in_flight = without i m.in_flight;
    llm_nudge_in_flight = if c.needs_llm then false else m.llm_nudge_in_flight;
  }
]

pub data Event : Type 0 where
  tick : ℕ → Bool → Event
  track : Text → Text → Text → ℕ → Event
  untrack : Text → Event
  tool_call : Text → Text → ℕ → Event
  settles : ℕ → Attempt → Event
  stop : Event

abbrev tracked : Text → Text → ℕ → AgentActivity
tracked name role now = record {
  name = name;
  role = role;
  last_event_at = now;
  tool_calls = 0;
  last_tool = [];
  warned = false;
}

unfoldable pub step : Event → Monitor → Monitor
unfolding on_tick track_tool_call settle
step (tick now should_pause) m = on_tick now should_pause m
step (track id name role now) m = record m { agents = set_key id (tracked name role now) m.agents }
step (untrack id) m = record m { agents = delete_key id m.agents }
step (tool_call id tool now) m = record m { agents = track_tool_call id tool now m.agents }
step (settles i a) m = settle i a m
step stop m = record m { agents = []; nudge_states = [] }

unfoldable pub run : List Event → Monitor → Monitor
unfolding step
run [] m = m
run (e ∷ es) m = run es (step e m)
