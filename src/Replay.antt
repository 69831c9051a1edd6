-- ===== src/Replay.antt =====
-- engine/replay.ts: the trace of a session and its behavioural fingerprint. The lines of a trace that are
-- not JSON were left out before; times are left out.
pub mod Compare
pub mod Score
pub mod Golden
pub mod Tests
use multi_agent_engine.Common.{
  ℕ, zero, suc, ◌+◌, String, Bool, true, false, ◌&&◌, ◌||◌, Option, none, some, or_else, List, [],
  ◌∷◌, ◌++◌, any, str_eq, if◌then◌else◌,
}
use multi_agent_engine.Pipeline.{Text}
use multi_agent_engine.SpawnDecision.Paths.{text_eq}
use multi_agent_engine.Team.Names.{codes}

pub record TraceEvent : Type 0 where
  pub type : String
  pub id : Text
  pub step : Option Text
  pub tool : Option Text
  pub team : Option Text
  pub status : Option Text
  pub level : Option String
  pub goal : Option Text
  pub task_preview : Option Text
  pub chain : Option Text
  pub total_cost : Option ℕ

pub record SessionTrace : Type 0 where
  pub session_id : Text
  pub goal : Text
  pub chain : Text
  pub status : Text
  pub events : List TraceEvent
  pub total_cost : Option ℕ

abbrev pub is_type : String → TraceEvent → Bool
is_type t e = str_eq e.type t

-- `find`
abbrev pub find_first {ℓ} : {A : Type ℓ} → (A → Bool) → List A → Option A
find_first p [] = none
find_first p (x ∷ xs) = let rest = find_first p xs in if p x then some x else rest

abbrev field {ℓ} : {A : Type ℓ} → (TraceEvent → Option A) → Option TraceEvent → Option A
field f none = none
field f (some e) = f e

abbrev first_of {ℓ} : {A : Type ℓ} → Option A → Option A → Option A
first_of none b = b
first_of (some a) b = some a

-- `loadTrace`, from the events of the file; nothing where it throws.
unfoldable pub load_trace : Text → List TraceEvent → Option SessionTrace
load_trace session_id [] = none
load_trace session_id (e ∷ es) =
    let start = find_first (is_type "session.start") (e ∷ es) in
    let end = find_first (is_type "session.end") (e ∷ es) in
    some record {
      session_id = session_id;
      goal = or_else (first_of (field (λ x. x.goal) start) (field (λ x. x.task_preview) start)) [];
      chain = or_else (field (λ x. x.chain) start) [];
      status = or_else (field (λ x. x.status) end) (codes "unknown");
      events = e ∷ es;
      total_cost = field (λ x. x.total_cost) end;
    }

pub record BehavioralFingerprint : Type 0 where
  pub tool_sequence : List Text
  pub agent_count : ℕ
  pub team_sequence : List Text
  pub step_count : ℕ
  pub error_count : ℕ
  pub status_transitions : List Text

-- `if (text) list.push(text)`, where an empty text is not pushed.
abbrev given : Option Text → List Text
given none = []
given (some []) = []
given (some (c ∷ s)) = (c ∷ s) ∷ []

-- The same, with a text in front of what is pushed.
abbrev marked : Text → List Text → List Text
marked mark [] = []
marked mark (t ∷ ts) = (mark ++ t) ∷ marked mark ts

abbrev add_teams : List Text → List Text → List Text
add_teams [] seen = seen
add_teams (t ∷ ts) seen = add_teams ts (if any (text_eq t) seen then seen else seen ++ t ∷ [])

-- The switch over the types of events.
unfoldable pub read_event : TraceEvent → BehavioralFingerprint → BehavioralFingerprint
read_event e f =
    if is_type "tool.call" e
    then record f { tool_sequence = f.tool_sequence ++ given e.tool }
    else if is_type "agent.start" e
    then record f {
      agent_count = suc f.agent_count;
      team_sequence = add_teams (given e.team) f.team_sequence;
    }
    else if is_type "chain.step.start" e
    then record f { step_count = suc f.step_count }
    else if is_type "agent.error" e
    then record f { error_count = suc f.error_count }
    else if is_type "session.end" e
    then record f { status_transitions = f.status_transitions ++ given e.status }
    else if is_type "chain.step.end" e
    then record f {
      status_transitions = f.status_transitions ++ marked (codes "step:") (given e.status);
    }
    else f

unfoldable pub read_events : List TraceEvent → BehavioralFingerprint → BehavioralFingerprint
unfolding read_event
read_events [] f = f
read_events (e ∷ es) f = read_events es (read_event e f)

abbrev pub is_error_level : Option String → Bool
is_error_level none = false
is_error_level (some l) = str_eq l "ERROR" || str_eq l "CRITICAL"

abbrev pub error_logs : List TraceEvent → ℕ
error_logs [] = 0
error_logs (e ∷ es) =
    let rest = error_logs es in if is_type "log" e && is_error_level e.level then suc rest else rest

abbrev pub empty_fingerprint : BehavioralFingerprint
empty_fingerprint = record {
  tool_sequence = [];
  agent_count = 0;
  team_sequence = [];
  step_count = 0;
  error_count = 0;
  status_transitions = [];
}

unfoldable pub extract_fingerprint : SessionTrace → BehavioralFingerprint
unfolding read_events
extract_fingerprint t =
    let f = read_events t.events empty_fingerprint in
    record f { error_count = f.error_count + error_logs t.events }
