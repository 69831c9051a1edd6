-- ===== src/Certification/Event.antt =====
-- The events of a trace, as engine/certification-validator.ts reads them. Where the code reads a field
-- of `data` and `data` is missing, the field is missing. What coerceSpawnDecisionPayload makes of an
-- event is an input.
use multi_agent_engine.Common.{
  ℕ, String, Bool, false, not, ◌&&◌, ◌||◌, Option, none, some, or_else, List, [], ◌∷◌, str_eq,
}
use multi_agent_engine.Pipeline.{Text}
use multi_agent_engine.SpawnDecision.{SpawnDecision}
use multi_agent_engine.SpawnDecision.Paths.{text_eq, begins_with, ends_with, is_nil}
use multi_agent_engine.Team.Names.{codes}
use multi_agent_engine.Team.ReviewMode.{folded}

-- The fields of a steering action, which stand in `data` or in the event itself; of the authority, a
-- number.
pub record SteerFields : Type 0 where
  pub intent : Option Text
  pub action : Option Text
  pub participant_id : Option Text
  pub authority : Option ℕ
  pub impact : Option Text

pub record EventData : Type 0 where
  pub agent_id : Option Text
  pub agent_name : Option Text
  pub agent_role : Option Text
  pub team_name : Option Text
  pub grade : Option Text
  pub output_artifact : Option Text
  pub kind : Option Text
  pub role : Option Text
  pub status : Option Text
  pub steer : SteerFields

pub record TraceEvent : Type 0 where
  pub type : Option String
  pub event_type : Option String
  pub session_id : Option Text
  pub agent_id : Option Text
  pub mae_agent_id : Option Text
  pub parent_id : Option Text
  pub team : Option Text
  pub grade : Option Text
  pub status : Option Text
  pub output_artifact : Option Text
  pub args_preview : Option Text
  pub kind : Option Text
  pub steer : SteerFields
  pub inner : EventData  -- `data`
  pub decision : Option SpawnDecision

-- `a ?? b`
abbrev pub first_of {ℓ} : {A : Type ℓ} → Option A → Option A → Option A
first_of none b = b
first_of (some a) b = some a

abbrev pub is_text : Option String → String → Bool
is_text none t = false
is_text (some s) t = str_eq s t

abbrev pub same : Option Text → String → Bool
same none t = false
same (some s) t = text_eq s (codes t)

-- `evt.type === a || evt.event_type === b`
abbrev pub is_either : String → String → TraceEvent → Bool
is_either a b e = is_text e.type a || is_text e.event_type b

unfoldable pub agent_id : TraceEvent → Text
agent_id e =
    or_else (first_of e.agent_id (first_of e.inner.agent_id e.inner.steer.participant_id)) []

abbrev pub mae_agent_id : TraceEvent → Text
mae_agent_id e = or_else e.mae_agent_id []

unfoldable pub team_name : TraceEvent → Text
team_name e = or_else (first_of e.team e.inner.team_name) []

unfoldable pub grade : TraceEvent → Text
grade e = or_else (first_of e.grade e.inner.grade) []

unfoldable pub artifact_ref : TraceEvent → Text
artifact_ref e = or_else (first_of e.output_artifact e.inner.output_artifact) []

unfoldable pub is_agent_end : TraceEvent → Bool
is_agent_end e = is_either "agent.end" "agent_done" e

unfoldable pub is_agent_start : TraceEvent → Bool
is_agent_start e =
    is_either "agent.start" "agent_spawn" e || is_either "participant.start" "participant_start" e

unfoldable pub is_tool_call : TraceEvent → Bool
is_tool_call e = is_text e.type "tool.call"

abbrev ended_well : Text → Bool
ended_well status =
    text_eq (folded status) (codes "completed") || text_eq (folded status) (codes "success")

unfoldable pub is_operational_failure : TraceEvent → Bool
is_operational_failure e =
    is_text e.type "agent.error"
    || (is_text e.event_type "worker_failed"
        || (is_text e.event_type "error"
            || (is_text e.type "session.end" && not (ended_well (or_else e.status [])))))

abbrev is_orchestrator : Text → Bool
is_orchestrator id = text_eq id (codes "pi-orchestrator") || text_eq id (codes "echo-orchestrator")

unfoldable pub is_synthesis_agent : Text → Bool
is_synthesis_agent id = begins_with id (codes "synth-") || is_orchestrator id

abbrev pub lead_suffix : Text
lead_suffix = codes "-lead"

unfoldable pub is_worker_spawn : TraceEvent → Bool
unfolding agent_id is_agent_start
is_worker_spawn e =
    let id = agent_id e in
    is_agent_start e
    && (not (is_nil id)
        && (not (ends_with id lead_suffix)
            && (not (begins_with id (codes "synth-"))
                && (not (is_orchestrator id)
                    && (not (is_either "participant.start" "participant_start" e)
                        || (same e.inner.kind "worker" || same e.inner.role "worker"))))))

unfoldable pub is_steer_event : TraceEvent → Bool
is_steer_event e = is_either "steer.action" "steer_action" e

-- A required review: the team, and the ways in which the identifier of its lead is written.
pub record RequiredLead : Type 0 where
  pub team : String
  pub suffix : String
  pub whole : String

abbrev pub required_leads : List RequiredLead
required_leads =
    record {
      team = "Correctness Review";
      suffix = "pi-correctness-lead";
      whole = "Correctness Review-lead";
    }
    ∷ record {
      team = "Adversarial Review";
      suffix = "pi-adversarial-lead";
      whole = "Adversarial Review-lead";
    }
    ∷ record { team = "Quality Review"; suffix = "pi-quality-lead"; whole = "Quality Review-lead" }
    ∷ record {
      team = "Security Review";
      suffix = "pi-security-lead";
      whole = "Security Review-lead";
    }
    ∷ record { team = "Domain Review"; suffix = "pi-domain-lead"; whole = "Domain Review-lead" }
    ∷ []

-- `req.leadPattern.test(agentId(evt)) || teamName(evt) === req.team`
unfoldable pub is_lead_for : RequiredLead → TraceEvent → Bool
is_lead_for req e =
    ends_with (agent_id e) (codes req.suffix)
    || (text_eq (agent_id e) (codes req.whole) || text_eq (team_name e) (codes req.team))
