-- ===== src/Certification/Artifacts.antt =====
-- The checks of engine/certification-validator.ts on the artifacts of the agents. `artifact` is
-- readArtifact for the directory of the trace.
use multi_agent_engine.Common.{
  Bool, true, false, not, ◌&&◌, ◌||◌, Option, none, some, List, [], ◌∷◌, keep, if◌then◌else◌,
}
use multi_agent_engine.Pipeline.{Text}
use multi_agent_engine.SpawnDecision.Paths.{text_eq, ends_with, is_nil}
use multi_agent_engine.Team.Names.{codes}
use multi_agent_engine.Team.ReviewMode.{folded, occurs}
use multi_agent_engine.Certification.Contract.{
  ParsedCertContract, contract_start, contract_end, parse_cert_contract,
}
use multi_agent_engine.Certification.Event.{
  TraceEvent, agent_id, team_name, grade, artifact_ref, is_agent_end, is_synthesis_agent,
  lead_suffix,
}

-- `/^(FAILED|ERROR)$/i`
abbrev is_failure_grade : Text → Bool
is_failure_grade g = text_eq (folded g) (codes "failed") || text_eq (folded g) (codes "error")

-- `latestGradeByAgent.get(id) ?? ""`, where no grade is kept for an empty identifier.
abbrev latest_grade : Text → Text → List TraceEvent → Text
latest_grade id g [] = g
latest_grade id g (e ∷ es) =
    latest_grade id (if not (is_nil id) && text_eq (agent_id e) id then grade e else g) es

-- `content !== null && content.includes(mark)`
abbrev holds : Option Text → Text → Bool
holds none mark = false
holds (some content) mark = occurs content mark

-- The content of the artifact that an event refers to, if it refers to one.
abbrev content_of : (Text → Option Text) → TraceEvent → Option Text
content_of artifact e = let ref = artifact_ref e in if is_nil ref then none else artifact ref

is_empty_output : (Text → Option Text) → List TraceEvent → TraceEvent → Bool
is_empty_output artifact ends e =
    let superseded =
      is_failure_grade (grade e) && not (is_failure_grade (latest_grade (agent_id e) [] ends)) in
    not superseded && holds (content_of artifact e) (codes "ERROR: Empty output")

-- `checkNoEmptyOutputs`
unfoldable pub empty_outputs : (Text → Option Text) → List TraceEvent → List TraceEvent
unfolding is_empty_output
empty_outputs artifact events =
    let ends = keep is_agent_end events in keep (is_empty_output artifact ends) ends

leaks : (Text → Option Text) → TraceEvent → Bool
leaks artifact e =
    is_agent_end e
    && (not (is_synthesis_agent (agent_id e)) && holds (content_of artifact e) contract_start)

-- `checkNoLeakedContracts`
unfoldable pub leaked_contracts : (Text → Option Text) → List TraceEvent → List TraceEvent
unfolding leaks
leaked_contracts artifact events = keep (leaks artifact) events

lead_leaks : (Text → Option Text) → TraceEvent → Bool
lead_leaks artifact e =
    is_agent_end e
    && (ends_with (agent_id e) lead_suffix && holds (content_of artifact e) contract_start)

-- `checkTeamContracts`
unfoldable pub team_contract_issues : (Text → Option Text) → List TraceEvent → List TraceEvent
unfolding lead_leaks
team_contract_issues artifact events = keep (lead_leaks artifact) events

abbrev pub is_synthesis_end : TraceEvent → Bool
is_synthesis_end e =
    is_agent_end e
    && ((is_synthesis_agent (agent_id e) || text_eq (team_name e) (codes "Synthesis"))
        && not (is_nil (artifact_ref e)))

abbrev pub has_contract : Text → Bool
has_contract content = occurs content contract_start && occurs content contract_end

-- The first artifact of a synthesis that has a contract.
unfoldable pub first_contract : (Text → Option Text) → List TraceEvent → Option Text
first_contract artifact [] = none
first_contract artifact (e ∷ es) =
    let rest = first_contract artifact es in
    elim (artifact (artifact_ref e)) [
      | none ↦ rest
      | some content ↦ if is_synthesis_end e && has_contract content then some content else rest
    ]

-- `checkCanonicalArtifactExists`: whether it passes, and the contract that was read.
unfoldable pub canonical_artifact :
    (Text → Option Text) → List TraceEvent → Bool × Option ParsedCertContract
unfolding first_contract
canonical_artifact artifact events = elim (first_contract artifact events) [
  | none ↦ (false, none)
  | some content ↦ (true, parse_cert_contract content)
]
