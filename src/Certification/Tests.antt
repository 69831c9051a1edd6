-- ===== src/Certification/Tests.antt =====
-- A session that is validated, with a worker and a steering action.
use multi_agent_engine.Common.{
  String, ◌≡◌, refl, true, false, none, some, List, [], ◌∷◌, ◌++◌, All, get_elem?, ◌≤◌,
}
use multi_agent_engine.Pipeline.{Text}
use multi_agent_engine.SpawnDecision.{
  SpawnDecision, isolated, covered_by, covered_paths, required, unsafe_paths,
  validate_spawn_decision,
}
use multi_agent_engine.Team.Names.{codes, dashed, key_of}
use multi_agent_engine.Certification.Event.{
  TraceEvent, SteerFields, EventData, required_leads, is_operational_failure, is_worker_spawn,
  is_agent_end, is_lead_for, agent_id, team_name, grade, artifact_ref, is_tool_call,
  is_synthesis_agent, is_agent_start, is_steer_event,
}
use multi_agent_engine.Certification.Steering.{
  has_authority, has_impact, bracket_issues, brackets, check_steer_events, hiding_issues,
}
use multi_agent_engine.Certification.Match.{
  clean, contradictions, expected, expected_clean, expected_failing, expected_seeded, mismatches,
  missing_among, missing_fields, missing_perspectives,
}
use multi_agent_engine.Certification.Spawns.{
  DecisionEvent, is_for, trace_decision_errors, check_spawn_decisions, decision_events,
  decision_failures, find_decision, spawn_failure, spawn_failures,
}
use multi_agent_engine.Certification.Validate.{
  ValidatorContext, validate_certification_evidence, checks_of,
}
use multi_agent_engine.Certification.Validate.Sound.{Completed, HasContract, validated-HasContract}
use multi_agent_engine.Certification.Validate.Spawned.{validated-HasDecision}
use multi_agent_engine.Certification.Validate.Steered.{Bracketed, validated-Bracketed}
use multi_agent_engine.Certification.Checks.{
  missing_leads, operational_failures, drifted, wrong_fixture, repo_source_reads,
  stale_participants, worker_spawns,
}
use multi_agent_engine.Certification.Artifacts.{
  empty_outputs, leaked_contracts, canonical_artifact, team_contract_issues, first_contract,
}
use multi_agent_engine.Certification.Contract.{parse_cert_contract, parse_int}
use multi_agent_engine.SpawnDecision.Paths.{has_unsafe_path, path_covers}

abbrev lines : List String → Text
lines [] = []
lines (l ∷ ls) = codes l ++ b'\n' ∷ lines ls

abbrev report : Text
report = lines (
    "CERTIFICATION_CONTRACT:" ∷ "schema_version: 1" ∷ "verdict: pass" ∷ "p0_count: 0"
    ∷ "p1_count: 0" ∷ "perspectives_covered: correctness,adversarial,quality,security,domain"
    ∷ "blockers: none" ∷ "failed_teams: none" ∷ "certification_ready: true"
    ∷ "END_CERTIFICATION_CONTRACT" ∷ [])

abbrev no_steer : SteerFields
no_steer = record {
  intent = none;
  action = none;
  participant_id = none;
  authority = none;
  impact = none;
}

abbrev no_data : EventData
no_data = record {
  agent_id = none;
  agent_name = none;
  agent_role = none;
  team_name = none;
  grade = none;
  output_artifact = none;
  kind = none;
  role = none;
  status = none;
  steer = no_steer;
}

abbrev event : String → String → TraceEvent
event type id = record {
  type = some type;
  event_type = none;
  session_id = none;
  agent_id = some (codes id);
  mae_agent_id = none;
  parent_id = none;
  team = none;
  grade = none;
  status = none;
  output_artifact = none;
  args_preview = none;
  kind = none;
  steer = no_steer;
  inner = no_data;
  decision = none;
}

abbrev tester : SpawnDecision
tester = record {
  need_worker = true;
  worker_name = some "tester";
  reason = "tests";
  why_lead_cannot_do_it = "no shell";
  allowed_paths = codes "a" ∷ [];
  allowed_tools = "read" ∷ [];
  forbidden_paths = codes "b" ∷ [];
  bus_policy = isolated;
  expected_output_schema = "report";
  timeout_seconds = 60;
}

abbrev decided : TraceEvent
decided = record (event "spawn.decision" "tester") { decision = some tester }

abbrev spawned : TraceEvent
spawned = event "agent.start" "tester"

abbrev joined : TraceEvent
joined = record (event "participant.start" "web-1") {
  inner = record no_data { kind = some (codes "web-steer") };
}

abbrev steering : TraceEvent
steering = record (event "steer.action" "web-1") {
  steer = record no_steer { authority = some 90; impact = some (codes "none") };
}

abbrev left : TraceEvent
left = event "participant.end" "web-1"

abbrev leads : List TraceEvent
leads =
    event "agent.end" "pi-correctness-lead"
    ∷ event "agent.end" "pi-adversarial-lead"
    ∷ event "agent.end" "pi-quality-lead"
    ∷ event "agent.end" "pi-security-lead"
    ∷ event "agent.end" "pi-domain-lead"
    ∷ []

abbrev synthesis : TraceEvent
synthesis = record (event "agent.end" "synth-1") { output_artifact = some (codes "out") }

abbrev rest : List TraceEvent
rest = left ∷ leads ++ synthesis ∷ []

abbrev trace : List TraceEvent
trace = decided ∷ spawned ∷ joined ∷ steering ∷ rest

abbrev context : ValidatorContext
context = record {
  artifact = λ ref. some report;
  work_dir = codes "/tmp/mae-cert.1";
  repo_root = codes "/repo";
  expected_fixture = some clean;
  is_live_pi = false;
  strict_spawn_decisions = true;
  interactive_cert = true;
}

trace_validated : (validate_certification_evidence context trace).validated ≡ true
unfolding validate_certification_evidence is_agent_end is_lead_for agent_id team_name
    is_operational_failure grade artifact_ref is_tool_call is_synthesis_agent is_agent_start
    is_steer_event is_worker_spawn missing_leads operational_failures drifted wrong_fixture
    repo_source_reads stale_participants worker_spawns empty_outputs leaked_contracts
    canonical_artifact team_contract_issues first_contract parse_cert_contract parse_int
    contradictions expected expected_clean expected_failing expected_seeded mismatches missing_among
    missing_fields missing_perspectives check_spawn_decisions decision_events decision_failures
    find_decision is_for spawn_failure spawn_failures trace_decision_errors bracket_issues brackets
    check_steer_events hiding_issues checks_of has_unsafe_path path_covers covered_by covered_paths
    required unsafe_paths validate_spawn_decision dashed key_of
trace_validated = refl

spawned_is_worker : is_worker_spawn spawned ≡ true
unfolding is_worker_spawn agent_id is_agent_start
spawned_is_worker = refl

steering_is_steer : is_steer_event steering ≡ true
unfolding is_steer_event
steering_is_steer = refl

validated-HasContract_example :
    All (Completed trace) required_leads
    × All (λ e. is_operational_failure e ≡ false) trace
    × HasContract context trace
validated-HasContract_example = validated-HasContract context trace trace_validated

validated-HasDecision_example :
    (d : DecisionEvent) × (get_elem? trace d.index ≡ some d.event)
    × (d.index ≤ 1)
    × (d.event.decision ≡ some d.decision)
    × (is_for spawned d ≡ true)
    × (trace_decision_errors d.decision ≡ [])
validated-HasDecision_example =
    validated-HasDecision context (decided ∷ []) spawned (joined ∷ steering ∷ rest) trace_validated
      refl spawned_is_worker

validated-Bracketed_example :
    (context.interactive_cert ≡ true)
    × (has_authority steering ≡ true)
    × (has_impact steering ≡ true)
    × Bracketed (decided ∷ spawned ∷ joined ∷ []) steering rest
validated-Bracketed_example =
    validated-Bracketed context (decided ∷ spawned ∷ joined ∷ []) steering rest trace_validated
      steering_is_steer
