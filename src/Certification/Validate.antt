-- ===== src/Certification/Validate.antt =====
-- validateCertificationEvidence of engine/certification-validator.ts. A check is its name and whether it
-- passed, and a blocking reason is named by its check. `artifact` reads an artifact of the trace.
pub mod Laws
pub mod Sound
pub mod Spawned
pub mod Steered
use multi_agent_engine.Common.{
  Bool, true, false, not, ◌&&◌, ◌||◌, Option, none, some, List, [], ◌∷◌, ◌++◌, all, if◌then◌else◌,
}
use multi_agent_engine.Pipeline.{Text}
use multi_agent_engine.SpawnDecision.{is_empty}
use multi_agent_engine.Certification.Event.{TraceEvent}
use multi_agent_engine.Certification.Contract.{ParsedCertContract}
use multi_agent_engine.Certification.Match.{Fixture, Evidence, Reason, mismatches}
use multi_agent_engine.Certification.Checks.{
  missing_leads, operational_failures, drifted, wrong_fixture, repo_source_reads, worker_spawns,
  stale_participants,
}
use multi_agent_engine.Certification.Artifacts.{
  empty_outputs, leaked_contracts, team_contract_issues, canonical_artifact,
}
use multi_agent_engine.Certification.Spawns.{check_spawn_decisions}
use multi_agent_engine.Certification.Steering.{check_steer_events}

pub record ValidatorContext : Type 0 where
  pub artifact : Text → Option Text
  pub work_dir : Text
  pub repo_root : Text
  pub expected_fixture : Option Fixture
  pub is_live_pi : Bool
  pub strict_spawn_decisions : Bool
  pub interactive_cert : Bool

pub data CheckName : Type 0 where
  lifecycle_complete no_operational_failures no_empty_outputs no_scope_drift no_wrong_fixture :
      CheckName
  no_repo_source_reads no_worker_spawns no_leaked_contracts canonical_artifact_exists : CheckName
  team_contracts_valid no_stale_participants contract_matches_evidence : CheckName
  spawn_decisions_valid steer_events_valid : CheckName

pub record ValidationCheck : Type 0 where
  pub name : CheckName
  pub passed : Bool

pub record ValidationContract : Type 0 where
  pub validated : Bool
  pub evidence_complete : Bool
  pub lifecycle_valid : Bool
  pub contract_matches : Bool
  pub scope_valid : Bool
  pub steering_valid : Bool
  pub spawn_policy_valid : Bool
  pub blocking_reasons : List CheckName
  pub checks : List ValidationCheck

abbrev pub is_passed : ValidationCheck → Bool
is_passed c = c.passed

-- `if (!check.passed) blockingReasons.push(check.evidence)`, over the checks.
abbrev pub blocking : List ValidationCheck → List CheckName
blocking [] = []
blocking (c ∷ cs) = let rest = blocking cs in if c.passed then rest else c.name ∷ rest

abbrev a_check {ℓ} : {A : Type ℓ} → CheckName → List A → ValidationCheck
a_check name failures = record { name = name; passed = is_empty failures }

-- Checks 6 and 7, for a live session only.
abbrev live_checks : ValidatorContext → List TraceEvent → List ValidationCheck
live_checks c events =
    if c.is_live_pi
    then a_check no_repo_source_reads (repo_source_reads events c.repo_root c.work_dir)
      ∷ a_check no_worker_spawns (worker_spawns events)
      ∷ []
    else []

abbrev pub evidence_of : ValidatorContext → List TraceEvent → Evidence
evidence_of c events = record {
  lifecycle_valid = is_empty (missing_leads events);
  has_empty_outputs = not (is_empty (empty_outputs c.artifact events));
  has_scope_drift = not (is_empty (drifted events c.work_dir));
  has_failures = not (is_empty (operational_failures events));
}

abbrev pub contract_reasons : ValidatorContext → List TraceEvent → List Reason
contract_reasons c events =
    mismatches (canonical_artifact c.artifact events).1 (evidence_of c events) c.expected_fixture

unfoldable pub checks_of : ValidatorContext → List TraceEvent → List ValidationCheck
checks_of c events =
    (a_check lifecycle_complete (missing_leads events)
      ∷ a_check no_operational_failures (operational_failures events)
      ∷ a_check no_empty_outputs (empty_outputs c.artifact events)
      ∷ a_check no_scope_drift (drifted events c.work_dir)
      ∷ a_check no_wrong_fixture (wrong_fixture events c.work_dir c.expected_fixture)
      ∷ [])
    ++ (live_checks c events
        ++ (a_check no_leaked_contracts (leaked_contracts c.artifact events)
            ∷ record {
              name = canonical_artifact_exists;
              passed = (canonical_artifact c.artifact events).0;
            }
            ∷ a_check team_contracts_valid (team_contract_issues c.artifact events)
            ∷ a_check no_stale_participants (stale_participants events)
            ∷ a_check contract_matches_evidence (contract_reasons c events)
            ∷ a_check spawn_decisions_valid (check_spawn_decisions events c.strict_spawn_decisions)
            ∷ a_check steer_events_valid (check_steer_events events c.interactive_cert)
            ∷ []))

unfoldable pub validate_certification_evidence :
    ValidatorContext → List TraceEvent → ValidationContract
unfolding checks_of
validate_certification_evidence c events =
    let checks = checks_of c events in
    let lifecycle = is_empty (missing_leads events) in
    record {
      validated = all is_passed checks;
      evidence_complete = lifecycle && (canonical_artifact c.artifact events).0;
      lifecycle_valid = lifecycle;
      contract_matches = is_empty (contract_reasons c events);
      scope_valid =
          is_empty (drifted events c.work_dir)
          && is_empty (wrong_fixture events c.work_dir c.expected_fixture);
      steering_valid = is_empty (check_steer_events events c.interactive_cert);
      spawn_policy_valid =
          (if c.is_live_pi then is_empty (worker_spawns events) else true)
          && is_empty (check_spawn_decisions events c.strict_spawn_decisions);
      blocking_reasons = blocking checks;
      checks = checks;
    }
