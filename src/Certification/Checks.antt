-- ===== src/Certification/Checks.antt =====
-- The checks of engine/certification-validator.ts on the events alone: leads, failures, scope, fixtures,
-- sources, workers and stale participants. Each gives the events, or teams, that fail it.
use multi_agent_engine.Common.{
  ℕ, Bool, true, false, not, ◌&&◌, ◌||◌, Option, none, some, or_else, List, [], ◌∷◌, any, keep,
  ◌++◌, if◌then◌else◌,
}
use multi_agent_engine.Pipeline.{Text}
use multi_agent_engine.SpawnDecision.Paths.{
  text_eq, begins_with, is_nil, skip, is_slash, slash_after,
}
use multi_agent_engine.Team.Names.{codes}
use multi_agent_engine.Team.ReviewMode.{occurs}
use multi_agent_engine.Certification.Event.{
  TraceEvent, RequiredLead, required_leads, is_either, same, agent_id, is_agent_end, is_tool_call,
  is_operational_failure, is_worker_spawn, is_lead_for,
}
use multi_agent_engine.Certification.Match.{Fixture, clean, seeded, failing}

abbrev pub completes : RequiredLead → TraceEvent → Bool
completes req e = is_agent_end e && is_lead_for req e

-- `checkLifecycleComplete`: the teams whose lead did not complete.
unfoldable pub missing_leads : List TraceEvent → List RequiredLead
missing_leads events = keep (λ req. not (any (completes req) events)) required_leads

unfoldable pub operational_failures : List TraceEvent → List TraceEvent
operational_failures events = keep is_operational_failure events

abbrev preview : TraceEvent → Text
preview e = or_else e.args_preview []

-- The text after a slash that at least one other character stands before, as `[^/]+\/` wants it.
abbrev after_slash : Text → Option Text
after_slash [] = none
after_slash (c ∷ s) = if is_slash c then some s else after_slash s

abbrev after_name : Text → Option Text
after_name [] = none
after_name (c ∷ s) = if is_slash c then none else after_slash s

abbrev cert_mark : Text
cert_mark = codes "/mae-cert."

abbrev mark_length : ℕ
mark_length = 10

abbrev is_some {ℓ} : {A : Type ℓ} → Option A → Bool
is_some none = false
is_some (some a) = true

-- `/\/mae-cert\.[^/]+\//`
abbrev in_cert_dir : Text → Bool
in_cert_dir [] = false
in_cert_dir (c ∷ s) =
    (begins_with (c ∷ s) cert_mark && is_some (after_name (skip mark_length (c ∷ s))))
    || in_cert_dir s

abbrev is_whole_name : Text → Text → Bool
is_whole_name s name = text_eq s name || begins_with s (slash_after name)

abbrev names_fixture : Option Text → Bool
names_fixture none = false
names_fixture (some s) =
    is_whole_name s (codes "clean")
    || (is_whole_name s (codes "seeded") || is_whole_name s (codes "failing"))

-- `/\/mae-cert\.[^/]+\/(clean|seeded|failing)(\/|$)/`
abbrev in_fixture_dir : Text → Bool
in_fixture_dir [] = false
in_fixture_dir (c ∷ s) =
    (begins_with (c ∷ s) cert_mark && names_fixture (after_name (skip mark_length (c ∷ s))))
    || in_fixture_dir s

drifts : Text → TraceEvent → Bool
drifts work_dir e =
    is_tool_call e && (in_cert_dir (preview e) && not (begins_with (preview e) work_dir))

-- `checkNoScopeDrift`
unfoldable pub drifted : List TraceEvent → Text → List TraceEvent
unfolding drifts
drifted events work_dir = keep (drifts work_dir) events

abbrev fixture_name : Fixture → Text
fixture_name clean = codes "clean"
fixture_name seeded = codes "seeded"
fixture_name failing = codes "failing"

uses_wrong_fixture : Text → Fixture → TraceEvent → Bool
uses_wrong_fixture work_dir f e =
    is_tool_call e
    && (begins_with (preview e) work_dir
        && (in_fixture_dir (preview e)
            && not (begins_with (preview e) (slash_after work_dir ++ fixture_name f))))

-- `checkNoWrongFixture`
unfoldable pub wrong_fixture : List TraceEvent → Text → Option Fixture → List TraceEvent
unfolding uses_wrong_fixture
wrong_fixture events work_dir none = []
wrong_fixture events work_dir (some f) = keep (uses_wrong_fixture work_dir f) events

reads_source : Text → Text → TraceEvent → Bool
reads_source repo_root work_dir e =
    is_tool_call e && (occurs (preview e) repo_root && not (occurs (preview e) work_dir))

-- `checkNoRepoSourceReads`
unfoldable pub repo_source_reads : List TraceEvent → Text → Text → List TraceEvent
unfolding reads_source
repo_source_reads events repo_root work_dir = keep (reads_source repo_root work_dir) events

-- `checkNoWorkerSpawns`
unfoldable pub worker_spawns : List TraceEvent → List TraceEvent
worker_spawns events = keep is_worker_spawn events

-- `evt.data?.participant_id ?? agentId(evt)`
abbrev pub participant : TraceEvent → Text
participant e = or_else e.inner.steer.participant_id (agent_id e)

resolves : TraceEvent → Bool
resolves e =
    is_either "participant.end" "participant_end" e
    || (same e.inner.status "active" || same e.inner.status "completed")

abbrev is_stale : TraceEvent → Bool
is_stale e = is_either "participant.stale" "participant_stale" e

resolved_by : Text → TraceEvent → Bool
unfolding resolves
resolved_by pid e = resolves e && text_eq (participant e) pid

unresolved : List TraceEvent → TraceEvent → Bool
unfolding resolved_by
unresolved events e =
    is_stale e && (not (is_nil (participant e)) && not (any (resolved_by (participant e)) events))

-- `checkNoStaleParticipants`
unfoldable pub stale_participants : List TraceEvent → List TraceEvent
unfolding unresolved
stale_participants events = keep (unresolved events) events
