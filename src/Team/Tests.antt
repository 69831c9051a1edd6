-- ===== src/Team/Tests.antt =====
-- Runs of a team step at concrete inputs, engine/team-execution.ts.
use multi_agent_engine.Common.{
  ℕ, ◌≡◌, refl, String, Bool, true, false, Option, none, some, List, [], ◌∷◌, ltb, All, str_eq, map,
  length, arith, keep, ◌++◌,
}
use multi_agent_engine.Budget.{check_budget}
use multi_agent_engine.Chain.Feedback.{Grade, verified, is_bad, worst_grade}
use multi_agent_engine.SpawnDecision.{SpawnDecision, isolated, Domain}
use multi_agent_engine.Team.Data.{TeamMember, TeamConfig, TeamStep, DelegateResult}
use multi_agent_engine.Team.Names.{codes, worker_key, worker_id_for, running_id}
use multi_agent_engine.Team.Workers.{Entry, roster, Settlement, fulfilled, rejected, sort_outcomes}
use multi_agent_engine.Team.Reviews.Parts.{
  Env, State, Block, assert_active, charge, add_failed, build_failed_worker_reviews, parse_reviews,
  assign, find_team_member,
}
use multi_agent_engine.Team.Reviews.Calls.{Job, lead_review_workers, retry_worker}
use multi_agent_engine.Team.Reviews.Cycle.{lead_review_and_retry, retry_cycles, cycle}
use multi_agent_engine.Team.Gates.{retry_rights}
use multi_agent_engine.Team.Gates.Laws.{IsHarmless}
use multi_agent_engine.Team.ReviewMode.{is_review_only_step}
use multi_agent_engine.Team.Step.Laws.{
  ChargesFor, run_team_step-ChargesFor, last_state, run_team_step-IsHarmless, IsGraded,
  run_team_step-IsGraded,
}
use multi_agent_engine.Team.Workers.Laws.{AreNew, IsAuthorized, roster-IsAuthorized}
use multi_agent_engine.Team.Workers.Grants.{HasGranted, roster-HasGranted}
use multi_agent_engine.Team.Workers.Reports.{
  own_name, member_name, failures_of, answers_of, sort_outcomes-own_name,
}
use multi_agent_engine.Team.Workers.{needs_worker, find_member, available_tools}
use multi_agent_engine.Team.Parallel.{run_parallel_step}
use multi_agent_engine.Team.Parallel.Laws.{grade_of, rejections, run_parallel_step-worst_grade}
use multi_agent_engine.SpawnDecision.{is_empty, validate_spawn_decision_for_execution}
use multi_agent_engine.SpawnDecision.Paths.{has_unsafe_path, path_covers}
use multi_agent_engine.Team.Step.{Inputs, finished, thrown, TeamEnding, run_team_step}

abbrev sources : Domain
sources = record { read = codes "src" ∷ []; write = codes "src" ∷ []; update = []; delete = none }

abbrev ann : TeamMember
ann = record {
  name = "Ann (web)";
  path = codes "agents/ann.md";
  tools = "read" ∷ "bash" ∷ [];
  domain = sources;
}

abbrev bob : TeamMember
bob = record { name = "Bob"; path = codes "agents/bob.md"; tools = "read" ∷ []; domain = sources }

abbrev team : TeamConfig
team = record { team_name = "Web"; lead_name = "Lea"; members = ann ∷ bob ∷ [] }

abbrev result : String → ℕ → DelegateResult
result name cost = record {
  agent_id = running_id (codes "web") name;
  agent_name = name;
  output = "done";
  grade = some verified;
  findings = [];
  cost = cost;
  tokens = 0;
}

-- The first review wants a rework from Bob, and the later ones nothing.
abbrev blocks : ℕ → String → Option Block
blocks n name = elim (str_eq name "Bob") [
  | false ↦ none
  | true ↦ some (record {
    says_needs_work = ltb n 7;
    feedback = none;
    reworked_prompt = some "again";
    direct_fix = none;
    spawn_sr = none;
  })
]

abbrev env : Env
env = record {
  stopped = λ n. false;
  review = λ n. some (record { cost = 2; tokens = 0; block = blocks n });
  delegate = λ n rights. some (result "Bob" 5);
  numeral = λ n. "1";
  lower = λ t. t;
  elsewhere = λ n. none;
}

abbrev step : Bool → Bool → TeamStep
step review strict = record {
  team = codes "web";
  read_only = review;
  system_prompt_append = none;
  strict = strict;
  max_worker_retries = none;
}

abbrev job : Bool → Bool → Job
job review strict = record { env = env; step = step review strict; team = team }

abbrev decision : SpawnDecision
decision = record {
  need_worker = true;
  worker_name = some "Bob";
  reason = "tests";
  why_lead_cannot_do_it = "time";
  allowed_paths = codes "src" ∷ [];
  allowed_tools = "read" ∷ [];
  forbidden_paths = codes ".env" ∷ [];
  bus_policy = isolated;
  expected_output_schema = "REPORT";
  timeout_seconds = 60;
}

abbrev inputs : Inputs
inputs = record {
  lead = bob;
  lead_only = false;
  tools_override = none;
  lead_answer = λ r. some (result "Lea" 1);
  decisions = λ r. decision ∷ [];
  settlements = λ es. fulfilled (result "Ann (web)" 3) ∷ fulfilled (result "Bob" 4) ∷ [];
  assignments = λ es. [];
}

abbrev at_start : State
at_start = record {
  budget = record { budgets = none; budget_warned = false };
  session = record { cost = 0; tokens = 0 };
  results = [];
  reviews = [];
  assignments = [];
  started = [];
  ticks = 0;
  cycles = 0;
}

abbrev cost_of : TeamEnding → ℕ × ℕ × Option Grade
cost_of (finished r s) = (r.cost, s.session.cost, r.grade)
cost_of (thrown s) = (0, 0, none)

run_once : cost_of (run_team_step (job false false) inputs at_start) ≡ (9, 17, some verified)
unfolding run_team_step check_budget assert_active charge roster sort_outcomes lead_review_and_retry
    lead_review_workers retry_cycles add_failed build_failed_worker_reviews parse_reviews cycle
    retry_worker find_team_member worker_key retry_rights assign is_review_only_step running_id
run_once = refl

run_team_step-ChargesFor_example :
    ChargesFor at_start (run_team_step (job false false) inputs at_start)
run_team_step-ChargesFor_example = run_team_step-ChargesFor (job false false) inputs at_start

run_team_step-IsHarmless_example :
    All IsHarmless (last_state (run_team_step (job true false) inputs at_start)).started
unfolding is_review_only_step
run_team_step-IsHarmless_example = run_team_step-IsHarmless (job true false) inputs at_start refl tt

run_team_step-IsGraded_example :
    IsGraded (job false false) inputs 0 (run_team_step (job false false) inputs at_start)
run_team_step-IsGraded_example = run_team_step-IsGraded (job false false) inputs at_start

abbrev entries : List Entry
entries = record { member = bob; decision = some decision } ∷ []

bob_may_start : roster team true false (decision ∷ []) ≡ some entries
unfolding roster worker_key validate_spawn_decision_for_execution has_unsafe_path path_covers
    find_member available_tools
bob_may_start = refl

roster-IsAuthorized_example :
    (is_empty entries ≡ false)
    × AreNew [] entries
    × All (IsAuthorized team false (keep needs_worker (decision ∷ []))) entries
roster-IsAuthorized_example = roster-IsAuthorized team false (decision ∷ []) bob_may_start

roster-HasGranted_example : All (HasGranted false (decision ∷ [])) entries
roster-HasGranted_example = roster-HasGranted team false (decision ∷ []) bob_may_start

-- In strict mode Bob fails, and the failure is reported under Ann's name.
abbrev no_name : ℕ → String
no_name n = "Worker"

misnamed :
    (sort_outcomes no_name team.members 0 (rejected "timeout" ∷ [])).1
    ≡ record { name = "Ann (web)"; error = "timeout" } ∷ []
unfolding sort_outcomes
misnamed = refl

-- The assignment of Ann is kept under another identifier than the one that is looked up.
two_ids :
    (worker_id_for (codes "web") "Ann (web)" ≡ codes "web-ann-web")
    × (running_id (codes "web") "Ann (web)" ≡ codes "web-ann-web-")
unfolding worker_id_for running_id
two_ids = (refl, refl)

abbrev outcomes : List Settlement
outcomes = fulfilled (result "Ann (web)" 3) ∷ rejected "timeout" ∷ []

abbrev both : List Entry
both = record { member = ann; decision = none } ∷ record { member = bob; decision = none } ∷ []

both_start : roster team false false [] ≡ some both
unfolding roster
both_start = refl

sort_outcomes-own_name_example :
    let (rs, fs) = sort_outcomes no_name team.members 0 outcomes in
    (rs ≡ answers_of outcomes)
    × (fs ≡ failures_of (map member_name team.members) outcomes)
    × (fs ≡ failures_of (map own_name both) outcomes)
sort_outcomes-own_name_example =
    sort_outcomes-own_name no_name team false [] outcomes both_start (omega arith)

run_parallel_step-worst_grade_example :
    let results =
      run_parallel_step no_name ("web" ∷ "api" ∷ []) outcomes (codes "synth-1") (result "S" 1) in
    (failures : List DelegateResult) × (last : DelegateResult) × (results
      ≡ answers_of outcomes ++ (failures ++ last ∷ []))
    × (length failures ≡ rejections outcomes)
    × All (λ r. r.grade ≡ some Grade.failed) failures
    × (is_bad last.grade ≡ true)
    × (worst_grade (map grade_of results) ≡ some Grade.failed)
run_parallel_step-worst_grade_example =
    run_parallel_step-worst_grade no_name ("web" ∷ "api" ∷ []) outcomes (codes "synth-1")
      (result "S" 1) refl
