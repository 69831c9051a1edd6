-- ===== src/Team/Parallel.antt =====
-- Teams in parallel, runParallelStep of engine/team-execution.ts: the step of each team, the results
-- of teams that failed, and the synthesis. Worktrees, prompts and messages are left out.
pub mod Laws
use Prim.Native.String.{◌++◌ as ◌<>◌}
use multi_agent_engine.Common.{
  ℕ, suc, String, Bool, true, false, not, ◌&&◌, Option, none, some, or_else, List, [], ◌∷◌, ◌++◌,
  map, length, get_elem?, ltb, if◌then◌else◌,
}
use multi_agent_engine.Pipeline.{Text}
use multi_agent_engine.Chain.Feedback.{Grade, feedback, failed, is_failed_grade}
use multi_agent_engine.SpawnDecision.{is_empty}
use multi_agent_engine.SpawnDecision.Paths.{trim, is_nil}
use multi_agent_engine.Team.Names.{codes, dashed}
use multi_agent_engine.Team.Data.{DelegateResult, Outcome, done, threw, and_then}
use multi_agent_engine.Team.Workers.{Settlement, fulfilled, rejected, FailedWorker}
use multi_agent_engine.Team.Reviews.Parts.{State, charge}

-- What a step and each of its parallel teams may set; `T` is the type of the checks, `F` of the
-- feedback.
pub record Options (T F : Type 0) : Type 0 where
  pub read_only : Option Bool
  pub lead_only : Option Bool
  pub strict_spawn : Option Bool
  pub tools_override : Option (List String)
  pub system_prompt_append : Option Text
  pub till_done : Option T
  pub max_worker_retries : Option ℕ
  pub on_feedback : Option F

-- `a ?? b`
abbrev pub first_of {ℓ} : {A : Type ℓ} → Option A → Option A → Option A
first_of none b = b
first_of (some a) b = some a

abbrev trimmed : Option Text → Text
trimmed none = []
trimmed (some t) = trim t

-- The parts that are not empty, with a blank line between them.
abbrev joined_prompt : Text → Text → Option Text
joined_prompt parent team =
    if is_nil parent
    then if is_nil team then none else some team
    else if is_nil team
    then some parent
    else some (parent ++ b'\n' ∷ b'\n' ∷ team)

unfoldable pub build_parallel_team_step : {T F : Type 0} → Options T F → Options T F → Options T F
build_parallel_team_step step team = record {
  read_only = first_of team.read_only step.read_only;
  lead_only = first_of team.lead_only step.lead_only;
  strict_spawn = first_of team.strict_spawn step.strict_spawn;
  tools_override = first_of team.tools_override step.tools_override;
  system_prompt_append =
      joined_prompt (trimmed step.system_prompt_append) (trimmed team.system_prompt_append);
  till_done = first_of team.till_done step.till_done;
  max_worker_retries = first_of team.max_worker_retries step.max_worker_retries;
  on_feedback = first_of team.on_feedback step.on_feedback;
}

failed_team : FailedWorker → DelegateResult
failed_team f = record {
  agent_id = dashed (codes f.name) ++ codes "-lead";
  agent_name = f.name;
  output = "ERROR: Parallel team failed before producing reviewable output.\n" <> f.error;
  grade = some failed;
  findings = (f.name <> (": " <> f.error)) ∷ [];
  cost = 0;
  tokens = 0;
}

unfoldable pub build_failed_team_results : List FailedWorker → List DelegateResult
unfolding failed_team
build_failed_team_results fs = map failed_team fs

abbrev team_name : (ℕ → String) → List String → ℕ → String
team_name missing teams i = elim (get_elem? teams i) [ none ↦ missing (suc i) | some t ↦ t ]

-- The loop over the outcomes of the teams, from the i-th on.
unfoldable pub sort_teams :
    (ℕ → String) → List String → ℕ → List Settlement → List DelegateResult × List FailedWorker
sort_teams missing teams i [] = ([], [])
sort_teams missing teams i (fulfilled r ∷ rest) =
    let (rs, fs) = sort_teams missing teams (suc i) rest in (r ∷ rs, fs)
sort_teams missing teams i (rejected e ∷ rest) =
    let (rs, fs) = sort_teams missing teams (suc i) rest in
    (rs, record { name = team_name missing teams i; error = e } ∷ fs)

abbrev flat_findings : List DelegateResult → List String
flat_findings [] = []
flat_findings (r ∷ rs) = r.findings ++ flat_findings rs

-- The synthesis where a team failed: it is graded FEEDBACK unless it failed itself.
unfoldable pub mark_synthesis : List DelegateResult → DelegateResult → DelegateResult
mark_synthesis failures synth =
    if not (is_empty failures) && not (is_failed_grade synth.grade)
    then record synth { grade = some feedback; findings = synth.findings ++ flat_findings failures }
    else synth

abbrev pub synthesis : Text → DelegateResult → DelegateResult
synthesis id r = record r { agent_name = "Synthesis"; agent_id = id }

-- The results that the step returns, where the synthesis is not thrown out of: `answer` is the
-- adapter's for the synthesis, and `id` its identifier.
unfoldable pub run_parallel_step :
    (ℕ → String) → List String → List Settlement → Text → DelegateResult → List DelegateResult
unfolding build_failed_team_results sort_teams mark_synthesis
run_parallel_step missing teams outcomes id answer =
    let (results, failures) = sort_teams missing teams 0 outcomes in
    let failed_results = build_failed_team_results failures in
    results ++ (failed_results ++ synthesis id (mark_synthesis failed_results answer) ∷ [])
