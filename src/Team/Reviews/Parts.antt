-- ===== src/Team/Reviews/Parts.antt =====
-- The state of a team step, and the parts of its review that change it; buildFailedWorkerReviews of
-- engine/team-execution.ts and parseReviews of engine/output-parsing.ts. Of a review the quality notes
-- are left out; the prompts are, but for the assignments.
use Prim.Native.String.{◌++◌ as ◌<>◌}
use multi_agent_engine.Common.{
  ℕ, suc, ◌+◌, String, Bool, ◌||◌, Option, none, some, or_else, List, [], ◌∷◌, ◌++◌, any, map,
  str_eq, if◌then◌else◌,
}
use multi_agent_engine.Pipeline.{Text}
use multi_agent_engine.Budget.{BudgetState, Totals, Verdict, within, check_budget}
use multi_agent_engine.SpawnDecision.Paths.{text_eq, ends_with}
use multi_agent_engine.Team.Names.{key_of, worker_key, worker_id_for}
use multi_agent_engine.Team.Gates.{Rights}
use multi_agent_engine.Team.Data.{
  TeamMember, TeamConfig, ReviewGrade, pass, needs_work, WorkerReview, DelegateResult, Outcome,
  done, threw,
}
use multi_agent_engine.Team.Workers.{FailedWorker}

-- What the expressions of parseReviews find in the block of a worker, trimmed.
pub record Block : Type 0 where
  pub says_needs_work : Bool
  pub feedback : Option String
  pub reworked_prompt : Option String
  pub direct_fix : Option String
  pub spawn_sr : Option (List String)

-- An answer to a review: what it cost, and the blocks by the names of the workers.
pub record ReviewAnswer : Type 0 where
  pub cost : ℕ
  pub tokens : ℕ
  pub block : String → Option Block

-- The answers to the calls, by their number; `none` where a call throws. `stopped` is whether the
-- session is stopped at a check, `elsewhere` a member of another team, by its name.
pub record Env : Type 0 where
  pub stopped : ℕ → Bool
  pub review : ℕ → Option ReviewAnswer
  pub delegate : ℕ → Rights → Option DelegateResult
  pub numeral : ℕ → String
  pub lower : String → String
  pub elsewhere : String → Option TeamMember

-- `ticks` numbers the calls and the checks; `started` are the rights of the agents that were started,
-- `cycles` the retry cycles.
pub record State : Type 0 where
  pub budget : BudgetState
  pub session : Totals
  pub results : List DelegateResult
  pub reviews : List WorkerReview
  pub assignments : List (Text × String)
  pub started : List Rights
  pub ticks : ℕ
  pub cycles : ℕ

abbrev pub tick : State → State
tick s = record s { ticks = suc s.ticks }

abbrev pub add_totals : Totals → ℕ → ℕ → Totals
add_totals t cost tokens = record { cost = t.cost + cost; tokens = t.tokens + tokens }

unfoldable pub settle_charge : Verdict × BudgetState × Bool → ℕ → ℕ → State → Outcome State
settle_charge (within, b, told) cost tokens s =
    done (record s { budget = b; session = add_totals s.session cost tokens })
settle_charge (_, b, told) cost tokens s = threw (record s { budget = b })

-- `checkBudget`, and the additions to the session where it does not throw.
unfoldable pub charge : ℕ → ℕ → State → Outcome State
unfolding settle_charge
charge cost tokens s =
    settle_charge (check_budget s.budget s.session (record { cost = cost; tokens = tokens })) cost
      tokens s

-- `assertSessionActive`
unfoldable pub assert_active : Env → State → Outcome State
assert_active env s = if env.stopped s.ticks then threw (tick s) else done (tick s)

abbrev non_empty : Option String → Option String
non_empty none = none
non_empty (some t) = if str_eq t "" then none else some t

abbrev passed : DelegateResult → WorkerReview
passed r = record {
  worker_id = r.agent_id;
  worker_name = r.agent_name;
  grade = pass;
  feedback = none;
  reworked_prompt = none;
  direct_fix = none;
  sr_domains = none;
}

abbrev grade_in : Block → ReviewGrade
grade_in b = elim b.spawn_sr [
  | none ↦ if b.says_needs_work then needs_work else pass
  | some _ ↦ needs_work
]

review_of : (String → Option Block) → DelegateResult → WorkerReview
review_of block r = elim (block r.agent_name) [
  | none ↦ passed r
  | some b ↦ record {
    worker_id = r.agent_id;
    worker_name = r.agent_name;
    grade = grade_in b;
    feedback = non_empty b.feedback;
    reworked_prompt = non_empty b.reworked_prompt;
    direct_fix = non_empty b.direct_fix;
    sr_domains = b.spawn_sr;
  }
]

unfoldable pub parse_reviews : (String → Option Block) → List DelegateResult → List WorkerReview
unfolding review_of
parse_reviews block rs = map (review_of block) rs

-- `assignments.get(id)`
abbrev lookup : Text → List (Text × String) → Option String
lookup k [] = none
lookup k ((j, v) ∷ m) = if text_eq j k then some v else lookup k m

-- `assignments.set(id, text)`
unfoldable pub assign : Text → String → List (Text × String) → List (Text × String)
assign k v [] = (k, v) ∷ []
assign k v ((j, w) ∷ m) = if text_eq j k then (j, v) ∷ m else (j, w) ∷ assign k v m

failed_review : Text → TeamConfig → List (Text × String) → FailedWorker → WorkerReview
failed_review team_id team assignments f =
    let id = worker_id_for team_id f.name in
    let original =
      "Retry the original " <> (f.name <> (" assignment for " <> (team.team_name <> "."))) in
    let what = " failed before producing reviewable output: " <> f.error in
    record {
      worker_id = id;
      worker_name = f.name;
      grade = needs_work;
      feedback = some ("Worker" <> what);
      reworked_prompt = some (
          or_else (lookup id assignments) original
          <> ("\n\nPrevious attempt"
              <> (what <> "\nRetry from scratch and return the required findings with evidence.")));
      direct_fix = none;
      sr_domains = none;
    }

-- The member that the code looks up has the name of the failure, or is not there.
unfoldable pub build_failed_worker_reviews :
    Text → TeamConfig → List (Text × String) → List FailedWorker → List WorkerReview
unfolding failed_review
build_failed_worker_reviews team_id team assignments fs =
    map (failed_review team_id team assignments) fs

abbrev same_worker : WorkerReview → WorkerReview → Bool
same_worker f r =
    text_eq r.worker_id f.worker_id || text_eq (worker_key r.worker_name) (worker_key f.worker_name)

-- The loop that adds the reviews of failed workers whom the lead has not reviewed.
unfoldable pub add_failed : List WorkerReview → List WorkerReview → List WorkerReview
add_failed reviews [] = reviews
add_failed reviews (f ∷ fs) =
    add_failed (if any (same_worker f) reviews then reviews else reviews ++ f ∷ []) fs

-- `findTeamMember`
unfoldable pub find_team_member : List TeamMember → WorkerReview → Option TeamMember
find_team_member [] r = none
find_team_member (m ∷ ms) r =
    let key = worker_key m.name in
    if text_eq key (worker_key r.worker_name) || ends_with (key_of r.worker_id) key
    then some m
    else find_team_member ms r
