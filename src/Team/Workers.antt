-- ===== src/Team/Workers.antt =====
-- The workers of a team, executeWorkers of engine/team-execution.ts: whom the lead may start, what each
-- gets, and how the outcomes are sorted; with findSpawnDecisionForWorker of engine/spawn-decision.ts.
-- Worktrees and messages are left out.
pub mod Laws
pub mod Grants
pub mod Reports
use multi_agent_engine.Common.{
  ℕ, suc, ◌+◌, String, Bool, true, false, not, ◌&&◌, Option, none, some, or_else, List, [], ◌∷◌,
  ◌++◌, any, keep, map, get_elem?, str_eq, if◌then◌else◌,
}
use multi_agent_engine.Pipeline.{Text}
use multi_agent_engine.SpawnDecision.{
  SpawnDecision, SpawnError, is_empty, validate_spawn_decision_for_execution,
}
use multi_agent_engine.SpawnDecision.Paths.{text_eq}
use multi_agent_engine.Team.Names.{codes, dashed, worker_key, worker_id_for}
use multi_agent_engine.Team.ReviewMode.{read_only_tools}
use multi_agent_engine.Team.Data.{TeamMember, TeamConfig, DelegateResult, WorkerReview, needs_work}

pub data RosterError : Type 0 where
  not_configured : String → RosterError
  duplicate : String → RosterError
  invalid : String → List SpawnError → RosterError

pub record Entry : Type 0 where
  pub member : TeamMember
  pub decision : Option SpawnDecision

abbrev pub name_of : SpawnDecision → String
name_of d = or_else d.worker_name ""

-- `members.find(…)`
unfoldable pub find_member : List TeamMember → Text → Option TeamMember
find_member [] key = none
find_member (m ∷ ms) key = if text_eq (worker_key m.name) key then some m else find_member ms key

unfoldable pub available_tools : TeamMember → Bool → List String
available_tools m review_only = if review_only then read_only_tools m.tools else m.tools

-- What becomes of one decision: an entry, or an error; with the keys seen.
pub data Judged : Type 0 where
  accepted : Entry → Text → Judged
  refused : RosterError → Option Text → Judged

judge_member : Bool → List Text → SpawnDecision → TeamMember → Judged
judge_member review_only seen d m =
    let key = worker_key m.name in
    let errors = validate_spawn_decision_for_execution d (available_tools m review_only) in
    if any (text_eq key) seen
    then refused (duplicate m.name) none
    else if is_empty errors
    then accepted (record { member = m; decision = some d }) key
    else refused (invalid m.name errors) (some key)

judge : TeamConfig → Bool → List Text → SpawnDecision → Judged
unfolding judge_member
judge team review_only seen d = elim (find_member team.members (worker_key (name_of d))) [
  | none ↦ refused (not_configured (name_of d)) none
  | some m ↦ judge_member review_only seen d m
]

abbrev push_key : Option Text → List Text → List Text
push_key none seen = seen
push_key (some k) seen = k ∷ seen

-- The loop over the decisions: the entries, and the errors.
authorize : TeamConfig → Bool → List Text → List SpawnDecision → List Entry × List RosterError
unfolding judge
authorize team review_only seen [] = ([], [])
authorize team review_only seen (d ∷ ds) = elim (judge team review_only seen d) [
  | accepted e k ↦ let (es, errors) = authorize team review_only (k ∷ seen) ds in (e ∷ es, errors)
  | refused error k ↦
      let (es, errors) = authorize team review_only (push_key k seen) ds in (es, error ∷ errors)
]

abbrev same_name : Text → SpawnDecision → Bool
same_name wanted d = elim d.worker_name [
  | none ↦ false
  | some n ↦ d.need_worker && text_eq (dashed (codes n)) wanted
]

abbrev find_first {ℓ} : {A : Type ℓ} → (A → Bool) → List A → Option A
find_first p [] = none
find_first p (x ∷ xs) = if p x then some x else find_first p xs

unfoldable pub find_spawn_decision_for_worker : List SpawnDecision → String → Option SpawnDecision
find_spawn_decision_for_worker ds name = find_first (same_name (dashed (codes name))) ds

abbrev pub needs_worker : SpawnDecision → Bool
needs_worker d = d.need_worker

-- The workers to start; `none` where the code throws. `parsed` is what parseSpawnDecisions reads in
-- the lead's output.
unfoldable pub roster : TeamConfig → Bool → Bool → List SpawnDecision → Option (List Entry)
unfolding authorize find_spawn_decision_for_worker
roster team strict review_only parsed =
    let decisions = keep needs_worker parsed in
    let (entries, errors) = authorize team review_only [] decisions in
    if strict
    then if is_empty errors && not (is_empty entries) then some entries else none
    else some (
        map (λ m. record { member = m; decision = find_spawn_decision_for_worker decisions m.name })
          team.members)

-- How a worker ends.
pub data Settlement : Type 0 where
  fulfilled : DelegateResult → Settlement
  rejected : String → Settlement

pub record FailedWorker : Type 0 where
  pub name : String
  pub error : String

-- `teamConfig.members[i]?.name`, where `missing` makes a name of a number.
abbrev name_at : (ℕ → String) → List TeamMember → ℕ → String
name_at missing ms i = elim (get_elem? ms i) [ none ↦ missing (suc i) | some m ↦ m.name ]

-- The loop over the outcomes, from the i-th on.
unfoldable pub sort_outcomes :
    (ℕ → String) → List TeamMember → ℕ → List Settlement → List DelegateResult × List FailedWorker
sort_outcomes missing ms i [] = ([], [])
sort_outcomes missing ms i (fulfilled r ∷ rest) =
    let (rs, fs) = sort_outcomes missing ms (suc i) rest in (r ∷ rs, fs)
sort_outcomes missing ms i (rejected e ∷ rest) =
    let (rs, fs) = sort_outcomes missing ms (suc i) rest in
    (rs, record { name = name_at missing ms i; error = e } ∷ fs)
