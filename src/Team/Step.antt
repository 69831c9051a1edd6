-- ===== src/Team/Step.antt =====
-- A step of one team, runTeamStep of engine/team-execution.ts, with delegateToLead,
-- accumulateWorkerCosts and buildTeamResult. Worktrees, events and messages are left out.
pub mod Laws
use Prim.Native.String.{◌++◌ as ◌<>◌}
use multi_agent_engine.Common.{
  ℕ, suc, ◌+◌, String, Bool, true, false, ◌||◌, Option, none, some, List, [], ◌∷◌, ◌++◌, all, map,
  if◌then◌else◌, not,
}
use multi_agent_engine.Pipeline.{Text}
use multi_agent_engine.Chain.Feedback.{Grade, verified, failed, is_failed_grade}
use multi_agent_engine.SpawnDecision.{SpawnDecision, is_empty}
use multi_agent_engine.Team.Names.{codes}
use multi_agent_engine.Team.Gates.{Rights, lead_rights, worker_rights}
use multi_agent_engine.Team.Data.{
  sum_cost, TeamMember, WorkerReview, DelegateResult, Outcome, done, threw, and_then, is_needs_work,
}
use multi_agent_engine.Team.Workers.{Entry, roster, Settlement, FailedWorker, sort_outcomes}
use multi_agent_engine.Team.Reviews.Parts.{Env, State, tick, charge, assert_active}
use multi_agent_engine.Team.Reviews.Calls.{Job, review_only}
use multi_agent_engine.Team.Reviews.Cycle.{lead_review_and_retry}

-- What else a team step is given: the lead, and whether it works alone; what the lead answers, with
-- the decisions that its output has; and how the workers end, with their assignments.
pub record Inputs : Type 0 where
  pub lead : TeamMember
  pub lead_only : Bool
  pub tools_override : Option (List String)
  pub lead_answer : Rights → Option DelegateResult
  pub decisions : DelegateResult → List SpawnDecision
  pub settlements : List Entry → List Settlement
  pub assignments : List Entry → List (Text × String)

abbrev joined : String → List String → String
joined sep [] = ""
joined sep (x ∷ []) = x
joined sep (x ∷ y ∷ xs) = x <> (sep <> joined sep (y ∷ xs))

abbrev flat {ℓ κ} : {A : Type ℓ} {B : Type κ} → (A → List B) → List A → List B
flat f [] = []
flat f (x ∷ xs) = f x ++ flat f xs

abbrev pub sum_tokens : List DelegateResult → ℕ
sum_tokens [] = 0
sum_tokens (r ∷ rs) = r.tokens + sum_tokens rs

abbrev pub passes : WorkerReview → Bool
passes r = not (is_needs_work r.grade)

abbrev note_of : WorkerReview → List String
note_of r = elim r.feedback [ none ↦ [] | some f ↦ ("[" <> (r.worker_name <> ("] " <> f))) ∷ [] ]

abbrev section_of : DelegateResult → String
section_of r = "[" <> (r.agent_name <> ("]:\n" <> r.output))

unfoldable pub build_team_result :
    DelegateResult → Text → String → List DelegateResult → List WorkerReview → DelegateResult
build_team_result lead id name results reviews = record {
  agent_id = id;
  agent_name = name;
  output = joined "\n\n---\n\n" (map section_of results);
  grade = some (if all passes reviews then verified else failed);
  findings = flat (λ r. r.findings) results ++ flat note_of reviews;
  cost = lead.cost + sum_cost results;
  tokens = lead.tokens + sum_tokens results;
}

-- The charges of `accumulateWorkerCosts`, one after the other.
unfoldable pub accumulate : List DelegateResult → State → Outcome State
accumulate [] s = done s
accumulate (r ∷ rs) s = and_then (charge r.cost r.tokens s) (accumulate rs)

-- The result, or an exception; `lead` is how far the review went.
pub data TeamEnding : Type 0 where
  finished : DelegateResult → State → TeamEnding
  thrown : State → TeamEnding

abbrev pub ending : Outcome State → (State → TeamEnding) → TeamEnding
ending (done s) f = f s
ending (threw s) f = thrown s

abbrev pub lead_id : Job → Text
lead_id j = j.step.team ++ codes "-lead"

abbrev pub finish : Job → DelegateResult → State → TeamEnding
finish j lead s =
    finished (build_team_result lead (lead_id j) j.team.lead_name s.results s.reviews) s

abbrev pub rights_of : Job → List Entry → List Rights
rights_of j [] = []
rights_of j (e ∷ es) =
    worker_rights j.step.strict e.member e.decision (review_only j) ∷ rights_of j es

abbrev pub missing_name : Job → ℕ → String
missing_name j n = "Worker " <> j.env.numeral n

-- The workers have ended: their costs, the review, and the result of the team.
unfoldable pub review_team :
    Job → DelegateResult → List DelegateResult × List FailedWorker → State → TeamEnding
unfolding build_team_result accumulate
review_team j lead (results, failures) s = ending (assert_active j.env s) (λ s1.
    ending (accumulate results (record s1 { results = results }))
      (λ s2. ending (lead_review_and_retry j failures s2) (finish j lead)))

-- The workers of the roster, if the code does not throw.
unfoldable pub run_workers : Job → Inputs → DelegateResult → State → TeamEnding
unfolding review_team
run_workers j inputs lead s =
    elim (roster j.team j.step.strict (review_only j) (inputs.decisions lead)) [
      | none ↦ thrown s
      | some es ↦
          review_team j lead
            (sort_outcomes (missing_name j) j.team.members 0 (inputs.settlements es))
            (record s {
              started = rights_of j es ++ s.started;
              assignments = inputs.assignments es;
            })
    ]

-- After the lead's answer: the early return, or the workers.
unfoldable pub after_lead : Job → Inputs → DelegateResult → State → TeamEnding
unfolding run_workers
after_lead j inputs lead s = ending (assert_active j.env s) (λ s1.
    elim (is_failed_grade lead.grade || (inputs.lead_only || is_empty j.team.members)) [
      | true ↦ finished lead s1
      | false ↦ ending (assert_active j.env s1) (run_workers j inputs lead)
    ])

-- `delegateToLead`
unfoldable pub delegate_to_lead : Job → Inputs → State → TeamEnding
unfolding after_lead
delegate_to_lead j inputs s =
    let rights = lead_rights inputs.tools_override inputs.lead (review_only j) in
    let s' = record (tick s) { started = rights ∷ s.started } in
    elim (inputs.lead_answer rights) [
      | none ↦ thrown s'
      | some lead ↦ ending (charge lead.cost lead.tokens s') (after_lead j inputs lead)
    ]

unfoldable pub run_team_step : Job → Inputs → State → TeamEnding
unfolding delegate_to_lead
run_team_step j inputs s = ending (assert_active j.env s) (delegate_to_lead j inputs)
