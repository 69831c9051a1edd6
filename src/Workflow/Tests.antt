-- ===== src/Workflow/Tests.antt =====
-- Runs of the workflow, and its laws at concrete histories.
use multi_agent_engine.Common.{
  ◌≤◌, ◌<◌, ◌≡◌, ◌≢◌, ◌⊎◌, inl, inr, refl, true, false, some, List, [], ◌∷◌,
}
use multi_agent_engine.Workflow.{
  Workflow, Event, review, fix, done, start, next, test_result, review_result, step, run, new_world,
  new_workflow,
}
use multi_agent_engine.Workflow.Graph.{Edge, next-Edge}
use multi_agent_engine.Workflow.Laws.{Inv, run-Inv}
use multi_agent_engine.Workflow.Evidence.{passes, run-passed}

abbrev reviewed : List Event
reviewed = start "add" ∷ next ∷ test_result 0 ∷ next ∷ []

abbrev in_review : Workflow
in_review = record (new_workflow "add") { stage = review; iteration = 2; tests_passed = true }

reviewed_workflow : (run new_world reviewed).workflow ≡ some in_review
unfolding run step new_world
reviewed_workflow = refl

abbrev finished : List Event
finished = start "add" ∷ next ∷ test_result 0 ∷ next ∷ next ∷ next ∷ []

finished_workflow :
    (run new_world finished).workflow
    ≡ some (record in_review { stage = done; iteration = 4; active = false })
unfolding run step new_world
finished_workflow = refl

run-Inv_example : Inv (run new_world reviewed)
run-Inv_example = run-Inv reviewed

abbrev ten : List Event
ten = next ∷ next ∷ next ∷ next ∷ next ∷ next ∷ next ∷ next ∷ next ∷ next ∷ []

run-passed_example : passes reviewed ≡ true
run-passed_example = run-passed reviewed reviewed_workflow (inr (inl refl))

abbrev reworked : List Event
reworked = start "add" ∷ next ∷ test_result 0 ∷ next ∷ review_result ("leak" ∷ []) ∷ next ∷ []

abbrev in_fix : Workflow
in_fix = record in_review { stage = fix; iteration = 3; review_issues = "leak" ∷ [] }

reworked_workflow : (run new_world reworked).workflow ≡ some in_fix
unfolding run step new_world
reworked_workflow = refl

next-Edge_example :
    (wf' : Workflow) × ((step (run new_world reviewed) next).0.workflow ≡ some wf')
    × (wf'.iteration ≡ 3)
    × (((10 ≤ 3) × (wf'.stage ≡ review) × (wf'.active ≡ false))
        ⊎ ((3 < 10)
            × Edge in_review wf'.stage
            × (((wf'.active ≡ true) × (wf'.stage ≢ done))
                ⊎ ((wf'.active ≡ false) × (wf'.stage ≡ done)))))
next-Edge_example = next-Edge (run new_world reviewed) in_review reviewed_workflow refl (λ e. cc)
