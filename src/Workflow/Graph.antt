-- ===== src/Workflow/Graph.antt =====
-- pi-packages/pi-context-workflow/index.ts: the diagram of the stages.
use multi_agent_engine.Common.{
  suc, ◌<◌, ◌≤◌, ◌≡◌, ◌≢◌, ◌⊎◌, inl, inr, refl, true, false, some, [], Bool-cases, leb, arith,
}
use multi_agent_engine.Workflow.{
  Workflow, WorkflowStage, write, test, review, fix, verify, done, World, next, step, move,
}

-- Which stage may follow that of a workflow, and on what condition.
pub data Edge (wf : Workflow) (s : WorkflowStage) : Type 0 where
  coded : wf.stage ≡ write → s ≡ test → Edge wf s
  passed : wf.stage ≡ test → wf.tests_passed ≡ true → s ≡ review → Edge wf s
  failed : wf.stage ≡ test → wf.tests_passed ≡ false → s ≡ fix → Edge wf s
  approved : wf.stage ≡ review → wf.review_issues ≡ [] → s ≡ verify → Edge wf s
  rejected : wf.stage ≡ review → wf.review_issues ≢ [] → s ≡ fix → Edge wf s
  fixed : wf.stage ≡ fix → s ≡ test → Edge wf s
  verified : wf.stage ≡ verify → s ≡ done → Edge wf s

move-Edge : (wf : Workflow) → wf.stage ≢ done → Edge wf (move wf.stage wf).stage
unfolding move
move-Edge wf n = grind (arith, coded, passed, failed, approved, rejected, fixed, verified)

Edge-counted :
    (wf : Workflow) {s : WorkflowStage}
    → Edge (record wf { iteration = suc wf.iteration }) s
    → Edge wf s
Edge-counted wf (coded h e) = coded h e
Edge-counted wf (passed h p e) = passed h p e
Edge-counted wf (failed h p e) = failed h p e
Edge-counted wf (approved h p e) = approved h p e
Edge-counted wf (rejected h p e) = rejected h p e
Edge-counted wf (fixed h e) = fixed h e
Edge-counted wf (verified h e) = verified h e

move_active :
    (wf : Workflow)
    → wf.stage ≢ done
    → let m = move wf.stage wf in
      ((m.active ≡ true) × (m.stage ≢ done)) ⊎ ((m.active ≡ false) × (m.stage ≡ done))
unfolding move
move_active wf n = ground arith

-- `workflow_next` of an active workflow that is not done counts a step. If that reaches the maximum, it
-- stops in its stage; otherwise it goes along an edge of the diagram, and stays active exactly when
-- the new stage is not the last one.
pub next-Edge :
    (w : World) (wf : Workflow)
    → w.workflow ≡ some wf
    → wf.active ≡ true
    → wf.stage ≢ done
    → (wf' : Workflow) × ((step w next).0.workflow ≡ some wf')
      × (wf'.iteration ≡ suc wf.iteration)
      × (((wf.max_iterations ≤ suc wf.iteration) × (wf'.stage ≡ wf.stage) × (wf'.active ≡ false))
          ⊎ ((suc wf.iteration < wf.max_iterations)
              × Edge wf wf'.stage
              × (((wf'.active ≡ true) × (wf'.stage ≢ done))
                  ⊎ ((wf'.active ≡ false) × (wf'.stage ≡ done)))))
unfolding step
next-Edge w wf e a n = elim (Bool-cases (leb wf.max_iterations (suc wf.iteration))) [
  | inl out ↦ (
    record wf { iteration = suc wf.iteration; active = false },
    ground arith,
    refl,
    inl (ground arith),
  )
  | inr more ↦
      let counted = record wf { iteration = suc wf.iteration } in
      let m = move wf.stage counted in
      (
        record counted { stage = m.stage; active = m.active; context_compacted = false },
        ground arith,
        refl,
        inr (ground arith, Edge-counted wf (move-Edge counted n), move_active counted n),
      )
]
