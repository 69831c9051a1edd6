-- ===== src/Workflow/Restore.antt =====
-- pi-packages/pi-context-workflow/index.ts: what a restart of the session brings back, and a
-- re-test that is not asked for.
use multi_agent_engine.Common.{
  suc, ◌+◌, ◌<◌, ◌≡◌, refl, ◌⊎◌, true, false, Option, some, none, List, [], ◌∷◌, arith, ap, ◌∙◌,
}
use multi_agent_engine.Workflow.{
  Workflow, World, Event, session_start, session_shutdown, cancel, complete, next, review, fix,
  last_entry, step, run, new_world,
}
use multi_agent_engine.Workflow.Laws.{Current, Inv, run-Inv}

revived :
    (w : World) {wf : Workflow}
    → last_entry none w.entries ≡ some wf
    → wf.active ≡ true
    → (step w session_start).0.workflow ≡ some wf
unfolding step
revived w {wf} e a = rw e (simp a (ground arith))

latest :
    (w : World) {wf : Workflow}
    → Inv w
    → w.workflow ≡ some wf
    → wf.active ≡ true
    → last_entry none w.entries ≡ some wf
latest w {wf} v e a = go w.workflow v.current e
  where
    go :
        (o : Option Workflow)
        → Current o w.entries
        → o ≡ some wf
        → last_entry none w.entries ≡ some wf
    go none c e = cc
    go (some x) c e = ground arith

ended :
    (w : World) {wf : Workflow} (e : Event)
    → (e ≡ session_shutdown) ⊎ ((e ≡ cancel) ⊎ (e ≡ complete))
    → w.workflow ≡ some wf
    → wf.active ≡ true
    → (step w e).0.entries ≡ w.entries
unfolding step
ended w e h k a = ground arith

-- An active workflow comes back, as it was, when the session starts again after a shutdown. It
-- comes back in the same way after the user cancelled it or the model completed it.
pub restart_after_end :
    (es : List Event) (end : Event) {wf : Workflow}
    → (end ≡ session_shutdown) ⊎ ((end ≡ cancel) ⊎ (end ≡ complete))
    → (run new_world es).workflow ≡ some wf
    → wf.active ≡ true
    → (step (step (run new_world es) end).0 session_start).0.workflow ≡ some wf
restart_after_end es end h k a =
    let w = run new_world es in
    revived (step w end).0 (ap (last_entry none) (ended w end h k a) ∙ latest w (run-Inv es) k a) a

-- After a fix of a workflow whose tests once passed, two calls of `workflow_next` lead into the
-- review, with no test result in between.
pub fix-review_untested :
    (w : World) {wf : Workflow}
    → w.workflow ≡ some wf
    → wf.active ≡ true
    → wf.stage ≡ fix
    → wf.tests_passed ≡ true
    → wf.iteration + 2 < wf.max_iterations
    → (wf' : Workflow) × ((run w (next ∷ next ∷ [])).workflow ≡ some wf')
      × (wf'.stage ≡ review)
      × (wf'.active ≡ true)
unfolding run step
fix-review_untested w {wf} e a f t b = (
  record wf { stage = review; iteration = suc (suc wf.iteration); context_compacted = false },
  ground arith,
  refl,
  a,
)
