-- ===== src/Workflow/Bound.antt =====
-- pi-packages/pi-context-workflow/index.ts: how many stages a workflow can have.
use multi_agent_engine.Common.{
  ℕ, suc, ◌+◌, ◌-◌, ◌≤◌, ◌≡◌, true, Option, none, some, List, [], ◌∷◌, arith, if◌then◌else◌,
}
use multi_agent_engine.Workflow.{
  Workflow, World, Event, session_start, start, next, step, run, new_world,
}
use multi_agent_engine.Workflow.Laws.{Current, Inv, run-Inv', run-Inv}

-- The steps that a workflow still has.
abbrev pub remaining : Option Workflow → ℕ
remaining none = 0
remaining (some wf) = if wf.active then 10 - wf.iteration else 0

abbrev pub nexts : List Event → ℕ
nexts [] = 0
nexts (next ∷ es) = suc (nexts es)
nexts (_ ∷ es) = nexts es

-- Events that bring no other workflow.
abbrev pub Continues : List Event → Type 0
Continues [] = Unit
Continues (session_start ∷ es) = ⊥
Continues (start spec ∷ es) = ⊥
Continues (_ ∷ es) = Continues es

step-remaining :
    (w : World) (e : Event)
    → Continues (e ∷ [])
    → remaining (step w e).0.workflow ≤ remaining w.workflow - nexts (e ∷ [])
unfolding step
step-remaining w session_start c = elim c [ ]
step-remaining w (start spec) c = elim c [ ]
step-remaining w next c = ground arith
step-remaining w e c = ground arith

Continues-tail :
    (e : Event) (es : List Event) → Continues (e ∷ es) → Continues (e ∷ []) × Continues es
Continues-tail session_start es c = elim c [ ]
Continues-tail (start spec) es c = elim c [ ]
Continues-tail _ es c = (tt, c)

nexts-cons : (e : Event) (es : List Event) → nexts (e ∷ es) ≡ nexts (e ∷ []) + nexts es
nexts-cons next es = omega arith
nexts-cons _ es = omega arith

run-remaining :
    (w : World) (es : List Event)
    → Continues es
    → remaining (run w es).workflow ≤ remaining w.workflow - nexts es
unfolding run
run-remaining w [] c = omega arith
run-remaining w (e ∷ es) c =
    let (here, later) = Continues-tail e es c in
    omega (arith, nexts-cons e es, step-remaining w e here, run-remaining (step w e).0 es later)

abbrev pub IsActive : Option Workflow → Type 0
IsActive none = ⊥
IsActive (some wf) = wf.active ≡ true

inactive : (w : World) → Inv w → remaining w.workflow ≤ 0 → ¬ IsActive w.workflow
inactive w v r a = go w.workflow v.current r a
  where
    go : (o : Option Workflow) → Current o w.entries → remaining o ≤ 0 → IsActive o → ⊥
    go none c r a = a
    go (some wf) c r a = ground arith

remaining-le : (w : World) → Inv w → remaining w.workflow ≤ 10
remaining-le w v = ground arith

-- Whatever happened before, once `workflow_next` has been called ten times no workflow is active,
-- unless a new one was started or the session was started again in between.
pub run_bounded :
    (before es : List Event)
    → Continues es
    → 10 ≤ nexts es
    → ¬ IsActive (run (run new_world before) es).workflow
run_bounded before es c h = inactive _ (run-Inv' _ es (run-Inv before)) (
    omega (
      arith,
      run-remaining (run new_world before) es c,
      remaining-le (run new_world before) (run-Inv before),
    ))
