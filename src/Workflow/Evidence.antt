-- ===== src/Workflow/Evidence.antt =====
-- pi-packages/pi-context-workflow/index.ts: what a stage says of the test results reported so far.
use multi_agent_engine.Common.{
  suc, ◌≡◌, refl, ◌⊎◌, inl, inr, Bool, true, false, ◌||◌, Option, none, some, List, [], ◌∷◌, leb,
  ◌==◌, Bool-cases, arith, All, All-append, str_eq,
}
use multi_agent_engine.Workflow.{
  Workflow, World, Event, session_start, start, next, test_result, WorkflowStage, review, verify,
  done, step, run, new_world, publish, send_if, move, follow, Prompt, Reply, implement, call_next,
  call_next_stage, cancel, review_result, complete, compacted, session_shutdown, next_stage,
  when_active, restore, report_tests, report_review, complete_workflow, cancel_workflow,
  end_compaction, last_entry, new_workflow,
}

-- A report of exit code 0.
abbrev pub passes : List Event → Bool
passes [] = false
passes (test_result code ∷ es) = code == 0 || passes es
passes (_ ∷ es) = passes es

abbrev pub in_review : WorkflowStage → Bool
in_review review = true
in_review verify = true
in_review _ = false

-- The workflow neither counts its tests as passed nor is in review or in verification.
abbrev pub IsEarly : Workflow → Type 0
IsEarly wf = (wf.tests_passed ≡ false) × (in_review wf.stage ≡ false)

abbrev pub EarlyIf : Option Workflow → Type 0
EarlyIf none = Unit
EarlyIf (some wf) = IsEarly wf

record Early (w : World) : Type 0 where
  stored : All IsEarly w.entries
  current : EarlyIf w.workflow

publish-Early :
    (wf : Workflow) (w : World) → IsEarly wf → All IsEarly w.entries → Early (publish wf w)
unfolding publish
publish-Early wf w g s = ground (arith, All-append IsEarly w.entries (wf ∷ []) s)

send_if-Early : (o : Option Prompt) (w : World) → Early w → Early (send_if o w)
unfolding send_if
send_if-Early none w v = v
send_if-Early (some p) w v = record { stored = v.stored; current = v.current }

abbrev Keeps : (Workflow → World → World × Reply) → Type 0
Keeps handler =
    (wf : Workflow) (w : World) → IsEarly wf → All IsEarly w.entries → Early (handler wf w).0

when_active-Early :
    (o : Option Workflow) (handler : Workflow → World → World × Reply) (w : World)
    → Keeps handler
    → EarlyIf o
    → Early w
    → Early (when_active o handler w).0
when_active-Early none handler w k g v = v
when_active-Early (some wf) handler w k g v = elim (Bool-cases wf.active) [
  | inl a ↦ simp a (k wf w g v.stored)
  | inr a ↦ simp a v
]

move-early : (wf : Workflow) → IsEarly wf → in_review (move wf.stage wf).stage ≡ false
unfolding move
move-early wf g = ground arith

next-Early : Keeps next_stage
unfolding next_stage follow
next-Early wf w g s = elim (Bool-cases (leb wf.max_iterations (suc wf.iteration))) [
  | inl out ↦ simp out (publish-Early _ w g s)
  | inr more ↦ simp more (
      send_if-Early _ _
        (publish-Early _ _ (g.0, move-early (record wf { iteration = suc wf.iteration }) g) s))
]

last-Early :
    (found : Option Workflow) (es : List Workflow)
    → EarlyIf found
    → All IsEarly es
    → EarlyIf (last_entry found es)
last-Early found [] g s = g
last-Early found (x ∷ es) g s = last-Early (some x) es s.0 s.1

restore-Early : (o : Option Workflow) (w : World) → EarlyIf o → Early w → Early (restore o w)
unfolding restore
restore-Early none w g v = record { stored = v.stored; current = tt }
restore-Early (some wf) w g v = elim (Bool-cases wf.active) [
  | inl a ↦ simp a (publish-Early wf w g v.stored)
  | inr a ↦ simp a (record { stored = v.stored; current = g })
]

compacted-Early :
    (o : Option Workflow) (w : World) → EarlyIf o → Early w → Early (end_compaction o w)
unfolding end_compaction
compacted-Early none w g v = v
compacted-Early (some wf) w g v =
    publish-Early (record wf { context_compacted = true }) w g v.stored

step-Early : (w : World) (e : Event) → passes (e ∷ []) ≡ false → Early w → Early (step w e).0
unfolding step
step-Early w session_start p v = restore-Early _ w (last-Early none w.entries tt v.stored) v
step-Early w (start spec) p v = elim (Bool-cases (str_eq spec "")) [
  | inl none_given ↦ simp none_given v
  | inr given ↦
      simp given (
        send_if-Early (some implement) _
          (publish-Early (new_workflow spec) w (refl, refl) v.stored))
]
step-Early w cancel p v =
    when_active-Early w.workflow cancel_workflow w (λ wf w g s. record { stored = s; current = tt })
      v.current v
step-Early w next p v = when_active-Early w.workflow next_stage w next-Early v.current v
step-Early w (test_result code) p v =
    when_active-Early w.workflow (report_tests code) w
      (λ wf w g s.
        send_if-Early (some call_next_stage) _
          (publish-Early (record wf { tests_passed = code == 0 }) w (ground arith, g.1) s))
      v.current v
step-Early w (review_result issues) p v =
    when_active-Early w.workflow (report_review issues) w
      (λ wf w g s.
        send_if-Early (some call_next) _
          (publish-Early (record wf { review_issues = issues }) w g s))
      v.current v
step-Early w complete p v =
    when_active-Early w.workflow complete_workflow w
      (λ wf w g s. publish-Early (record wf { stage = done; active = false }) w (g.0, refl) s)
      v.current v
step-Early w compacted p v = elim (Bool-cases (w.compactions == 0)) [
  | inl settled ↦ simp settled v
  | inr pending ↦ simp pending (
      let kept = compacted-Early w.workflow w v.current v in
      record { stored = kept.stored; current = kept.current })
]
step-Early w session_shutdown p v = record { stored = v.stored; current = tt }

passes-tail :
    (e : Event) (es : List Event)
    → passes (e ∷ es) ≡ false
    → (passes (e ∷ []) ≡ false) × (passes es ≡ false)
passes-tail (test_result code) es p = ground arith
passes-tail _ es p = (refl, p)

run-Early : (w : World) (es : List Event) → passes es ≡ false → Early w → Early (run w es)
unfolding run
run-Early w [] p v = v
run-Early w (e ∷ es) p v =
    run-Early (step w e).0 es (passes-tail e es p).1 (step-Early w e (passes-tail e es p).0 v)

-- A workflow of a branch without entries comes into review or verification, or counts its tests as
-- passed, only if some call of `workflow_test_result` reported the exit code 0.
pub run-passed :
    (es : List Event) {wf : Workflow}
    → (run new_world es).workflow ≡ some wf
    → (wf.tests_passed ≡ true) ⊎ ((wf.stage ≡ review) ⊎ (wf.stage ≡ verify))
    → passes es ≡ true
unfolding new_world
run-passed es {wf} e h = elim (Bool-cases (passes es)) [
  | inl seen ↦ seen
  | inr unseen ↦ absurd (
      go (run new_world es).workflow
        (run-Early new_world es unseen (record { stored = tt; current = tt })).current e)
]
  where
    go : (o : Option Workflow) → EarlyIf o → o ≡ some wf → ⊥
    go none g e = cc
    go (some x) g e = ground arith
