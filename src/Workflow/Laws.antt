-- ===== src/Workflow/Laws.antt =====
-- pi-packages/pi-context-workflow/index.ts: what holds of the workflow between two events, and the
-- bound on its stages.
use multi_agent_engine.Common.{
  ℕ, suc, ◌≤◌, ◌<◌, ◌≡◌, refl, ◌≢◌, inl, inr, true, false, Option, none, some, List, [], ◌∷◌, ◌++◌,
  All, All-append, Bool-cases, leb, ◌==◌, arith,
}
use multi_agent_engine.Workflow.{
  Workflow, done, World, Event, session_start, start, cancel, next, test_result, review_result,
  complete, compacted, session_shutdown, last_entry, new_workflow, step, run, new_world, publish,
  send_if, move, follow, Prompt, call_next, call_next_stage, next_stage, when_active, restore,
  report_tests, report_review, complete_workflow, cancel_workflow, finish_compaction,
  end_compaction, Reply,
}

-- A workflow as the entries hold it.
abbrev pub IsLive : Workflow → Type 0
IsLive wf = (wf.active ≡ true) × (wf.max_iterations ≡ 10) × (wf.iteration < 10) × (wf.stage ≢ done)

abbrev pub IsGood : Workflow → Type 0
IsGood wf =
    (wf.max_iterations ≡ 10)
    × (wf.iteration ≤ 10)
    × (wf.active ≡ true → (wf.iteration < 10) × (wf.stage ≢ done))

abbrev pub Current : Option Workflow → List Workflow → Type 0
Current none es = Unit
Current (some wf) es = IsGood wf × (wf.active ≡ true → last_entry none es ≡ some wf)

pub record Inv (w : World) : Type 0 where
  pub stored : All IsLive w.entries
  pub current : Current w.workflow w.entries

last_entry-append :
    (found : Option Workflow) (es : List Workflow) (e : Workflow)
    → last_entry found (es ++ e ∷ []) ≡ some e
last_entry-append found [] e = refl
last_entry-append found (x ∷ es) e = last_entry-append (some x) es e

publish-Inv : (wf : Workflow) (w : World) → IsGood wf → All IsLive w.entries → Inv (publish wf w)
unfolding publish
publish-Inv wf w g s =
    ground (arith, All-append IsLive w.entries (wf ∷ []) s, last_entry-append none w.entries wf)

-- What a handler of an active workflow has to keep.
abbrev Keeps : (Workflow → World → World × Reply) → Type 0
Keeps handler =
    (wf : Workflow) (w : World)
    → IsGood wf
    → wf.active ≡ true
    → All IsLive w.entries
    → Inv (handler wf w).0

send_if-Inv : (o : Option Prompt) (w : World) → Inv w → Inv (send_if o w)
unfolding send_if
send_if-Inv none w v = v
send_if-Inv (some p) w v = record { stored = v.stored; current = v.current }

move_live :
    (wf : Workflow)
    → (move wf.stage wf).active ≡ true
    → wf.stage ≢ done
    → (move wf.stage wf).stage ≢ done
unfolding move
move_live wf a n = ground arith

follow-Inv :
    (wf : Workflow) (w : World)
    → IsGood wf
    → wf.stage ≢ done
    → wf.iteration < 10
    → All IsLive w.entries
    → Inv (follow (move wf.stage wf) wf w).0
unfolding follow
follow-Inv wf w g n b s = send_if-Inv _ _ (publish-Inv _ _ (g.0, g.1, λ a. (b, move_live wf a n)) s)

next-Inv : Keeps next_stage
unfolding next_stage
next-Inv wf w g a s = elim (Bool-cases (leb wf.max_iterations (suc wf.iteration))) [
  | inl out ↦ simp out (publish-Inv _ w (g.0, ground arith, λ e. cc) s)
  | inr more ↦ simp more (
      follow-Inv (record wf { iteration = suc wf.iteration }) w (ground arith) (ground arith)
        (ground arith) s)
]

when_active-Inv :
    (o : Option Workflow) (handler : Workflow → World → World × Reply) (w : World)
    → Keeps handler
    → w.workflow ≡ o
    → Inv w
    → Inv (when_active o handler w).0
when_active-Inv none handler w k e v = v
when_active-Inv (some wf) handler w k e v = elim (Bool-cases wf.active) [
  | inl a ↦ simp a (k wf w (ground arith) a v.stored)
  | inr a ↦ simp a v
]

last_entry-IsLive :
    (found : Workflow) (es : List Workflow) {wf : Workflow}
    → IsLive found
    → All IsLive es
    → last_entry (some found) es ≡ some wf
    → IsLive wf
last_entry-IsLive found [] l s e = ground arith
last_entry-IsLive found (x ∷ es) l s e = last_entry-IsLive x es s.0 s.1 e

stored-last :
    (es : List Workflow) {wf : Workflow} → All IsLive es → last_entry none es ≡ some wf → IsLive wf
stored-last [] s e = cc
stored-last (x ∷ es) s e = last_entry-IsLive x es s.0 s.1 e

IsLive-IsGood : (wf : Workflow) → IsLive wf → IsGood wf
IsLive-IsGood wf l = (l.1, omega arith, λ a. (l.2, l.3))

restore-Inv :
    (o : Option Workflow) (w : World) → last_entry none w.entries ≡ o → Inv w → Inv (restore o w)
unfolding restore
restore-Inv none w e v = record { stored = v.stored; current = tt }
restore-Inv (some wf) w e v =
    let live = stored-last w.entries v.stored e in
    simp (live.0) (publish-Inv wf w (IsLive-IsGood wf live) v.stored)

end_compaction-Inv :
    (o : Option Workflow) (w : World) → w.workflow ≡ o → Inv w → Inv (end_compaction o w)
unfolding end_compaction
end_compaction-Inv none w e v = v
end_compaction-Inv (some wf) w e v =
    publish-Inv (record wf { context_compacted = true }) w (good w.workflow e v.current) v.stored
  where
    good : (o : Option Workflow) → o ≡ some wf → Current o w.entries → IsGood wf
    good none e c = cc
    good (some x) e c = ground arith

finish_compaction-Inv : (n : ℕ) (w : World) → Inv w → Inv (finish_compaction n w)
unfolding finish_compaction
finish_compaction-Inv n w v = elim (Bool-cases (n == 0)) [
  | inl settled ↦ simp settled v
  | inr pending ↦ simp pending (
      let kept = end_compaction-Inv w.workflow w refl v in
      record { stored = kept.stored; current = kept.current })
]

pub step-Inv : (w : World) (e : Event) → Inv w → Inv (step w e).0
unfolding step
step-Inv w session_start v = restore-Inv (last_entry none w.entries) w refl v
step-Inv w (start spec) v = ground (arith, publish-Inv (new_workflow spec) w)
step-Inv w cancel v =
    when_active-Inv w.workflow cancel_workflow w (λ wf w g a s. record { stored = s; current = tt })
      refl v
step-Inv w next v = when_active-Inv w.workflow next_stage w next-Inv refl v
step-Inv w (test_result code) v =
    when_active-Inv w.workflow (report_tests code) w
      (λ wf w g a s. send_if-Inv (some call_next_stage) _ (publish-Inv _ w g s)) refl v
step-Inv w (review_result issues) v =
    when_active-Inv w.workflow (report_review issues) w
      (λ wf w g a s. send_if-Inv (some call_next) _ (publish-Inv _ w g s)) refl v
step-Inv w complete v =
    when_active-Inv w.workflow complete_workflow w
      (λ wf w g a s.
        publish-Inv (record wf { stage = done; active = false }) w (g.0, g.1, λ e. cc) s)
      refl v
step-Inv w compacted v = finish_compaction-Inv w.compactions w v
step-Inv w session_shutdown v = record { stored = v.stored; current = tt }

pub run-Inv' : (w : World) (es : List Event) → Inv w → Inv (run w es)
unfolding run
run-Inv' w [] v = v
run-Inv' w (e ∷ es) v = run-Inv' (step w e).0 es (step-Inv w e v)

-- From a branch without entries, after any commands, tool calls, ends of compaction, restarts and
-- shutdowns: a workflow has made at most ten steps, one that is active has made fewer and is not
-- done, every stored entry is an active one of the same kind, and the last entry is the workflow
-- as long as it is active.
pub run-Inv : (es : List Event) → Inv (run new_world es)
unfolding new_world
run-Inv es = run-Inv' _ es (record { stored = tt; current = tt })
