-- ===== src/Pipeline/Resume.antt =====
-- engine/pipeline-state.ts: what is read back after a crash, and the next stage to run.
use multi_agent_engine.Common.{
  ℕ, zero, suc, ◌+◌, ◌<◌, ◌≡◌, ◌≢◌, ◌⊎◌, inl, inr, true, false, Option, none, some, List, [], ◌∷◌,
  All, Option-cases, Bool-cases, arith, ◌∙◌, ap,
}
use multi_agent_engine.Pipeline.{
  Text, StageStatus, pending, PipelineStage, PipelineTracker, Moment, NewStage, Op, add_stage, step,
  run, resume, is_session_id, get_next_pending_stage, next_from, is_pending,
}

-- The file holds the state.
abbrev pub IsSaved : PipelineTracker → Type 0
IsSaved t = t.file ≡ some t.state

abbrev pub Writes : List (Moment × Op) → Type 0
Writes = All (λ o. o.0.writes ≡ true)

added-IsSaved :
    (t : PipelineTracker) (m : Moment) (s : NewStage)
    → m.writes ≡ true
    → IsSaved (step t (m, add_stage s)).0
unfolding step
added-IsSaved t m s w = ground arith

step-IsSaved :
    (t : PipelineTracker) (o : Moment × Op) → o.0.writes ≡ true → IsSaved t → IsSaved (step t o).0
unfolding step
step-IsSaved t (m, add_stage s) w k = ground arith
step-IsSaved t (m, op) w k = ground arith

run-IsSaved :
    (t : PipelineTracker) (os : List (Moment × Op)) → Writes os → IsSaved t → IsSaved (run t os)
unfolding run
run-IsSaved t [] w k = k
run-IsSaved t (o ∷ os) w k = run-IsSaved (step t o).0 os w.1 (step-IsSaved t o w.0 k)

resume_saved :
    (id : Text) (t : PipelineTracker)
    → is_session_id id ≡ true
    → IsSaved t
    → resume id t.file ≡ some t
unfolding resume
resume_saved id t h k = rw k (rw h (ground arith))

-- While the writes succeed, the file holds the state after every operation that follows the first
-- `addStage`, so that under a well-formed session id `resume` gives a tracker in the same state.
pub run-resume :
    (t : PipelineTracker) (m : Moment) (s : NewStage) (os : List (Moment × Op))
    → is_session_id t.state.id ≡ true
    → Writes ((m, add_stage s) ∷ os)
    → let t' = run t ((m, add_stage s) ∷ os) in resume t.state.id t'.file ≡ some t'
unfolding run
run-resume t m s os h w =
    resume_saved t.state.id (run t ((m, add_stage s) ∷ os)) h
      (run-IsSaved (step t (m, add_stage s)).0 os w.1 (added-IsSaved t m s w.0))

abbrev pub status_at : List PipelineStage → ℕ → Option StageStatus
status_at [] i = none
status_at (s ∷ ss) zero = some s.status
status_at (s ∷ ss) (suc i) = status_at ss i

next_from-none :
    (k : ℕ) (ss : List PipelineStage) (i : ℕ)
    → next_from k ss ≡ none
    → status_at ss i ≢ some pending
unfolding next_from
next_from-none k [] i e h = cc
next_from-none k (s ∷ ss) zero e h = ground arith
next_from-none k (s ∷ ss) (suc i) e h = next_from-none (suc k) ss i (ground arith) h

status-pending : (s : StageStatus) → is_pending s ≡ true → s ≡ pending
status-pending s h = ground arith

next_from-some :
    (k : ℕ) (ss : List PipelineStage) (i : ℕ)
    → next_from k ss ≡ some i
    → (d : ℕ) × (i ≡ k + d)
      × (status_at ss d ≡ some pending)
      × ((j : ℕ) → j < d → status_at ss j ≢ some pending)
unfolding next_from
next_from-some k [] i e = cc
next_from-some k (s ∷ ss) i e = elim (Bool-cases (is_pending s.status)) [
  | inl here ↦ (0, ground arith, ground arith, λ j b. absurd (omega arith))
  | inr later ↦
      let (d, at, found, before) = next_from-some (suc k) ss i (ground arith) in
      (suc d, omega arith, found, none_before s ss d later before)
]
  where
    none_before :
        (s : PipelineStage) (ss : List PipelineStage) (d : ℕ)
        → is_pending s.status ≡ false
        → ((j : ℕ) → j < d → status_at ss j ≢ some pending)
        → (j : ℕ) → j < suc d
        → status_at (s ∷ ss) j ≢ some pending
    none_before s ss d p before zero b h = ground arith
    none_before s ss d p before (suc j) b h = before j (omega arith) h

-- `getNextPendingStage` finds a pending stage with none pending before it, and answers -1 exactly
-- when no stage is pending.
pub get_next_pending_stage_first :
    (t : PipelineTracker)
    → let ss = t.state.stages in
      ((get_next_pending_stage t ≡ none) × ((j : ℕ) → status_at ss j ≢ some pending))
      ⊎ ((i : ℕ) × (get_next_pending_stage t ≡ some i)
          × (status_at ss i ≡ some pending)
          × ((j : ℕ) → j < i → status_at ss j ≢ some pending))
unfolding get_next_pending_stage
get_next_pending_stage_first t = elim (Option-cases (next_from 0 t.state.stages)) [
  | inl e ↦ inl (e, λ j. next_from-none 0 t.state.stages j e)
  | inr (i, e) ↦
      let (d, at, found, before) = next_from-some 0 t.state.stages i e in
      inr (d, e ∙ ap some at ∙ ap some (omega arith), found, before)
]
