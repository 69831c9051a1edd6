-- ===== src/Pipeline/Retries.antt =====
-- engine/pipeline-state.ts: how often `retryStage` can be granted.
use multi_agent_engine.Common.{
  ℕ, zero, suc, ◌+◌, ◌≤◌, ◌≡◌, refl, inl, inr, true, Option, none, some, List, [], ◌∷◌, ◌++◌,
  get_elem?, set, All, Option-cases, Bool-cases, leb, arith, ◌==◌, if◌then◌else◌,
}
use multi_agent_engine.Pipeline.{
  Text, PipelineStage, PipelineState, PipelineTracker, Moment, Op, add_stage, start_stage,
  complete_stage, fail_stage, retry_stage, complete, fail, Answer, retried, step, run, new_tracker,
  pending_stage, running, save, start, finish, break_stage, retry,
}
use multi_agent_engine.Pipeline.Bounds.{IsBounded, stages-Inv}

-- The retries that `retryStage(i)` granted during the operations.
abbrev hit : ℕ → Op → Answer → ℕ
hit i (retry_stage j) (retried true) = if j == i then 1 else 0
hit i _ _ = 0

abbrev pub granted : ℕ → PipelineTracker → List (Moment × Op) → ℕ
granted i t [] = 0
granted i t (o ∷ os) = hit i o.1 (step t o).1 + granted i (step t o).0 os

abbrev retries_at : List PipelineStage → ℕ → ℕ
retries_at [] i = 0
retries_at (s ∷ ss) zero = s.retries
retries_at (s ∷ ss) (suc i) = retries_at ss i

retries_at-append :
    (ss : List PipelineStage) (s : PipelineStage) (i : ℕ)
    → s.retries ≡ 0
    → retries_at (ss ++ s ∷ []) i ≡ retries_at ss i
retries_at-append [] s zero z = z
retries_at-append [] s (suc i) z = refl
retries_at-append (x ∷ ss) s zero z = refl
retries_at-append (x ∷ ss) s (suc i) z = retries_at-append ss s i z

retries_at-set :
    (ss : List PipelineStage) (i j : ℕ) {s : PipelineStage} (s' : PipelineStage)
    → get_elem? ss i ≡ some s
    → retries_at (set ss i s') j + (if i == j then s.retries else 0)
      ≡ retries_at ss j + (if i == j then s'.retries else 0)
retries_at-set [] i j s' e = ground arith
retries_at-set (x ∷ ss) zero zero s' e = ground arith
retries_at-set (x ∷ ss) zero (suc j) s' e = ground arith
retries_at-set (x ∷ ss) (suc i) zero s' e = ground arith
retries_at-set (x ∷ ss) (suc i) (suc j) s' e = ground (arith, retries_at-set ss i j s' e)

-- A stage replaced by one with as many retries.
replaced :
    (ss : List PipelineStage) (j i : ℕ) (s s' : PipelineStage)
    → get_elem? ss j ≡ some s
    → s'.retries ≡ s.retries
    → retries_at (set ss j s') i ≡ retries_at ss i + 0
replaced ss j i s s' e k = ground (arith, retries_at-set ss j i s' e)

retry-retries :
    (m : Moment) (j i : ℕ) (o : Option PipelineStage) (t : PipelineTracker)
    → get_elem? t.state.stages j ≡ o
    → retries_at (retry m j o t).0.state.stages i
      ≡ retries_at t.state.stages i + hit i (retry_stage j) (retry m j o t).1
unfolding retry save
retry-retries m j i none t e = omega arith
retry-retries m j i (some s) t e = elim (Bool-cases (leb s.max_retries s.retries)) [
  | inl out ↦ simp out (omega arith)
  | inr more ↦ simp more (
      ground (
        arith,
        retries_at-set t.state.stages j i
            (record s { retries = suc s.retries; status = running; started_at = some m.now }) e,
      ))
]

step-retries :
    (t : PipelineTracker) (o : Moment × Op) (i : ℕ)
    → retries_at (step t o).0.state.stages i ≡ retries_at t.state.stages i + hit i o.1 (step t o).1
unfolding step
step-retries t (m, add_stage s) i =
    omega (arith, retries_at-append t.state.stages (pending_stage s) i refl)
step-retries t (m, start_stage j) i = elim (Option-cases (get_elem? t.state.stages j)) [
  | inl e ↦ rw (e, start) (omega arith)
  | inr (s, e) ↦
      rw (e, start)
        (replaced t.state.stages j i s (record s { status = running; started_at = some m.now }) e
          refl)
]
step-retries t (m, complete_stage j r) i = elim (Option-cases (get_elem? t.state.stages j)) [
  | inl e ↦ rw (e, finish) (omega arith)
  | inr (s, e) ↦ rw (e, finish) (replaced t.state.stages j i s _ e refl)
]
step-retries t (m, fail_stage j x) i = elim (Option-cases (get_elem? t.state.stages j)) [
  | inl e ↦ rw (e, break_stage) (omega arith)
  | inr (s, e) ↦ rw (e, break_stage) (replaced t.state.stages j i s _ e refl)
]
step-retries t (m, retry_stage j) i = retry-retries m j i (get_elem? t.state.stages j) t refl
step-retries t (m, complete) i = omega arith
step-retries t (m, fail) i = omega arith

granted-retries :
    (t : PipelineTracker) (os : List (Moment × Op)) (i : ℕ)
    → retries_at (run t os).state.stages i ≡ retries_at t.state.stages i + granted i t os
unfolding run
granted-retries t [] i = omega arith
granted-retries t (o ∷ os) i = omega (arith, step-retries t o i, granted-retries (step t o).0 os i)

retries_at-le : (ss : List PipelineStage) (i : ℕ) → All IsBounded ss → retries_at ss i ≤ 3
retries_at-le [] i b = omega arith
retries_at-le (s ∷ ss) zero b = b.0.1
retries_at-le (s ∷ ss) (suc i) b = retries_at-le ss i b.1

-- Of a new tracker, `retryStage` answers true at most three times for each stage, whatever else is
-- done to the stages in between, completing and failing them included.
pub granted-le :
    (id name chain task : Text) (now : ℕ) (file : Option PipelineState) (os : List (Moment × Op))
    (i : ℕ)
    → granted i (new_tracker id name chain task now file) os ≤ 3
unfolding new_tracker
granted-le id name chain task now file os i =
    let t = new_tracker id name chain task now file in
    omega (
      arith,
      granted-retries t os i,
      retries_at-le (run t os).state.stages i (stages-Inv id name chain task now file os).bounded,
    )
