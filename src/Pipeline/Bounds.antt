-- ===== src/Pipeline/Bounds.antt =====
-- engine/pipeline-state.ts: retries and totals over any sequence of operations.
use multi_agent_engine.Common.{
  ℕ, zero, suc, ◌+◌, ◌≤◌, ◌≡◌, refl, inl, inr, Option, none, some, List, [], ◌∷◌, ◌++◌, get_elem?,
  set, All, All-append, All-set, All-get_elem?, Option-cases, Bool-cases, leb, arith,
}
use multi_agent_engine.Pipeline.{
  Text, PipelineStage, PipelineState, PipelineTracker, Moment, Op, add_stage, start_stage,
  complete_stage, fail_stage, retry_stage, complete, fail, step, run, new_tracker, pending_stage,
  running, save, break_stage, retry,
}

abbrev pub costs : List PipelineStage → ℕ
costs [] = 0
costs (s ∷ ss) = s.cost + costs ss

abbrev pub token_counts : List PipelineStage → ℕ
token_counts [] = 0
token_counts (s ∷ ss) = s.tokens + token_counts ss

abbrev pub IsBounded : PipelineStage → Type 0
IsBounded s = (s.max_retries ≡ 3) × (s.retries ≤ 3)

pub record Inv (t : PipelineTracker) : Type 0 where
  pub bounded : All IsBounded t.state.stages
  pub cost_covered : costs t.state.stages ≤ t.state.total_cost
  pub tokens_covered : token_counts t.state.stages ≤ t.state.total_tokens

costs-append :
    (ss : List PipelineStage) (s : PipelineStage) → costs (ss ++ s ∷ []) ≡ costs ss + s.cost
costs-append [] s = omega arith
costs-append (x ∷ ss) s = omega (arith, costs-append ss s)

token_counts-append :
    (ss : List PipelineStage) (s : PipelineStage)
    → token_counts (ss ++ s ∷ []) ≡ token_counts ss + s.tokens
token_counts-append [] s = omega arith
token_counts-append (x ∷ ss) s = omega (arith, token_counts-append ss s)

costs-set :
    (ss : List PipelineStage) (i : ℕ) {s : PipelineStage} (s' : PipelineStage)
    → get_elem? ss i ≡ some s
    → costs (set ss i s') + s.cost ≡ costs ss + s'.cost
costs-set [] i s' e = ground arith
costs-set (x ∷ ss) zero s' e = ground arith
costs-set (x ∷ ss) (suc i) s' e = omega (arith, costs-set ss i s' e)

token_counts-set :
    (ss : List PipelineStage) (i : ℕ) {s : PipelineStage} (s' : PipelineStage)
    → get_elem? ss i ≡ some s
    → token_counts (set ss i s') + s.tokens ≡ token_counts ss + s'.tokens
token_counts-set [] i s' e = ground arith
token_counts-set (x ∷ ss) zero s' e = ground arith
token_counts-set (x ∷ ss) (suc i) s' e = omega (arith, token_counts-set ss i s' e)

-- Replacing a stage by one that costs no more than what the totals gain keeps the invariant.
put-Inv :
    (t t' : PipelineTracker) (i : ℕ) (s s' : PipelineStage)
    → get_elem? t.state.stages i ≡ some s
    → Inv t
    → t'.state.stages ≡ set t.state.stages i s'
    → IsBounded s'
    → t.state.total_cost + s'.cost ≤ t'.state.total_cost + s.cost
    → t.state.total_tokens + s'.tokens ≤ t'.state.total_tokens + s.tokens
    → Inv t'
put-Inv t t' i s s' e v same b c k = record {
  bounded = rw same (All-set IsBounded t.state.stages i s' v.bounded b);
  cost_covered = rw same (omega (arith, costs-set t.state.stages i s' e));
  tokens_covered = rw same (omega (arith, token_counts-set t.state.stages i s' e));
}

retry-Inv :
    (m : Moment) (i : ℕ) (o : Option PipelineStage) (t : PipelineTracker)
    → get_elem? t.state.stages i ≡ o
    → Inv t
    → Inv (retry m i o t).0
unfolding retry save
retry-Inv m i none t e v = v
retry-Inv m i (some s) t e v = elim (Bool-cases (leb s.max_retries s.retries)) [
  | inl out ↦ simp out v
  | inr more ↦ simp more (
      put-Inv t _ i s
        (record s { retries = suc s.retries; status = running; started_at = some m.now }) e v refl
        (let b = All-get_elem? IsBounded t.state.stages i v.bounded e in ground arith) (omega arith)
        (omega arith))
]

step-Inv : (t : PipelineTracker) (o : Moment × Op) → Inv t → Inv (step t o).0
unfolding step
step-Inv t (m, add_stage s) v = record {
  bounded =
      All-append IsBounded t.state.stages (pending_stage s ∷ []) v.bounded
        ((refl, omega arith), tt);
  cost_covered = omega (arith, costs-append t.state.stages (pending_stage s));
  tokens_covered = omega (arith, token_counts-append t.state.stages (pending_stage s));
}
step-Inv t (m, start_stage i) v = elim (Option-cases (get_elem? t.state.stages i)) [
  | inl e ↦ rw e v
  | inr (s, e) ↦ rw e (
      put-Inv t _ i s _ e v refl (All-get_elem? IsBounded t.state.stages i v.bounded e)
        (omega arith) (omega arith))
]
step-Inv t (m, complete_stage i r) v = elim (Option-cases (get_elem? t.state.stages i)) [
  | inl e ↦ rw e v
  | inr (s, e) ↦ rw e (
      put-Inv t _ i s _ e v refl (All-get_elem? IsBounded t.state.stages i v.bounded e)
        (omega arith) (omega arith))
]
step-Inv t (m, fail_stage i x) v = elim (Option-cases (get_elem? t.state.stages i)) [
  | inl e ↦ rw e v
  | inr (s, e) ↦ rw e (
      put-Inv t _ i s _ e v refl (All-get_elem? IsBounded t.state.stages i v.bounded e)
        (omega arith) (omega arith))
]
step-Inv t (m, retry_stage i) v = retry-Inv m i (get_elem? t.state.stages i) t refl v
step-Inv t (m, complete) v = record {
  bounded = v.bounded;
  cost_covered = v.cost_covered;
  tokens_covered = v.tokens_covered;
}
step-Inv t (m, fail) v = record {
  bounded = v.bounded;
  cost_covered = v.cost_covered;
  tokens_covered = v.tokens_covered;
}

pub fail_stage-out :
    (m : Moment) (i : ℕ) (why : Text) (t : PipelineTracker)
    → get_elem? t.state.stages i ≡ none
    → (step t (m, fail_stage i why)).0 ≡ t
unfolding step break_stage
fail_stage-out m i why t e = rw e

run-Inv' : (t : PipelineTracker) (os : List (Moment × Op)) → Inv t → Inv (run t os)
unfolding run
run-Inv' t [] v = v
run-Inv' t (o ∷ os) v = run-Inv' (step t o).0 os (step-Inv t o v)

-- After any operations on a new tracker, whatever the clock says and whichever writes fail: every
-- stage has been retried at most three times, and the total cost and the total of tokens cover the
-- sums over the stages.
pub stages-Inv :
    (id name chain task : Text) (now : ℕ) (file : Option PipelineState) (os : List (Moment × Op))
    → Inv (run (new_tracker id name chain task now file) os)
unfolding new_tracker
stages-Inv id name chain task now file os =
    run-Inv' _ os
      (record { bounded = tt; cost_covered = omega arith; tokens_covered = omega arith })
