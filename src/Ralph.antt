-- ===== src/Ralph.antt =====
-- The ratchet of the self-improvement loop, verifyMutation and runRalphLoop of engine/ralph-loop.ts.
-- What applyMutation, validatePersonaRaw, the replays and the judge give are inputs, and so is the
-- outcome of each write; a write that fails leaves the file as it was.
pub mod Laws
pub mod Rounds
mod Tests
use multi_agent_engine.Common.{
  ℕ, zero, suc, ◌+◌, ◌*◌, String, Bool, true, false, not, ◌&&◌, ◌||◌, Option, none, some, List, [],
  ◌∷◌, ◌++◌, leb, ltb, ◌==◌, keep, length, get_elem?, set, str_eq, if◌then◌else◌, map,
}

pub record JudgeScores : Type 0 where
  pub overall_quality : ℕ
  pub release_readiness : ℕ

-- A golden trace: whether the mutation concerns it, its cost, and its judge's scores, if there are
-- any.
pub record Golden : Type 0 where
  pub matches : Bool
  pub total_cost : Option ℕ
  pub scores : Option JudgeScores

-- What comes of a replay: an exception of it or of the judge, or its failed checks, its cost and the
-- judge's scores.
pub data Replay : Type 0 where
  throws : Replay
  replayed : ℕ → Option ℕ → JudgeScores → Replay

-- The multiplier is in thousandths.
pub record RatchetConfig : Type 0 where
  pub min_coverage : ℕ
  pub max_cost_multiplier : ℕ
  pub max_judge_regression : ℕ
  pub require_scores : Bool
  pub dry_run : Bool

abbrev matches : Golden → Bool
matches g = g.matches

unfoldable pub select_goldens : ℕ → List Golden → List Golden
select_goldens min_coverage loaded =
    let targeted = keep matches loaded in
    if leb min_coverage (length targeted) then targeted else loaded

cost_ok : ℕ → Option ℕ → Option ℕ → Bool
cost_ok multiplier none replay = true
cost_ok multiplier (some golden) none = true
cost_ok multiplier (some golden) (some replay) =
    if golden == 0 then true else leb (1000 * replay) (golden * multiplier)

-- A regression is the larger of two differences.
judge_ok : RatchetConfig → Option JudgeScores → JudgeScores → Bool
judge_ok c none replay = not c.require_scores
judge_ok c (some golden) replay =
    leb golden.overall_quality (replay.overall_quality + c.max_judge_regression)
    && leb golden.release_readiness (replay.release_readiness + c.max_judge_regression)

test_golden : RatchetConfig → Golden → Replay → Bool
unfolding cost_ok judge_ok
test_golden c g throws = false
test_golden c g (replayed failed cost scores) =
    (failed == 0) && (cost_ok c.max_cost_multiplier g.total_cost cost && judge_ok c g.scores scores)

-- The loop over the goldens, up to the first that fails; `k` numbers the replays.
test_goldens : RatchetConfig → (ℕ → Replay) → ℕ → List Golden → Bool
unfolding test_golden
test_goldens c replay k [] = true
test_goldens c replay k (g ∷ gs) =
    let rest = test_goldens c replay (suc k) gs in
    if test_golden c g (replay k) then rest else false

pub data MutationStatus : Type 0 where
  suggested accepted rejected invalid no_change needs_verification dry_run : MutationStatus

pub data Outcome : Type 0 where
  returns : MutationStatus → Outcome
  raises : Outcome

-- One verification: the target, the goldens that were loaded, what the mutation makes of the file
-- and whether that is a persona, the replays, the outcomes of the writes of the file and of the two
-- last writes of the journal. The journal before the early returns is left out.
pub record Trial : Type 0 where
  pub is_persona : Bool
  pub is_investigation : Bool
  pub file : Option ℕ
  pub loaded : List Golden
  pub mutate : String → String
  pub is_valid : String → Bool
  pub replay : ℕ → Replay
  pub writes : ℕ → Bool
  pub journals_success : Bool
  pub journals_rejection : Bool

-- The file, and how often it was written.
pub record Disk : Type 0 where
  pub content : String
  pub count : ℕ

write : (ℕ → Bool) → String → Disk → Bool × Disk
write writes text d =
    if writes d.count
    then (true, record { content = text; count = suc d.count })
    else (false, record d { count = suc d.count })

-- How the body of `try` ends, with the variable `accepted` where it throws.
pub data Body : Type 0 where
  done : MutationStatus → Body
  thrown : Bool → Body

-- The end of the body, after the goldens have passed.
conclude : Bool → Trial → String → Disk → Body × Disk
unfolding write
conclude false t before d = (if t.journals_success then done accepted else thrown true, d)
conclude true t before d =
    let (ok, d') = write t.writes before d in
    (if ok && t.journals_success then done dry_run else thrown true, d')

try_mutation : RatchetConfig → Trial → List Golden → String → String → Disk → Body × Disk
unfolding write conclude test_goldens
try_mutation c t goldens before after d =
    let (ok, d') = write t.writes after d in
    let passed = conclude c.dry_run t before d' in
    if t.is_valid after
    then (if ok && test_goldens c t.replay 0 goldens then passed else (thrown false, d'))
    else (thrown false, d)

-- `catch`; the flag is `accepted`.
recover : Trial → String → Body × Disk → (Outcome × Bool) × Disk
unfolding write
recover t before (done s, d) = ((returns s, true), d)
recover t before (thrown flag, d) =
    let (ok, d') = write t.writes before d in
    ((if ok && t.journals_rejection then returns rejected else raises, flag), d')

-- `finally`.
restore : RatchetConfig → Trial → String → (Outcome × Bool) × Disk → Outcome × Disk
unfolding write
restore c t before ((o, flag), d) =
    let (_, d') = write t.writes before d in (o, if not flag || c.dry_run then d' else d)

-- The ratchet with the file's content.
unfoldable pub ratchet : RatchetConfig → Trial → String → Outcome × String
unfolding try_mutation recover restore
ratchet c t before =
    let goldens = select_goldens c.min_coverage t.loaded in
    let after = t.mutate before in
    let d : Disk = record { content = before; count = 0 } in
    let (o, d') = restore c t before (recover t before (try_mutation c t goldens before after d)) in
    if str_eq before after then (returns no_change, before) else (o, d'.content)

-- The file is there but cannot be read, or its content.
ratchet_file : RatchetConfig → Trial → ℕ → Option String → List String → Outcome × List String
unfolding ratchet
ratchet_file c t i none store = (returns invalid, store)
ratchet_file c t i (some before) store =
    let (o, content) = ratchet c t before in (o, set store i content)

find_file : RatchetConfig → Trial → Option ℕ → List String → Outcome × List String
unfolding ratchet_file
find_file c t none store = (returns invalid, store)
find_file c t (some i) store =
    let r = ratchet_file c t i (get_elem? store i) store in
    if ltb (length (select_goldens c.min_coverage t.loaded)) c.min_coverage
    then (returns needs_verification, store)
    else r

-- The personas' files are a list, and a file is its index.
unfoldable pub verify_mutation : RatchetConfig → Trial → List String → Outcome × List String
unfolding find_file
verify_mutation c t store =
    let r = find_file c t t.file store in
    if not t.is_persona || t.is_investigation then (returns needs_verification, store) else r

-- The loop of runRalphLoop, with the iterations left; it throws where a verification does.
pub record LoopConfig : Type 0 where
  pub max_iterations : ℕ
  pub apply : Bool
  pub ratchet : RatchetConfig

abbrev after_outcome :
    Outcome
    → List String
    → (List String → Option (List MutationStatus) × List String)
    → Option (List MutationStatus) × List String
after_outcome raises store rest = (none, store)
after_outcome (returns s) store rest =
    let (results, store') = rest store in
    (elim results [ none ↦ none | some ss ↦ some (s ∷ ss) ], store')

ralph_rounds :
    LoopConfig → ℕ → List Trial → List String → Option (List MutationStatus) × List String
ralph_rounds c zero ts store = (some [], store)
ralph_rounds c (suc n) [] store = (some [], store)
ralph_rounds c (suc n) (t ∷ ts) store =
    let (o, store') =
      if c.apply then verify_mutation c.ratchet t store else (returns suggested, store) in
    after_outcome o store' (ralph_rounds c n ts)

unfoldable pub run_ralph_loop :
    LoopConfig → List Trial → List String → Option (List MutationStatus) × List String
unfolding ralph_rounds
run_ralph_loop c ts store = ralph_rounds c c.max_iterations ts store
