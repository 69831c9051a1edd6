-- ===== src/Ralph/Tests.antt =====
-- A mutation of a persona's file, and the laws of the ratchet at it.
use multi_agent_engine.Common.{◌≡◌, refl, String, Bool, true, false, some, List, [], ◌∷◌}
use multi_agent_engine.Ralph.{
  JudgeScores, Golden, replayed, RatchetConfig, Trial, LoopConfig, MutationStatus, accepted,
  dry_run, returns, select_goldens, ratchet, verify_mutation, run_ralph_loop,
}
use multi_agent_engine.Ralph.Laws.{Honest, ratchet-Honest}
use multi_agent_engine.Ralph.Rounds.{Safe, verify_mutation-Safe}

abbrev good : JudgeScores
good = record { overall_quality = 80; release_readiness = 70 }

abbrev golden : Golden
golden = record { matches = true; total_cost = some 100; scores = some good }

abbrev config : Bool → RatchetConfig
config dry = record {
  min_coverage = 1;
  max_cost_multiplier = 2000;
  max_judge_regression = 10;
  require_scores = false;
  dry_run = dry;
}

abbrev trial : Trial
trial = record {
  is_persona = true;
  is_investigation = false;
  file = some 0;
  loaded = golden ∷ [];
  mutate = λ text. "new";
  is_valid = λ text. true;
  replay = λ k. replayed 0 (some 150) good;
  writes = λ k. true;
  journals_success = true;
  journals_rejection = true;
}

abbrev store : List String
store = "old" ∷ "other" ∷ []

accepts : verify_mutation (config false) trial store ≡ (returns accepted, "new" ∷ "other" ∷ [])
unfolding verify_mutation ratchet select_goldens
accepts = refl

restores : verify_mutation (config true) trial store ≡ (returns dry_run, store)
unfolding verify_mutation ratchet select_goldens
restores = refl

ratchet-Honest_example :
    let r = ratchet (config false) trial "old" in Honest (config false) trial "old" r.0 r.1
ratchet-Honest_example = ratchet-Honest (config false) trial "old"

verify_mutation-Safe_example :
    let r = verify_mutation (config false) trial store in Safe (config false) trial store r.0 r.1
verify_mutation-Safe_example = verify_mutation-Safe (config false) trial store

abbrev loop : LoopConfig
loop = record { max_iterations = 5; apply = true; ratchet = config true }

abbrev results : List MutationStatus
results = dry_run ∷ dry_run ∷ []

two_results : (run_ralph_loop loop (trial ∷ trial ∷ []) store).0 ≡ some results
unfolding run_ralph_loop verify_mutation ratchet select_goldens
two_results = refl
