-- ===== src/Replay/Tests.antt =====
-- A session of one step, its score, and its place in the registry.
use multi_agent_engine.Common.{
  map, ℕ, ◌≤◌, ◌⊎◌, String, ◌≡◌, ◌↔◌, refl, true, false, Option, none, some, List, [], ◌∷◌, ◌++◌,
}
use multi_agent_engine.Pipeline.{Text}
use multi_agent_engine.Team.Names.{codes}
use multi_agent_engine.Replay.{
  TraceEvent, SessionTrace, BehavioralFingerprint, load_trace, extract_fingerprint, read_events,
  read_event,
}
use multi_agent_engine.Replay.Compare.{
  tools, ratio, compare_fingerprints, sequence_similarity, diffs_of, as_set, bigrams, jaccard,
  common,
}
use multi_agent_engine.Replay.Compare.Laws.{
  swap, IsRating, compare_fingerprints-IsRating, compare_fingerprints_sym,
}
use multi_agent_engine.Replay.Score.{
  pass, is_completed, score_session, checks_of, all_steps_ran, unmatched_starts, duplicate_ends,
}
use multi_agent_engine.Replay.Score.Clean.{score_session-error_count}
use multi_agent_engine.Replay.Score.Laws.{EndsOnce, score_session-EndsOnce}
use multi_agent_engine.Replay.Golden.{
  pass as good, fail as bad, Registry, add_validated_golden_trace,
}
use multi_agent_engine.Replay.Golden.Laws.{Promoted, add_validated_golden_trace-Promoted}

abbrev an_event : String → String → TraceEvent
an_event type id = record {
  type = type;
  id = codes id;
  step = none;
  tool = none;
  team = none;
  status = none;
  level = none;
  goal = none;
  task_preview = none;
  chain = none;
  total_cost = none;
}

abbrev opening : List TraceEvent
opening = record (an_event "session.start" "s") { goal = some (codes "fix") } ∷ []

abbrev step_begins : TraceEvent
step_begins = an_event "chain.step.start" "step-1"

abbrev finish : List TraceEvent
finish =
    an_event "llm.call" "m"
    ∷ record (an_event "tool.call" "t") { tool = some (codes "read") }
    ∷ record (an_event "tool.call" "t") { tool = some (codes "edit") }
    ∷ record (an_event "tool.call" "t") { tool = some (codes "bash") }
    ∷ record (an_event "chain.step.end" "step-1") { status = some (codes "completed") }
    ∷ record (an_event "session.end" "s") {
      status = some (codes "completed");
      total_cost = some 320;
    }
    ∷ []

abbrev session : SessionTrace
session = record {
  session_id = codes "s";
  goal = codes "fix";
  chain = [];
  status = codes "completed";
  events = opening ++ step_begins ∷ finish;
  total_cost = some 320;
}

loaded : load_trace (codes "s") (opening ++ step_begins ∷ finish) ≡ some session
unfolding load_trace
loaded = refl

session_passes : (score_session session).overall ≡ pass
unfolding score_session checks_of all_steps_ran unmatched_starts duplicate_ends as_set
session_passes = refl

abbrev other : BehavioralFingerprint
other = record (extract_fingerprint session) {
  tool_sequence = codes "read" ∷ codes "edit" ∷ codes "read" ∷ [];
}

-- One pair of tools of three is shared.
one_third :
    (compare_fingerprints (extract_fingerprint session) other).diffs ≡ tools 3 3 (ratio 1 3) ∷ []
unfolding compare_fingerprints diffs_of sequence_similarity as_set bigrams jaccard common
    extract_fingerprint read_events read_event
one_third = refl

compare_fingerprints-IsRating_example :
    let c = compare_fingerprints (extract_fingerprint session) other in
    IsRating c.similarity × ((c.similarity.part ≡ c.similarity.whole) ↔ (c.diffs ≡ []))
compare_fingerprints-IsRating_example =
    compare_fingerprints-IsRating (extract_fingerprint session) other

compare_fingerprints_sym_example :
    let a = extract_fingerprint session in
    ((compare_fingerprints other a).similarity ≡ (compare_fingerprints a other).similarity)
    × ((compare_fingerprints other a).diffs ≡ map swap (compare_fingerprints a other).diffs)
    × ((compare_fingerprints a a).diffs ≡ [])
compare_fingerprints_sym_example = compare_fingerprints_sym (extract_fingerprint session) other

score_session-EndsOnce_example : (is_completed session ≡ true) × EndsOnce opening step_begins finish
score_session-EndsOnce_example =
    score_session-EndsOnce session opening step_begins finish refl session_passes refl

abbrev find_session : Text → Option SessionTrace
find_session id = some session

abbrev golden : Registry
golden = some (
    record { session_id = codes "r"; goal = []; verdict = good; notes = none }
    ∷ record { session_id = codes "s"; goal = []; verdict = bad; notes = none }
    ∷ [])

add_validated_golden_trace-Promoted_example :
    Promoted find_session
      (codes "s")
      good
      none
      false
      golden
      (add_validated_golden_trace find_session (codes "s") good none false golden)
add_validated_golden_trace-Promoted_example =
    add_validated_golden_trace-Promoted find_session (codes "s") good none false golden

score_session-error_count_example :
    ((score_session session).fingerprint.error_count ≡ 0)
    × ((session.total_cost ≡ none) ⊎ ((cost : ℕ) × (session.total_cost ≡ some cost) × (cost ≤ 500)))
score_session-error_count_example = score_session-error_count session session_passes
