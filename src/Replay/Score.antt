-- ===== src/Replay/Score.antt =====
-- scoreSession of engine/replay.ts. Costs are in cents.
pub mod Laws
pub mod Clean
use multi_agent_engine.Common.{
  ℕ, zero, suc, String, Bool, true, false, not, ◌&&◌, ◌||◌, Option, none, some, or_else, List, [],
  ◌∷◌, any, keep, map, length, ltb, leb, ◌==◌, if◌then◌else◌,
}
use multi_agent_engine.Pipeline.{Text}
use multi_agent_engine.SpawnDecision.{is_empty}
use multi_agent_engine.SpawnDecision.Paths.{text_eq}
use multi_agent_engine.Team.Names.{codes}
use multi_agent_engine.Replay.{
  TraceEvent, SessionTrace, BehavioralFingerprint, is_type, is_error_level, extract_fingerprint,
}
use multi_agent_engine.Replay.Compare.{as_set}

abbrev pub step_key : TraceEvent → Text
step_key e = or_else e.step e.id

abbrev pub is_start : TraceEvent → Bool
is_start e = is_type "chain.step.start" e

abbrev pub is_end : TraceEvent → Bool
is_end e = is_type "chain.step.end" e

abbrev pub ends_step : Text → TraceEvent → Bool
ends_step key e = is_end e && text_eq (step_key e) key

abbrev pub completed : Option Text → Bool
completed none = false
completed (some s) = text_eq s (codes "completed")

-- The starts of steps with no end of the same step after them.
unfoldable pub unmatched_starts : List TraceEvent → ℕ
unmatched_starts [] = 0
unmatched_starts (e ∷ es) =
    let rest = unmatched_starts es in
    if is_start e && not (any (ends_step (step_key e)) es) then suc rest else rest

abbrev pub is_unfinished : TraceEvent → Bool
is_unfinished e = is_end e && not (completed e.status)

abbrev pub ends_of : Text → List TraceEvent → ℕ
ends_of key events = length (keep (ends_step key) events)

abbrev pub ended_keys : List TraceEvent → List Text
ended_keys events = as_set (map step_key (keep is_end events))

-- The steps that do not end once.
unfoldable pub duplicate_ends : List TraceEvent → List Text
duplicate_ends events = keep (λ key. not (ends_of key events == 1)) (ended_keys events)

unfoldable pub all_steps_ran : List TraceEvent → Bool
unfolding unmatched_starts duplicate_ends
all_steps_ran events =
    let starts = length (keep is_start events) in
    ltb 0 starts
    && (starts == length (keep is_end events)
        && (unmatched_starts events == 0
            && (is_empty (keep is_unfinished events) && is_empty (duplicate_ends events))))

pub data Overall : Type 0 where
  pass partial fail : Overall

pub data CheckName : Type 0 where
  session_completed all_steps_executed no_agent_failures no_error_logs cost_reasonable : CheckName

pub record ReplayScore : Type 0 where
  pub session_id : Text
  pub overall : Overall
  pub checks : List (CheckName × Bool)
  pub fingerprint : BehavioralFingerprint

abbrev max_cost : ℕ
max_cost = 500

abbrev pub cost_ok : Option ℕ → Bool
cost_ok none = true
cost_ok (some c) = leb c max_cost

abbrev pub is_completed : SessionTrace → Bool
is_completed t = text_eq t.status (codes "completed")

unfoldable pub checks_of : SessionTrace → List (CheckName × Bool)
unfolding all_steps_ran
checks_of t =
    (session_completed, is_completed t)
    ∷ (all_steps_executed, all_steps_ran t.events)
    ∷ (no_agent_failures, is_empty (keep (is_type "agent.error") t.events))
    ∷ (no_error_logs, is_empty (keep (λ e. is_error_level e.level) t.events))
    ∷ (cost_reasonable, cost_ok t.total_cost)
    ∷ []

abbrev pub fails : CheckName × Bool → Bool
fails (n, b) = not b

unfoldable pub score_session : SessionTrace → ReplayScore
unfolding extract_fingerprint checks_of
score_session t = record {
  session_id = t.session_id;
  overall =
      if is_empty (keep fails (checks_of t))
      then pass
      else if not (is_completed t)
      then fail
      else partial;
  checks = checks_of t;
  fingerprint = extract_fingerprint t;
}
