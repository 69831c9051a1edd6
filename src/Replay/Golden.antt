-- ===== src/Replay/Golden.antt =====
-- The registry of golden traces of engine/replay.ts. The file of the registry is its entries, or nothing
-- where it is missing or cannot be read; writing it does not fail. `load` is loadTrace for an identifier,
-- and the dates of the entries are left out. A file that holds JSON other than a list, at which the code
-- would throw, is none of the files here.
pub mod Laws
use multi_agent_engine.Common.{
  ℕ, Bool, true, false, not, ◌&&◌, ◌⊎◌, inl, inr, Option, none, some, or_else, List, [], ◌∷◌, any,
  keep, length, ◌-◌, if◌then◌else◌,
}
use multi_agent_engine.Pipeline.{Text}
use multi_agent_engine.SpawnDecision.Paths.{text_eq}
use multi_agent_engine.Replay.{TraceEvent, SessionTrace, is_type}
use multi_agent_engine.Replay.Score.{Overall, ReplayScore, fails, score_session}

pub data Verdict : Type 0 where
  pass fail : Verdict

pub record GoldenEntry : Type 0 where
  pub session_id : Text
  pub goal : Text
  pub verdict : Verdict
  pub notes : Option Text

abbrev pub Registry : Type 0
Registry = Option (List GoldenEntry)

-- `getGoldenTraces`
abbrev pub get_golden_traces : Registry → List GoldenEntry
get_golden_traces file = or_else file []

abbrev pub is_of : Text → GoldenEntry → Bool
is_of id e = text_eq e.session_id id

-- The entry takes the place of the first with its identifier, or the last place.
unfoldable pub put_entry : GoldenEntry → List GoldenEntry → List GoldenEntry
put_entry e [] = e ∷ []
put_entry e (x ∷ xs) =
    let rest = put_entry e xs in if is_of e.session_id x then e ∷ xs else x ∷ rest

abbrev goal_of : Option SessionTrace → Text
goal_of none = []
goal_of (some t) = t.goal

abbrev pub golden_entry : (Text → Option SessionTrace) → Text → Verdict → Option Text → GoldenEntry
golden_entry load id verdict notes = record {
  session_id = id;
  goal = goal_of (load id);
  verdict = verdict;
  notes = notes;
}

unfoldable pub add_golden_trace :
    (Text → Option SessionTrace) → Text → Verdict → Option Text → Registry → Registry
unfolding put_entry
add_golden_trace load id verdict notes file =
    some (put_entry (golden_entry load id verdict notes) (get_golden_traces file))

pub data Refusal : Type 0 where
  not_loaded without_force no_llm_call no_step_start : Refusal

pub record GoldenValidationSummary : Type 0 where
  pub session_id : Text
  pub goal : Text
  pub chain : Text
  pub verdict : Verdict
  pub event_count : ℕ
  pub total_cost : Option ℕ
  pub score_overall : Overall
  pub passed_checks : ℕ
  pub failed_checks : ℕ
  pub has_llm_call : Bool
  pub has_chain_step_start : Bool

abbrev pub is_fail : Verdict → Bool
is_fail pass = false
is_fail fail = true

abbrev pub llm_call : SessionTrace → Bool
llm_call t = any (is_type "llm.call") t.events

abbrev pub step_start : SessionTrace → Bool
step_start t = any (is_type "chain.step.start") t.events

abbrev pub summary : SessionTrace → Text → Verdict → GoldenValidationSummary
summary t id verdict =
    let score = score_session t in
    let failed = length (keep fails score.checks) in
    record {
      session_id = id;
      goal = t.goal;
      chain = t.chain;
      verdict = verdict;
      event_count = length t.events;
      total_cost = t.total_cost;
      score_overall = score.overall;
      passed_checks = length score.checks - failed;
      failed_checks = failed;
      has_llm_call = llm_call t;
      has_chain_step_start = step_start t;
    }

unfoldable pub validate_trace :
    SessionTrace → Text → Verdict → Bool → Refusal ⊎ GoldenValidationSummary
validate_trace t id verdict force =
    if is_fail verdict && not force
    then inl without_force
    else if not (llm_call t)
    then inl no_llm_call
    else if not (step_start t)
    then inl no_step_start
    else inr (summary t id verdict)

unfoldable pub validate_golden_trace :
    Option SessionTrace → Text → Verdict → Bool → Refusal ⊎ GoldenValidationSummary
unfolding validate_trace
validate_golden_trace none id verdict force = inl not_loaded
validate_golden_trace (some t) id verdict force = validate_trace t id verdict force

-- The answer, and the file.
unfoldable pub add_validated_golden_trace :
    (Text → Option SessionTrace)
    → Text
    → Verdict
    → Option Text
    → Bool
    → Registry
    → (Refusal ⊎ GoldenValidationSummary) × Registry
unfolding validate_golden_trace add_golden_trace
add_validated_golden_trace load id verdict notes force file =
    elim (validate_golden_trace (load id) id verdict force) [
      | inl r ↦ (inl r, file)
      | inr s ↦ (inr s, add_golden_trace load id verdict notes file)
    ]
