-- ===== src/Certification/Spawns.antt =====
-- checkSpawnDecisions of engine/certification-validator.ts, with validateTraceSpawnDecision. Its
-- hasUnsafeTracePath and tracePathCovers are hasUnsafePath and pathCovers of
-- engine/spawn-decision.ts, word for word.
use multi_agent_engine.Common.{
  ℕ, suc, Bool, false, not, ◌&&◌, ◌||◌, Option, none, some, or_else, List, [], ◌∷◌, ◌++◌, any,
  String, str_eq, ltb, if◌then◌else◌,
}
use multi_agent_engine.Pipeline.{Text}
use multi_agent_engine.SpawnDecision.{
  SpawnDecision, SpawnError, check, is_empty, validate_spawn_decision, unsafe_paths, covered_paths,
  unavailable,
}
use multi_agent_engine.SpawnDecision.Paths.{text_eq, is_nil}
use multi_agent_engine.Team.Names.{codes, key_of}
use multi_agent_engine.Certification.Event.{
  TraceEvent, agent_id, mae_agent_id, is_worker_spawn, is_either,
}

wildcard_tools : List String → List SpawnError
wildcard_tools [] = []
wildcard_tools (t ∷ ts) = check (str_eq t "*") (unavailable t) ++ wildcard_tools ts

-- `validateTraceSpawnDecision`: the errors.
unfoldable pub trace_decision_errors : SpawnDecision → List SpawnError
unfolding wildcard_tools
trace_decision_errors d =
    validate_spawn_decision d
    ++ (if d.need_worker
        then unsafe_paths (d.allowed_paths ++ d.forbidden_paths)
          ++ (wildcard_tools d.allowed_tools ++ covered_paths d.allowed_paths d.forbidden_paths)
        else [])

-- An event with a decision, with its place in the trace.
pub record DecisionEvent : Type 0 where
  pub event : TraceEvent
  pub decision : SpawnDecision
  pub index : ℕ

-- `eventSpawnDecision` is null for other events.
unfoldable pub decision_events : ℕ → List TraceEvent → List DecisionEvent
decision_events i [] = []
decision_events i (e ∷ es) =
    let rest = decision_events (suc i) es in
    elim e.decision [
      | none ↦ rest
      | some d ↦
          if is_either "spawn.decision" "spawn_decision" e
          then record { event = e; decision = d; index = i } ∷ rest
          else rest
    ]

abbrev pub decided_name : SpawnDecision → Text
decided_name d = key_of (codes (or_else d.worker_name ""))

abbrev session_of : TraceEvent → Text
session_of e = or_else e.session_id []

abbrev pub decision_key : DecisionEvent → Text
decision_key d = session_of d.event ++ b':' ∷ (agent_id d.event ++ b':' ∷ decided_name d.decision)

pub data SpawnFailure : Type 0 where
  invalid duplicate : DecisionEvent → SpawnFailure
  undecided late : TraceEvent → SpawnFailure

abbrev pub invalid_part : DecisionEvent → List SpawnFailure
invalid_part d = if is_empty (trace_decision_errors d.decision) then [] else invalid d ∷ []

abbrev pub duplicate_part : List Text → DecisionEvent → List SpawnFailure
duplicate_part seen d = if any (text_eq (decision_key d)) seen then duplicate d ∷ [] else []

-- The loop over the decisions, with the keys seen.
unfoldable pub decision_failures : List Text → List DecisionEvent → List SpawnFailure
decision_failures seen [] = []
decision_failures seen (d ∷ ds) =
    invalid_part d ++ (duplicate_part seen d ++ decision_failures (decision_key d ∷ seen) ds)

-- `a || b` on texts
abbrev or_text : Text → Text → Text
or_text a b = if is_nil a then b else a

abbrev canonical_id : TraceEvent → Text
canonical_id e = or_text (mae_agent_id e) (agent_id e)

abbrev parents_differ : Option Text → Option Text → Bool
parents_differ (some a) (some b) = not (is_nil a) && (not (is_nil b) && not (text_eq a b))
parents_differ _ _ = false

-- Whether a decision is for a spawn.
unfoldable pub is_for : TraceEvent → DecisionEvent → Bool
is_for spawn d =
    let decided_id = canonical_id d.event in
    let id_key = key_of (canonical_id spawn) in
    let name_key = key_of (or_else spawn.inner.agent_name (agent_id spawn)) in
    text_eq (session_of d.event) (session_of spawn)
    && (not (not (is_nil decided_id) && not (text_eq decided_id (canonical_id spawn)))
        && (not (parents_differ d.event.parent_id spawn.parent_id)
            && (text_eq (decided_name d.decision) name_key
                || (text_eq (decided_name d.decision) id_key
                    || text_eq (key_of decided_id) id_key))))

unfoldable pub find_decision : TraceEvent → List DecisionEvent → Option DecisionEvent
find_decision spawn [] = none
find_decision spawn (d ∷ ds) = if is_for spawn d then some d else find_decision spawn ds

unfoldable pub spawn_failure : List DecisionEvent → ℕ → TraceEvent → List SpawnFailure
spawn_failure ds i spawn = elim (find_decision spawn ds) [
  | none ↦ undecided spawn ∷ []
  | some d ↦ if ltb i d.index then late spawn ∷ [] else []
]

abbrev pub spawn_part : List DecisionEvent → ℕ → TraceEvent → List SpawnFailure
spawn_part ds i e = if is_worker_spawn e then spawn_failure ds i e else []

-- The loop over the spawns, from the i-th event on.
unfoldable pub spawn_failures : List DecisionEvent → ℕ → List TraceEvent → List SpawnFailure
unfolding spawn_failure
spawn_failures ds i [] = []
spawn_failures ds i (e ∷ es) = spawn_part ds i e ++ spawn_failures ds (suc i) es

-- `checkSpawnDecisions`
unfoldable pub check_spawn_decisions : List TraceEvent → Bool → List SpawnFailure
unfolding decision_failures
check_spawn_decisions events strict =
    let ds = decision_events 0 events in
    decision_failures [] ds ++ (if strict then spawn_failures ds 0 events else [])
