-- ===== src/Session.antt =====
-- The lifecycle of a session's status: engine/session-state.ts and `SessionState.status` of
-- engine/types.ts.
pub mod Laws
mod Tests
use multi_agent_engine.Common.{
  Bool, true, false, Option, none, some, List, [], ◌∷◌, any, if◌then◌else◌,
}

pub data SessionStatus : Type 0 where
  active paused completed error : SessionStatus

-- What the field holds at run time: the code casts a string, so any other text may stand there.
pub data Status : Type 0 where
  known : SessionStatus → Status
  unknown : Status

abbrev pub same_status : SessionStatus → SessionStatus → Bool
same_status active active = true
same_status paused paused = true
same_status completed completed = true
same_status error error = true
same_status _ _ = false

-- `VALID_TRANSITIONS[current]`, which is undefined for an unknown text.
valid_transitions : Status → Option (List SessionStatus)
valid_transitions (known active) = some (paused ∷ completed ∷ error ∷ [])
valid_transitions (known paused) = some (active ∷ completed ∷ error ∷ [])
valid_transitions (known completed) = some []
valid_transitions (known error) = some []
valid_transitions unknown = none

abbrev includes : Option (List SessionStatus) → SessionStatus → Bool
includes none s = false
includes (some allowed) s = any (same_status s) allowed

-- The new status of the session, and whether the transition was made.
unfoldable pub transition_status : Status → SessionStatus → Status × Bool
unfolding valid_transitions
transition_status current new_status =
    if includes (valid_transitions current) new_status
    then (known new_status, true)
    else (current, false)

-- Requests by several sources, in the order in which they come.
unfoldable pub requests : Status → List SessionStatus → Status
requests s [] = s
requests s (n ∷ ns) = requests (transition_status s n).0 ns
