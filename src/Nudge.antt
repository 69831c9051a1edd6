-- ===== src/Nudge.antt =====
-- Reminders to an agent that has stalled, engine/nudge.ts: shouldNudge and executeNudge. The clock, the
-- time that a model or the web search takes, what the search finds and whether an adapter is given are
-- inputs; the texts are left out, and a nudge is one step, taken to end before the next attempt.
pub mod Laws
mod Tests
use multi_agent_engine.Common.{
  ℕ, suc, ◌+◌, ◌-◌, Bool, true, false, not, ◌&&◌, ◌||◌, Option, none, some, List, [], ◌∷◌, ltb, leb,
  ◌==◌, if◌then◌else◌,
}

pub record NudgeState : Type 0 where
  pub nudge_count : ℕ
  pub last_nudge_at : ℕ
  pub escalated : Bool
  pub web_search_used : Bool

pub data NudgeType : Type 0 where
  rule_based llm_escalated web_search : NudgeType

-- An attempt: the clock at its start, how long it takes until the message goes out, whether the agent is
-- a lead or senior, whether an adapter is given, whether the search finds something, and whether the
-- event of the nudge is emitted.
pub record Attempt : Type 0 where
  pub now : ℕ
  pub took : ℕ
  pub is_senior : Bool
  pub has_adapter : Bool
  pub search_finds : Bool
  pub is_sent : Bool

abbrev pub create_nudge_state : NudgeState
create_nudge_state = record {
  nudge_count = 0;
  last_nudge_at = 0;
  escalated = false;
  web_search_used = false;
}

should_nudge : NudgeState → ℕ → Bool
should_nudge s now = if s.last_nudge_at == 0 then true else leb 30000 (now - s.last_nudge_at)

-- The type of the nudge, and the state with its flags.
choose : NudgeState → Attempt → NudgeType × NudgeState
choose s a =
    if ltb s.nudge_count 3
    then (rule_based, s)
    else if leb 4 s.nudge_count && (not s.web_search_used && a.is_senior)
    then if a.search_finds
      then (web_search, record s { web_search_used = true })
      else if a.has_adapter
      then (llm_escalated, s)
      else (rule_based, s)
    else if a.has_adapter
    then (llm_escalated, record s { escalated = true })
    else (rule_based, s)

-- A message to the agent: when its attempt started, when it went out, and whether it was counted.
pub record Delivery : Type 0 where
  pub started : ℕ
  pub sent_at : ℕ
  pub nudge_type : NudgeType
  pub is_counted : Bool

-- The message goes out; the count and the time are set after its event has been emitted.
send : Attempt → NudgeType × NudgeState → NudgeState × Option Delivery
send a (t, s) = (
  if a.is_sent then record s { nudge_count = suc s.nudge_count; last_nudge_at = a.now } else s,
  some (record {
    started = a.now;
    sent_at = a.now + a.took;
    nudge_type = t;
    is_counted = a.is_sent;
  }),
)

unfoldable pub execute_nudge : NudgeState → Attempt → NudgeState × Option Delivery
unfolding should_nudge choose send
execute_nudge s a = if should_nudge s a.now then send a (choose s a) else (s, none)

-- The messages, newest first.
abbrev record_nudge : Option Delivery → List Delivery → List Delivery
record_nudge none log = log
record_nudge (some d) log = d ∷ log

unfoldable pub run : NudgeState × List Delivery → List Attempt → NudgeState × List Delivery
run x [] = x
run (s, log) (a ∷ rest) = let (s', sent) = execute_nudge s a in run (s', record_nudge sent log) rest
