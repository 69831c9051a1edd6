-- ===== src/Certification/Steering.antt =====
-- checkSteerEvents of engine/certification-validator.ts. The events of a trace are different objects, so
-- that `indexOf` gives the place of an event.
use multi_agent_engine.Common.{
  Bool, false, not, ◌&&◌, ◌||◌, Option, none, some, or_else, List, [], ◌∷◌, ◌++◌, any, all, keep,
  ◌==◌, if◌then◌else◌,
}
use multi_agent_engine.Pipeline.{Text}
use multi_agent_engine.SpawnDecision.{is_empty}
use multi_agent_engine.SpawnDecision.Paths.{text_eq, is_nil}
use multi_agent_engine.Certification.Event.{
  TraceEvent, SteerFields, required_leads, first_of, is_either, same, agent_id, is_steer_event,
}
use multi_agent_engine.Certification.Checks.{completes, participant}

pub data SteerIssue : Type 0 where
  unattended bad_authority bad_impact no_participant no_start no_end hides_leads : SteerIssue

-- `steerField`: the field in `data`, or else in the event.
abbrev pub field {ℓ} : {A : Type ℓ} → (SteerFields → Option A) → TraceEvent → Option A
field f e = first_of (f e.inner.steer) (f e.steer)

abbrev pub has_authority : TraceEvent → Bool
has_authority e = elim (field (λ s. s.authority) e) [ none ↦ false | some a ↦ a == 90 ]

abbrev pub has_impact : TraceEvent → Bool
has_impact e =
    let impact = field (λ s. s.impact) e in same impact "blocks_unattended" || same impact "none"

abbrev pub steered : TraceEvent → Text
steered e = or_else (field (λ s. s.participant_id) e) (agent_id e)

abbrev pub is_start_of : Text → TraceEvent → Bool
is_start_of pid e =
    let kind = first_of e.inner.kind e.kind in
    is_either "participant.start" "participant_start" e
    && (text_eq (participant e) pid && (same kind "web-steer" || same kind "cli-steer"))

abbrev pub is_end_of : Text → TraceEvent → Bool
is_end_of pid e = is_either "participant.end" "participant_end" e && text_eq (participant e) pid

abbrev pub start_part : List TraceEvent → TraceEvent → List SteerIssue
start_part before e = if any (is_start_of (steered e)) before then [] else no_start ∷ []

abbrev pub end_part : List TraceEvent → TraceEvent → List SteerIssue
end_part after e = if any (is_end_of (steered e)) after then [] else no_end ∷ []

-- The issues of a steering action, with the events before it and after it.
unfoldable pub bracket_issues : List TraceEvent → TraceEvent → List TraceEvent → List SteerIssue
bracket_issues before e after =
    if is_nil (steered e) then no_participant ∷ [] else start_part before e ++ end_part after e

abbrev pub bracket_part : List TraceEvent → TraceEvent → List TraceEvent → List SteerIssue
bracket_part before e after = if is_steer_event e then bracket_issues before e after else []

-- The loop over the steering actions; `before` are the events before, the last one first.
unfoldable pub brackets : List TraceEvent → List TraceEvent → List SteerIssue
unfolding bracket_issues
brackets before [] = []
brackets before (e ∷ es) = bracket_part before e es ++ brackets (e ∷ before) es

is_stop : TraceEvent → Bool
is_stop e =
    is_steer_event e
    && (same (field (λ s. s.intent) e) "stop" || same (field (λ s. s.action) e) "stop")

-- The events before the last stop, if there is a stop.
before_last_stop : List TraceEvent → Option (List TraceEvent)
unfolding is_stop
before_last_stop [] = none
before_last_stop (e ∷ es) = elim (before_last_stop es) [
  | some rest ↦ some (e ∷ rest)
  | none ↦ if is_stop e then some [] else none
]

-- A stop that keeps a required lead from completing.
unfoldable pub hiding_issues : List TraceEvent → List SteerIssue
unfolding before_last_stop
hiding_issues events = elim (before_last_stop events) [
  | none ↦ []
  | some before ↦
      if all (λ req. any (completes req) before) required_leads then [] else hides_leads ∷ []
]

abbrev pub unattended_part : Bool → List TraceEvent → List SteerIssue
unattended_part interactive steers =
    if not interactive && not (is_empty steers) then unattended ∷ [] else []

abbrev pub authority_part : List TraceEvent → List SteerIssue
authority_part steers = if all has_authority steers then [] else bad_authority ∷ []

abbrev pub impact_part : List TraceEvent → List SteerIssue
impact_part steers = if all has_impact steers then [] else bad_impact ∷ []

abbrev pub hiding_part : Bool → List TraceEvent → List TraceEvent → List SteerIssue
hiding_part interactive steers events =
    if interactive && not (is_empty steers) then hiding_issues events else []

unfoldable pub check_steer_events : List TraceEvent → Bool → List SteerIssue
unfolding brackets hiding_issues
check_steer_events events interactive =
    let steers = keep is_steer_event events in
    unattended_part interactive steers
    ++ (authority_part steers
        ++ (impact_part steers ++ (brackets [] events ++ hiding_part interactive steers events)))
