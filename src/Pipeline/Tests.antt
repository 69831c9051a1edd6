-- ===== src/Pipeline/Tests.antt =====
-- A run of the pipeline tracker, and its laws at concrete operations.
use multi_agent_engine.Common.{◌≡◌, ◌≤◌, refl, true, some, none, List, [], ◌∷◌}
use multi_agent_engine.Pipeline.{
  Text, team, Moment, NewStage, StageResult, Op, add_stage, start_stage, complete_stage,
  retry_stage, PipelineTracker, step, run, new_tracker, resume, is_session_id,
  get_next_pending_stage,
}
use multi_agent_engine.Pipeline.Retries.{granted, granted-le}
use multi_agent_engine.Pipeline.Resume.{run-resume}

abbrev session : Text
session =
    b'0' ∷ b'0' ∷ b'0' ∷ b'0' ∷ b'0' ∷ b'0' ∷ b'0' ∷ b'0' ∷ b'-' ∷ b'a' ∷ b'a' ∷ b'a' ∷ b'a' ∷ b'-'
    ∷ b'b' ∷ b'b' ∷ b'b' ∷ b'b' ∷ b'-' ∷ b'c' ∷ b'c' ∷ b'c' ∷ b'c' ∷ b'-' ∷ b'1' ∷ b'1' ∷ b'1'
    ∷ b'1' ∷ b'1' ∷ b'1' ∷ b'1' ∷ b'1' ∷ b'1' ∷ b'1' ∷ b'1' ∷ b'F' ∷ []

session_valid : is_session_id session ≡ true
unfolding is_session_id
session_valid = refl

abbrev written : Moment
written = record { now = 5; saved = 6; writes = true }

abbrev review_team : NewStage
review_team = record {
  name = [];
  kind = team;
  team_name = none;
  agent_name = none;
  parallel_teams = none;
}

abbrev graded : StageResult
graded = record { grade = none; cost = 7; tokens = 90; output = none }

abbrev ops : List (Moment × Op)
ops =
    (written, add_stage review_team)
    ∷ (written, start_stage 0)
    ∷ (written, retry_stage 0)
    ∷ (written, complete_stage 0 graded)
    ∷ (written, add_stage review_team)
    ∷ []

tracker : PipelineTracker
unfolding new_tracker
tracker = new_tracker session [] [] [] 1 none

second_is_next : get_next_pending_stage (run tracker ops) ≡ some 1
unfolding get_next_pending_stage run step tracker
second_is_next = refl

granted-le_example : granted 0 (new_tracker session [] [] [] 1 none) ops ≤ 3
granted-le_example = granted-le session [] [] [] 1 none ops 0

run-resume_example : resume session (run tracker ops).file ≡ some (run tracker ops)
unfolding tracker is_session_id
run-resume_example =
    run-resume tracker written review_team
      ((written, start_stage 0)
        ∷ (written, retry_stage 0)
        ∷ (written, complete_stage 0 graded)
        ∷ (written, add_stage review_team)
        ∷ [])
      refl (refl, (refl, (refl, (refl, (refl, tt)))))
