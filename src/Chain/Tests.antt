-- ===== src/Chain/Tests.antt =====
-- The laws of the chain's runner at concrete chains, commands and actions.
use multi_agent_engine.Common.{
  Option, Memᴰ, All, map, ℕ, zero, suc, ◌≡◌, refl, true, false, some, none, List, [], ◌∷◌, length,
  arith,
}
use multi_agent_engine.Session.{known, active, transition_status}
use multi_agent_engine.Pipeline.{Moment}
use multi_agent_engine.Chain.TillDone.{ChainStep, text, build_till_done, mark_till_done}
use multi_agent_engine.Chain.TillDone.Laws.{mark_first, count_upto, mark_till_done-mark_first}
use multi_agent_engine.Chain.Deterministic.{
  loop, CommandRun, exits, throws, output, run_deterministic_step,
}
use multi_agent_engine.Chain.Feedback.{
  Grade, perfect, verified, partial, feedback, failed, StepResult, StepConfig, grade_of,
  worst_result, worst_grade, completed, ends, end_step,
}
use multi_agent_engine.Chain.Feedback.Worst.{IsBelow, IsGraded, worst_result-worst_grade}
use multi_agent_engine.Chain.Feedback.Laws.{EndsWithin, allowed, end_step-EndsWithin}
use multi_agent_engine.Chain.Actions.{
  Action, pause, reassign, skip_step, spawn_team, Runner, drain_actions,
}
use multi_agent_engine.Chain.Actions.Laws.{Kept, drain_actions-Kept}

abbrev plan : ChainStep
plan = record {
  team = some "planning";
  agent = none;
  till_done = some (text "spec" ∷ text "tasks" ∷ []);
}

abbrev build : ChainStep
build = record { team = some "engineering"; agent = none; till_done = none }

abbrev steps : List ChainStep
steps = plan ∷ build ∷ build ∷ []

mark_till_done-mark_first_example :
    mark_till_done (build_till_done steps) 0 steps
    ≡ mark_first (count_upto 0 steps) (build_till_done steps)
mark_till_done-mark_first_example = mark_till_done-mark_first (build_till_done steps) 0 steps

-- A command that fails twice and then exits with 0.
abbrev flaky : ℕ → CommandRun
flaky zero = throws
flaky (suc zero) = exits 1 []
flaky (suc (suc n)) = exits 0 (7 ∷ [])

third_run : run_deterministic_step (some loop) none flaky ≡ (output (7 ∷ []), 3)
unfolding run_deterministic_step
third_run = refl

abbrev moment : Moment
moment = record { now = 1; saved = 1; writes = true }

abbrev queue : List (Moment × Action)
queue =
    (moment, skip_step 2 [])
    ∷ (moment, reassign 1 "review")
    ∷ (moment, spawn_team "docs")
    ∷ (moment, pause)
    ∷ []

abbrev runner : Runner
runner = record {
  status = known active;
  is_held = false;
  skipped = [];
  steps = steps;
  pipeline = none;
}

spawned : length (drain_actions 3 0 queue runner).1.steps ≡ 4
unfolding drain_actions transition_status
spawned = refl

drain_actions-Kept_example : Kept 3 0 runner (drain_actions 3 0 queue runner).1
drain_actions-Kept_example = drain_actions-Kept 3 0 queue runner (omega arith)

abbrev graded : Grade → StepResult
graded g = record { grade = some g; cost = 4; tokens = 50 }

worst_result-worst_grade_example :
    Memᴰ (worst_result (graded partial) (graded failed ∷ [])) (graded partial ∷ graded failed ∷ [])
    × All
        (IsBelow (worst_result (graded partial) (graded failed ∷ [])))
        (graded partial ∷ graded failed ∷ [])
    × (All IsGraded (graded partial ∷ graded failed ∷ [])
        → worst_grade (map grade_of (graded partial ∷ graded failed ∷ []))
          ≡ (worst_result (graded partial) (graded failed ∷ [])).grade)
worst_result-worst_grade_example = worst_result-worst_grade (graded partial) (graded failed ∷ [])

abbrev checked : StepConfig
checked = record {
  can_retry = true;
  max_attempts = none;
  has_till_done = true;
  certification = false;
}

-- The first retry is still incomplete, the second one is verified.
abbrev teams : ℕ → Option StepResult
teams zero = some (graded feedback)
teams (suc n) = some (graded verified)

abbrev failed_parallel : Option (List StepResult)
failed_parallel = some (graded perfect ∷ graded failed ∷ [])

second_retry :
    end_step checked true teams none failed_parallel
    ≡ ends (record {
      status = completed;
      grade = some verified;
      told = some (4, 50);
      marked = true;
      attempts = 2;
    })
unfolding end_step worst_result
second_retry = refl

end_step-EndsWithin_example :
    EndsWithin checked teams
      (allowed checked none failed_parallel)
      (end_step checked true teams none failed_parallel)
end_step-EndsWithin_example = end_step-EndsWithin checked true teams none failed_parallel
