-- ===== src/Chain/Actions.antt =====
-- The orchestrator's actions on a running chain: processLoopAction of engine/chain-runner.ts and the
-- loop of runChain that takes them from the queue. Messages are left out.
pub mod Laws
use multi_agent_engine.Common.{
  ℕ, ◌+◌, String, Bool, true, false, ◌&&◌, ◌||◌, Option, none, some, List, [], ◌∷◌, ◌++◌, ltb, leb,
  ◌==◌, length, get_elem?, set, if◌then◌else◌,
}
use multi_agent_engine.Session.{Status, known, unknown, paused, transition_status}
use multi_agent_engine.Pipeline.{Text, PipelineTracker, Moment, fail_stage, step}
use multi_agent_engine.Chain.TillDone.{ChainStep}

-- OrchestratorAction, the reason of an action being the text that is written to the pipeline.
pub data Action : Type 0 where
  continue pause escalate_to_user : Action
  reassign : ℕ → String → Action
  skip_step : ℕ → Text → Action
  spawn_team : String → Action

-- What the actions work on: the session's status, whether `pausedSessions` holds it, `skippedSteps`,
-- the steps of the chain, and the session's tracker, if it has one.
pub record Runner : Type 0 where
  pub status : Status
  pub is_held : Bool
  pub skipped : List ℕ
  pub steps : List ChainStep
  pub pipeline : Option PipelineTracker

abbrev pub has : ℕ → List ℕ → Bool
has j [] = false
has j (k ∷ ks) = j == k || has j ks

abbrev add : ℕ → List ℕ → List ℕ
add j ks = if has j ks then ks else j ∷ ks

hold : Runner → Runner
hold r = record r { status = (transition_status r.status paused).0; is_held = true }

abbrev fail_at : Moment → ℕ → Text → Option PipelineTracker → Option PipelineTracker
fail_at m j why none = none
fail_at m j why (some t) = some (step t (m, fail_stage j why)).0

abbrev with_team : Option ChainStep → String → ChainStep
with_team none team = record { team = some team; agent = none; till_done = none }
with_team (some s) team = record s { team = some team }

-- `original` is `originalStepCount` and `i` the index of the step that is about to start.
process_loop_action : ℕ → ℕ → Moment → Action → Runner → Runner
unfolding hold
process_loop_action original i m continue r = r
process_loop_action original i m pause r = hold r
process_loop_action original i m escalate_to_user r = hold r
process_loop_action original i m (skip_step j why) r =
    if ltb i j && ltb j (length r.steps)
    then record r { skipped = add j r.skipped; pipeline = fail_at m j why r.pipeline }
    else r
process_loop_action original i m (reassign j team) r =
    if ltb i j && ltb j (length r.steps)
    then record r { steps = set r.steps j (with_team (get_elem? r.steps j) team) }
    else r
process_loop_action original i m (spawn_team team) r =
    if leb (3 + original) (length r.steps) then r else record r {
      steps = r.steps ++ record { team = some team; agent = none; till_done = none } ∷ [];
    }

abbrev is_paused : Status → Bool
is_paused (known paused) = true
is_paused _ = false

-- The loop over the queue; it gives what it leaves in the queue.
unfoldable pub drain_actions :
    ℕ → ℕ → List (Moment × Action) → Runner → List (Moment × Action) × Runner
unfolding process_loop_action
drain_actions original i [] r = ([], r)
drain_actions original i ((m, a) ∷ queue) r =
    let r' = process_loop_action original i m a r in
    let rest = drain_actions original i queue r' in
    if is_paused r'.status then (queue, r') else rest
