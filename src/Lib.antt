-- ===== src/Lib.antt =====
-- Verification of the multi-agent engine: the parts that decide what a session of agents may do.
--
-- A session runs a chain of steps. The chain's runner delegates each step to teams, workers or
-- commands; a limiter bounds how many workers run at once; delegation heals failed results by
-- retries; a budget is charged after each result; a tracker keeps the stages on disk; beside it a
-- reasoning loop asks a model for actions, which the runner takes from a queue before each step.
-- Between sessions a ratchet tries mutations of the personas' files against recorded runs. In the
-- agent itself an extension drives a cycle of writing, testing, reviewing and fixing.
--
-- The files, with the code that they model:
--   Session            engine/session-state.ts: transitionStatus.
--   Limiter            engine/concurrency.ts: the class ConcurrencyLimiter, with the tasks that run
--                      in it; a history of calls and settlements is a list of events.
--   Pipeline           engine/pipeline-state.ts: the class PipelineTracker with the file it writes;
--                      one constructor of Op for each method.
--   Chain.TillDone     engine/chain-runner.ts: buildTillDone and markTillDone.
--   Chain.Deterministic  the same file: runDeterministicStep.
--   Chain.Actions      the same file: processLoopAction, and the part of runChain that empties the
--                      queue of actions. It uses Session, Pipeline and Chain.TillDone.
--   Chain.Feedback     the same file: what runChain does with the results of a step, from the retries
--                      on feedback to the step's status; and worstGrade of engine/output-parsing.ts.
--   SelfHealing        engine/self-healing.ts: delegateWithHealing and its helpers.
--   SpawnDecision      engine/spawn-decision.ts: the validations of a lead's request for a worker and
--                      the constraints that an accepted one puts on the worker; Paths has
--                      hasUnsafePath and pathCovers.
--   Budget             engine/budget.ts: checkBudget and checkBudgetProactive.
--   OrchestratorLoop   engine/orchestrator-loop.ts: the class of that name, as steps between its
--                      awaits, interleaved with the other parts of the engine in any order. Parse is
--                      parseActions, View what the loop reports. It uses Session, Budget and
--                      Chain.Actions.
--   Nudge              engine/nudge.ts: executeNudge, with the log of the nudges of one agent.
--   Monitor            engine/active-monitor.ts: the class ActiveMonitor, with engine/monitoring.ts. It uses
--                      Nudge.
--   Sandbox            engine/sandbox-pool.ts: the class SandboxPool.
--   Ralph              engine/ralph-loop.ts: verifyMutation, with the outcome of every write of the
--                      file, and the loop of runRalphLoop.
--   Team               engine/team-execution.ts and engine/worker-lifecycle.ts: runTeamStep, with the
--                      workers that a lead may start, their outcomes and the cycle of reviews, and
--                      runParallelStep; ReviewMode is engine/review-mode.ts. It uses SpawnDecision,
--                      Budget and Session.
--   Certification      engine/certification-validator.ts: the checks on a recorded session. It uses
--                      SpawnDecision.
--   Replay             engine/replay.ts: extractFingerprint, compareFingerprints, scoreSession, and the
--                      registry of golden traces.
--   Workflow           pi-packages/pi-context-workflow/index.ts: the handlers of the extension.
--   Common             names shared by all: conditionals, lists under native numbers, integers, texts.
-- Each part has its definitions in its own file, its theorems in the children, and concrete runs in
-- its Tests.
--
-- State is a record and is passed on explicitly; an operation gives the new state and its answer. A
-- class's methods are the constructors of a type of operations, with `step` for one call and `run`
-- for a sequence. In the limiter, the reasoning loop and the extension a step ends where the code
-- awaits, so that sequences of steps cover the interleavings; elsewhere an operation is one step, from
-- its call to its end. Promises are numbers, the clock is an input, and an exception
-- is a value. Numbers are natural, and integers where the code may go below zero; money is exact,
-- in some unit, where the code has floating-point dollars.
--
-- No model is cut off by fuel: loops recur on their lists or on a counter that the code itself has
-- (the retries of a command, of a step or of a team, the iterations of the ratchet), and the attempts of a
-- delegation are four functions, one after the other.
--
-- What the model assumes: a file whose write fails keeps its content; JSON is read back as it was
-- written; applyMutation does not throw; the host of the extension calls one handler at a time. The
-- adapter, the answers of the agents, the configuration, the clock, the replays, the judge, the
-- artifacts of a trace and applyMutation are arguments, of which nothing else is assumed, but that the
-- adapter does not throw in a delegation that heals, and that the orchestrator's indices of steps are
-- natural numbers. Paths of a spawn decision are texts: the part `.` of a path is not resolved.
--
-- Not modelled: in a team step, prompts, worktrees, events, and the interleaving of its workers, whose
-- outcomes are inputs; in the certification, the texts of the evidence and reading the files; of the
-- replays, durations and the ranking of candidates; verifyTillDone, runAgent and the loop of runChain as
-- a whole; reading spawn decisions from text; messaging. They are pure code or
-- state machines like the ones above. Configuration, adapters, logging, events, the command line, the
-- services for language models and both dashboards are input and output, text for models, or other
-- languages.
pub mod Common
pub mod Session
pub mod Limiter
pub mod Workflow
pub mod Pipeline
pub mod Chain
pub mod Sandbox
pub mod Budget
pub mod OrchestratorLoop
pub mod Ralph
pub mod Replay
pub mod SelfHealing
pub mod SpawnDecision
pub mod Nudge
pub mod Monitor
pub mod Team
pub mod Certification
