-- ===== src/Chain/Deterministic.antt =====
-- The deterministic step of a chain: runDeterministicStep of engine/chain-runner.ts. What a run of
-- the command gives is an input; messages and logging are left out.
pub mod Laws
use multi_agent_engine.Common.{
  not, ℕ, zero, suc, ◌+◌, ◌-◌, ◌≤◌, ◌<◌, ◌≡◌, ◌≢◌, refl, ◌⊎◌, inl, inr, Bool, true, false, ◌&&◌,
  ◌||◌, Option, none, some, or_else, List, [], ◌∷◌, ltb, leb, length, take, if◌then◌else◌, arith,
}

pub data OnFailure : Type 0 where
  loop fail continue : OnFailure

-- How the command ends: with an exit code and its output, or by an exception of the spawn.
pub data CommandRun : Type 0 where
  exits : ℕ → List ℕ → CommandRun
  throws : CommandRun

pub data StepOutcome : Type 0 where
  output : List ℕ → StepOutcome  -- the text that is returned
  no_output : StepOutcome  -- null is returned
  thrown : StepOutcome

abbrev is_loop : OnFailure → Bool
is_loop loop = true
is_loop _ = false

abbrev is_continue : OnFailure → Bool
is_continue continue = true
is_continue _ = false

abbrev is_fail : OnFailure → Bool
is_fail fail = true
is_fail _ = false

-- One round of the loop: the outcome, or `none` to go on. `last` is `attempt >= maxRetries`.
attempt : OnFailure → Bool → CommandRun → Option StepOutcome
attempt on last throws = if last || is_fail on then some thrown else none
attempt on last (exits zero out) = some (output (take 2000 out))
attempt on last (exits (suc code) out) =
    if is_continue on
    then some no_output
    else if is_loop on && not last
    then none
    else if last || is_fail on
    then some thrown
    else none

-- The loop, with the retries left and the round's number, which tells the runs apart; the second
-- component counts the runs.
rounds : OnFailure → (ℕ → CommandRun) → ℕ → ℕ → StepOutcome × ℕ
rounds on run zero k = (or_else (attempt on true (run k)) no_output, 1)
rounds on run (suc left) k =
    let rest = rounds on run left (suc k) in
    elim (attempt on false (run k)) [ none ↦ (rest.0, suc rest.1) | some o ↦ (o, 1) ]

-- `on_failure` is "fail" and `max_retries` 3 where the step does not say.
unfoldable pub run_deterministic_step :
    Option OnFailure → Option ℕ → (ℕ → CommandRun) → StepOutcome × ℕ
unfolding rounds attempt
run_deterministic_step on_failure max_retries run =
    rounds (or_else on_failure fail) run (or_else max_retries 3) 0

abbrev pub Succeeds : CommandRun → Type 0
Succeeds (exits zero out) = Unit
Succeeds _ = ⊥

abbrev pub IsOutput : StepOutcome → Type 0
IsOutput (output out) = Unit
IsOutput _ = ⊥
