-- ===== src/Chain/Deterministic/Laws.antt =====
-- engine/chain-runner.ts: how often runDeterministicStep runs its command, and what comes of it.
use multi_agent_engine.Common.{
  ℕ, zero, suc, ◌+◌, ◌≤◌, ◌<◌, ◌≡◌, refl, ◌∙◌, ap, ◌⊎◌, inl, inr, Bool, true, false, Option, none,
  some, or_else, List, take, arith, subst, sym,
}
use multi_agent_engine.Chain.Deterministic.{
  OnFailure, loop, fail, CommandRun, exits, throws, output, thrown, Succeeds, attempt, rounds,
  run_deterministic_step,
}

rounds-le :
    (on : OnFailure) (run : ℕ → CommandRun) (left k : ℕ) → (rounds on run left k).1 ≤ suc left
unfolding rounds
rounds-le on run zero k = omega arith
rounds-le on run (suc left) k = ground (arith, rounds-le on run left (suc k))

attempt_failed :
    (r : CommandRun) (last : Bool)
    → ¬ Succeeds r
    → attempt loop last r ≡ (elim last [ true ↦ some thrown | false ↦ none ])
unfolding attempt
attempt_failed throws true f = refl
attempt_failed throws false f = refl
attempt_failed (exits zero out) last f = absurd (f tt)
attempt_failed (exits (suc code) out) true f = refl
attempt_failed (exits (suc code) out) false f = refl

-- The rounds before a bound fail, from the first one and from the second one.
module _ (run : ℕ → CommandRun) (k n : ℕ) (f : (i : ℕ) → i < suc n → ¬ Succeeds (run (k + i))) where
  now_fails : ¬ Succeeds (run k)
  now_fails =
      let e : k + 0 ≡ k = omega arith in subst (λ m. ¬ Succeeds (run m)) e (f 0 (omega arith))

  later_fail : (i : ℕ) → i < n → ¬ Succeeds (run (suc k + i))
  later_fail i h =
      let e : k + suc i ≡ suc k + i = omega arith in
      subst (λ m. ¬ Succeeds (run m)) e (f (suc i) (omega arith))

rounds_exhausted :
    (run : ℕ → CommandRun) (left k : ℕ)
    → ((i : ℕ) → i < suc left → ¬ Succeeds (run (k + i)))
    → rounds loop run left k ≡ (thrown, suc left)
unfolding rounds
rounds_exhausted run zero k f = rw (attempt_failed (run k) true (now_fails run k 0 f))
rounds_exhausted run (suc left) k f =
    rw (rounds, attempt_failed (run k) false (now_fails run k (suc left) f))
      (rw (rounds_exhausted run left (suc k) (later_fail run k (suc left) f)))

rounds_succeed :
    (run : ℕ → CommandRun) (left k j : ℕ) (out : List ℕ)
    → ((i : ℕ) → i < j → ¬ Succeeds (run (k + i)))
    → run (k + j) ≡ exits 0 out
    → j ≤ left
    → rounds loop run left k ≡ (output (take 2000 out), suc j)
unfolding rounds attempt
rounds_succeed run zero k zero out f e h =
    let here : k + 0 ≡ k = omega arith in rw (sym (ap run here) ∙ e)
rounds_succeed run zero k (suc j) out f e h = absurd (omega arith)
rounds_succeed run (suc left) k zero out f e h =
    let here : k + 0 ≡ k = omega arith in rw (rounds, sym (ap run here) ∙ e)
rounds_succeed run (suc left) k (suc j) out f e h =
    let next : k + suc j ≡ suc k + j = omega arith in
    rw (rounds, attempt_failed (run k) false (now_fails run k j f))
      (rw (
        rounds_succeed run left (suc k) j out (later_fail run k j f) (sym (ap run next) ∙ e)
          (omega arith)))

from_zero : (i : ℕ) → i ≡ 0 + i
from_zero i = omega arith

fail_once :
    (r : CommandRun) (last : Bool)
    → ((out : List ℕ) × (r ≡ exits 0 out) × (attempt fail last r ≡ some (output (take 2000 out))))
      ⊎ ((¬ Succeeds r) × (attempt fail last r ≡ some thrown))
unfolding attempt
fail_once throws true = inr ((λ s. s), refl)
fail_once throws false = inr ((λ s. s), refl)
fail_once (exits zero out) last = inl (out, refl, refl)
fail_once (exits (suc code) out) true = inr ((λ s. s), refl)
fail_once (exits (suc code) out) false = inr ((λ s. s), refl)

rounds_fail :
    (run : ℕ → CommandRun) (left : ℕ)
    → ((out : List ℕ) × (run 0 ≡ exits 0 out)
        × (rounds fail run left 0 ≡ (output (take 2000 out), 1)))
      ⊎ ((¬ Succeeds (run 0)) × (rounds fail run left 0 ≡ (thrown, 1)))
unfolding rounds
rounds_fail run zero = elim (fail_once (run 0) true) [
  | inl (out, e, a) ↦ inl (out, e, rw (rounds, a))
  | inr (f, a) ↦ inr (f, rw (rounds, a))
]
rounds_fail run (suc left) = elim (fail_once (run 0) false) [
  | inl (out, e, a) ↦ inl (out, e, rw (rounds, a))
  | inr (f, a) ↦ inr (f, rw (rounds, a))
]

-- With `on_failure` "loop", the command is run until it exits with code 0, and the first 2000 units
-- of that output are returned; if it does not within `max_retries` + 1 runs, 3 + 1 by default, the
-- step throws after that many runs.
pub loop_first_success :
    (max_retries : Option ℕ) (run : ℕ → CommandRun)
    → ((j : ℕ) (out : List ℕ)
        → ((i : ℕ) → i < j → ¬ Succeeds (run i))
        → run j ≡ exits 0 out
        → j ≤ or_else max_retries 3
        → run_deterministic_step (some loop) max_retries run ≡ (output (take 2000 out), suc j))
      × (((i : ℕ) → i ≤ or_else max_retries 3 → ¬ Succeeds (run i))
          → run_deterministic_step (some loop) max_retries run
            ≡ (thrown, suc (or_else max_retries 3)))
unfolding run_deterministic_step
loop_first_success max_retries run = (
  λ j out f e h.
      rounds_succeed run (or_else max_retries 3) 0 j out
        (λ i b. subst (λ m. ¬ Succeeds (run m)) (from_zero i) (f i b))
        (ap run (sym (from_zero j)) ∙ e) h,
  λ f.
      rounds_exhausted run (or_else max_retries 3) 0
        (λ i b. subst (λ m. ¬ Succeeds (run m)) (from_zero i) (f i (omega arith))),
)

-- Without `on_failure`, or with "fail", the command is run once: its output is returned if it exits
-- with code 0, and otherwise the step throws.
pub fail_runs_once :
    (on : Option OnFailure) (max_retries : Option ℕ) (run : ℕ → CommandRun)
    → (on ≡ none) ⊎ (on ≡ some fail)
    → ((out : List ℕ) × (run 0 ≡ exits 0 out)
        × (run_deterministic_step on max_retries run ≡ (output (take 2000 out), 1)))
      ⊎ ((¬ Succeeds (run 0)) × (run_deterministic_step on max_retries run ≡ (thrown, 1)))
unfolding run_deterministic_step
fail_runs_once on max_retries run (inl e) = rw e (rounds_fail run (or_else max_retries 3))
fail_runs_once on max_retries run (inr e) = rw e (rounds_fail run (or_else max_retries 3))
