-- ===== src/SelfHealing/Laws.antt =====
-- engine/self-healing.ts: how many calls there are, when they stop, and what is returned.
use multi_agent_engine.Common.{
  ℕ, suc, ◌≤◌, ◌+◌, if◌then◌else◌, Bool, ◌≡◌, refl, ◌⊎◌, inl, inr, String, true, false, not, ◌&&◌,
  Option, none, some, List, [], ◌∷◌, Bool-cases, length, str_eq, arith,
}
use multi_agent_engine.SelfHealing.{
  DelegateOptions, DelegateResult, Call, Env, get_escalation_model, get_unavailable_model_fallback,
  is_failed, is_model_unavailable, Healed, stops, attempt, give_up, upgrade, retry_again, heal,
  first_call, delegate_with_healing,
}

-- The number of calls that are made while all of them fail, from the first result: the call and its
-- retry; one with another model where the model is unavailable and there is another; and one with a
-- stronger model where there is one.
abbrev one_if : Bool → ℕ
one_if b = if b then 1 else 0

abbrev runtime_calls : Env → DelegateOptions → DelegateResult → ℕ
runtime_calls e o r = one_if (
    is_model_unavailable e r
    && not (str_eq (e.resolve (get_unavailable_model_fallback e o.model)) o.model))

abbrev upgrade_calls : Env → DelegateOptions → ℕ
upgrade_calls e o = one_if (not (str_eq (get_escalation_model e o.model) o.model))

pub planned : Env → DelegateOptions → DelegateResult → ℕ
planned e o r = 2 + (runtime_calls e o r + upgrade_calls e o)

-- The trace of the calls from number `k` on, of `n` at most, after the result `last` if there was one,
-- with the result that is returned: each call has the adapter's result; the calls go on exactly while
-- the result has failed and the run is not aborted; and where they end without a success or an abort,
-- all `n` were made, and the last result is returned with the grade FAILED.
abbrev pub Ends : Option DelegateResult → DelegateResult → Type 0
Ends none r = ⊥
Ends (some last) r = r ≡ record last { grade = some "FAILED" }

abbrev pub Follows :
    ℕ → Env → ℕ → Option DelegateResult → List (Call × DelegateResult) → DelegateResult → Type 0
Follows n e k last [] r = (k ≡ n) × Ends last r
Follows n e k last ((c, x) ∷ rest) r =
    (x ≡ e.delegate k c)
    × (((stops e k x ≡ true) × (rest ≡ []) × (r ≡ x))
        ⊎ ((is_failed x ≡ true) × (e.is_aborted k ≡ false) × Follows n e (suc k) (some x) rest r))

abbrev pub Within : ℕ → Env → ℕ → Option DelegateResult → Healed → Type 0
Within n e k last h = Follows n e k last h.trace h.result × (k + length h.trace ≤ n)

goes_on :
    (e : Env) (k : ℕ) (r : DelegateResult)
    → stops e k r ≡ false
    → (is_failed r ≡ true) × (e.is_aborted k ≡ false)
goes_on e k r h = (ground arith, ground arith)

attempt-Within :
    (n : ℕ) (e : Env) (k : ℕ) (last : Option DelegateResult) (c : Call)
    (next : DelegateResult → Healed)
    → Within n e (suc k) (some (e.delegate k c)) (next (e.delegate k c))
    → Within n e k last (attempt e k c next)
unfolding attempt
attempt-Within n e k last c next (w, l) =
    let r = e.delegate k c in
    elim (Bool-cases (stops e k r)) [
      | inl s ↦ rw s ((refl, inl (s, refl, refl)), omega (arith, l))
      | inr s ↦ let (f, a) = goes_on e k r s in rw s ((refl, inr (f, a, w)), omega (arith, l))
    ]

attempt-Within_any :
    (n : ℕ) (e : Env) (k : ℕ) (last : Option DelegateResult) (c : Call)
    (next : DelegateResult → Healed)
    → ((r : DelegateResult) → Within n e (suc k) (some r) (next r))
    → Within n e k last (attempt e k c next)
attempt-Within_any n e k last c next h = attempt-Within n e k last c next (h (e.delegate k c))

give_up-Within :
    (n : ℕ) (e : Env) (k : ℕ) (r : DelegateResult) → k ≡ n → Within n e k (some r) (give_up r)
unfolding give_up
give_up-Within n e k r h = ((h, refl), omega (arith, h))

module _ (n : ℕ) (e : Env) (o : DelegateOptions) where
  upgrade-Within :
      (k : ℕ) (quoted r : DelegateResult)
      → k + upgrade_calls e o ≡ n
      → Within n e k (some r) (upgrade e o k quoted r)
  unfolding upgrade
  upgrade-Within k quoted r h =
      elim (Bool-cases (str_eq (get_escalation_model e o.model) o.model)) [
        | inl s ↦ rw s (give_up-Within n e k r (ground (arith, h, s)))
        | inr s ↦ rw s (
            attempt-Within_any n e k (some r) _ give_up
              (λ x. give_up-Within n e (suc k) x (ground (arith, h, s))))
      ]

  retry_again-Within :
      (k : ℕ) (r : DelegateResult)
      → suc k + upgrade_calls e o ≡ n
      → Within n e k (some r) (retry_again e o k r)
  unfolding retry_again
  retry_again-Within k r h =
      attempt-Within_any n e k (some r) _ (upgrade e o (suc k) r)
        (λ x. upgrade-Within (suc k) r x h)

  heal-Within : (r : DelegateResult) → planned e o r ≡ n → Within n e 1 (some r) (heal e o r)
  unfolding heal planned
  heal-Within r h =
      let m = e.resolve (get_unavailable_model_fallback e o.model) in
      elim (Bool-cases (is_model_unavailable e r && not (str_eq m o.model))) [
        | inl s ↦ rw s (
            attempt-Within_any n e 1 (some r) _ (retry_again e o 2)
              (λ x. retry_again-Within 2 x (ground (arith, h, s))))
        | inr s ↦ rw s (retry_again-Within 1 r (ground (arith, h, s)))
      ]

planned-le : (e : Env) (o : DelegateOptions) (r : DelegateResult) → planned e o r ≤ 4
unfolding planned
planned-le e o r = ground arith

-- A delegation calls the adapter at least once and at most as often as planned, which is twice, and
-- once more where the first result says that the model is unavailable and there is another, and once
-- more where there is a stronger model. It goes on exactly while the last result has failed and the run
-- is not aborted; it returns the first result that has not failed or after which the run is aborted,
-- and where all the planned calls failed, the last result with the grade FAILED.
pub delegate_with_healing-Within :
    (e : Env) (o : DelegateOptions) (role : String)
    → let n = planned e o (e.delegate 0 (first_call o role)) in
      Within n e 0 none (delegate_with_healing e o role) × (n ≤ 4)
unfolding delegate_with_healing
delegate_with_healing-Within e o role =
    let r = e.delegate 0 (first_call o role) in
    (
      attempt-Within (planned e o r) e 0 none _ (heal e o) (heal-Within (planned e o r) e o r refl),
      planned-le e o r,
    )
