-- ===== src/SelfHealing/Calls.antt =====
-- engine/self-healing.ts: what the calls of a delegation ask for, and when the autofixers run.
use multi_agent_engine.Common.{
  ℕ, suc, ◌≡◌, refl, ◌⊎◌, inl, inr, String, Bool, true, false, not, ◌&&◌, some, or_else, List, [],
  ◌∷◌, both_branches, All, str_eq, arith,
}
use multi_agent_engine.SelfHealing.{
  DelegateOptions, DelegateResult, original, Call, Env, get_escalation_model,
  get_unavailable_model_fallback, timeout_for_role, is_read_only_delegate_options,
  is_model_unavailable, Healed, stops, attempt, give_up, upgrade, retry_again, heal,
  delegate_with_healing,
}

-- The calls of a trace.
abbrev pub Calls : (Call → Type 0) → Healed → Type 0
Calls P h = All (λ (p : Call × DelegateResult). P p.0) h.trace

abbrev pub later : List (Call × DelegateResult) → List (Call × DelegateResult)
later [] = []
later (p ∷ ps) = ps

-- Every call, and the flag of the autofixers.
record Shows (P : Call → Type 0) (Q : Bool → Type 0) (h : Healed) : Type 0 where
  calls : Calls P h
  flag : Q h.autofixed

module _ (P : Call → Type 0) (Q : Bool → Type 0) (q : Q false) where
  attempt-Shows :
      (e : Env) (k : ℕ) (c : Call) (next : DelegateResult → Healed)
      → P c
      → ((r : DelegateResult) → Shows P Q (next r))
      → Shows P Q (attempt e k c next)
  unfolding attempt
  attempt-Shows e k c next p h =
      let r = e.delegate k c in
      both_branches (Shows P Q) (stops e k r) (record { calls = (p, tt); flag = q })
        (record { calls = (p, (h r).calls); flag = (h r).flag })

  give_up-Shows : (r : DelegateResult) → Shows P Q (give_up r)
  unfolding give_up
  give_up-Shows r = record { calls = tt; flag = q }

-- A call of a retry keeps the options' own timeout, and asks for the options' model or for one that
-- the configuration resolves.
abbrev pub IsRetry : Env → DelegateOptions → Call → Type 0
IsRetry e o c =
    (c.timeout_ms ≡ o.timeout_ms)
    × ((c.model ≡ o.model)
        ⊎ ((c.model ≡ e.resolve (get_unavailable_model_fallback e o.model))
            ⊎ (c.model ≡ e.resolve (get_escalation_model e o.model))))

abbrev pub MayFix : DelegateOptions → Bool → Type 0
MayFix o flag = flag ≡ true → (o.has_working_dir ≡ true) × (is_read_only_delegate_options o ≡ false)

no_fix : (o : DelegateOptions) → MayFix o false
no_fix o h = absurd (cc h)

fix_allowed :
    (o : DelegateOptions) → MayFix o (o.has_working_dir && not (is_read_only_delegate_options o))
fix_allowed o h = (ground (arith, h), ground (arith, h))

module _ (e : Env) (o : DelegateOptions) where
  upgrade-Shows :
      (k : ℕ) (quoted r : DelegateResult) → Shows (IsRetry e o) (MayFix o) (upgrade e o k quoted r)
  unfolding upgrade
  upgrade-Shows k quoted r =
      both_branches (Shows (IsRetry e o) (MayFix o))
        (str_eq (get_escalation_model e o.model) o.model)
        (give_up-Shows (IsRetry e o) (MayFix o) (no_fix o) r)
        (attempt-Shows (IsRetry e o) (MayFix o) (no_fix o) e k _ give_up (refl, inr (inr refl))
          (give_up-Shows (IsRetry e o) (MayFix o) (no_fix o)))

  retry_again-Shows :
      (k : ℕ) (r : DelegateResult) → Shows (IsRetry e o) (MayFix o) (retry_again e o k r)
  unfolding retry_again
  retry_again-Shows k r = record {
    calls =
        (attempt-Shows (IsRetry e o) (MayFix o) (no_fix o) e k _ (upgrade e o (suc k) r)
          (refl, inl refl) (upgrade-Shows (suc k) r)).calls;
    flag = fix_allowed o;
  }

  heal-Shows : (r : DelegateResult) → Shows (IsRetry e o) (MayFix o) (heal e o r)
  unfolding heal
  heal-Shows r =
      let m = e.resolve (get_unavailable_model_fallback e o.model) in
      both_branches (Shows (IsRetry e o) (MayFix o))
        (is_model_unavailable e r && not (str_eq m o.model))
        (attempt-Shows (IsRetry e o) (MayFix o) (no_fix o) e 1 _ (retry_again e o 2)
          (refl, inr (inl refl)) (retry_again-Shows 2))
        (retry_again-Shows 1 r)

-- Every call after the first has the timeout of the options, none where they have none, and not the
-- role's default that the first call gets; its model is the options' own or one that the
-- configuration resolves as the fallback or the escalation. The autofixers run only in a working
-- directory, and never for read-only options.
pub delegate_with_healing-IsRetry :
    (e : Env) (o : DelegateOptions) (role : String)
    → let h = delegate_with_healing e o role in
      All (λ (p : Call × DelegateResult). IsRetry e o p.0) (later h.trace) × MayFix o h.autofixed
unfolding delegate_with_healing attempt
delegate_with_healing-IsRetry e o role =
    let call : Call = record {
      model = o.model;
      thinking = o.thinking;
      timeout_ms = some (or_else o.timeout_ms (timeout_for_role role));
      prompt = original;
    } in
    let r = e.delegate 0 call in
    both_branches
      (λ (h : Healed).
        All (λ (p : Call × DelegateResult). IsRetry e o p.0) (later h.trace) × MayFix o h.autofixed)
      (stops e 0 r) (tt, no_fix o) ((heal-Shows e o r).calls, (heal-Shows e o r).flag)
