-- ===== src/SelfHealing/Tests.antt =====
-- A delegation to an adapter, and the laws of healing at it.
use multi_agent_engine.Common.{
  ℕ, zero, suc, ◌≤◌, ◌≡◌, refl, String, true, false, none, [], ◌∷◌, length, All,
}
use multi_agent_engine.SelfHealing.{
  DelegateOptions, DelegateResult, medium, Call, Env, is_failed, get_escalation_model,
  is_read_only_delegate_options, get_unavailable_model_fallback, first_call, delegate_with_healing,
}
use multi_agent_engine.SelfHealing.Laws.{planned, Within, delegate_with_healing-Within}
use multi_agent_engine.SelfHealing.Calls.{IsRetry, MayFix, later, delegate_with_healing-IsRetry}

abbrev result_of : String → DelegateResult
result_of text = record { output = text; grade = none; findings = none; cost = 3; tokens = 10 }

-- The first call meets an unknown model, the second one an error, the third one nothing.
abbrev answers : ℕ → DelegateResult
answers zero = result_of "ERROR: unknown model"
answers (suc zero) = result_of "ERROR: quota"
answers (suc (suc n)) = result_of "  "

abbrev env : Env
env = record {
  delegate = λ k c. answers k;
  is_aborted = λ k. false;
  fallbacks = λ m. [];
  resolve = λ m. m;
  configured = none;
  lower = λ s. s;
}

abbrev options : DelegateOptions
options = record {
  model = "main";
  thinking = medium;
  timeout_ms = none;
  has_working_dir = true;
  tools = "read" ∷ "edit" ∷ [];
  writes = [];
  updates = [];
}

four_calls : length (delegate_with_healing env options "worker").trace ≡ 4
unfolding delegate_with_healing is_failed get_escalation_model is_read_only_delegate_options
    get_unavailable_model_fallback
four_calls = refl

delegate_with_healing-Within_example :
    let n = planned env options (env.delegate 0 (first_call options "worker")) in
    Within n env 0 none (delegate_with_healing env options "worker") × (n ≤ 4)
delegate_with_healing-Within_example = delegate_with_healing-Within env options "worker"

delegate_with_healing-IsRetry_example :
    let h = delegate_with_healing env options "worker" in
    All (λ (p : Call × DelegateResult). IsRetry env options p.0) (later h.trace)
    × MayFix options h.autofixed
delegate_with_healing-IsRetry_example = delegate_with_healing-IsRetry env options "worker"
