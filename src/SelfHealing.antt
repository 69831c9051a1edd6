-- ===== src/SelfHealing.antt =====
-- Delegation with retries, engine/self-healing.ts. The adapter, the configuration and the abort signal
-- are inputs, and the adapter does not throw, as an exception ends the delegation at once; events and
-- logging are left out, and so are the autofixers but for whether they run.
pub mod Laws
pub mod Calls
mod Tests
use multi_agent_engine.Common.{
  ℕ, zero, suc, String, Bool, true, false, not, ◌&&◌, ◌||◌, Option, none, some, or_else, List, [],
  ◌∷◌, any, all, length, str_eq, starts_with, is_blank, includes_text, ◌==◌, if◌then◌else◌,
}

pub data ThinkingLevel : Type 0 where
  off minimal low medium high xhigh : ThinkingLevel

-- The parts of DelegateOptions that healing reads or changes.
pub record DelegateOptions : Type 0 where
  pub model : String
  pub thinking : ThinkingLevel
  pub timeout_ms : Option ℕ
  pub has_working_dir : Bool
  pub tools : List String
  pub writes : List String
  pub updates : List String

pub record DelegateResult : Type 0 where
  pub output : String
  pub grade : Option String
  pub findings : Option (List String)
  pub cost : ℕ
  pub tokens : ℕ

pub data Prompt : Type 0 where
  original : Prompt
  runtime_note : String → Prompt  -- with the fallback model
  after_failure : DelegateResult → Prompt

pub record Call : Type 0 where
  pub model : String
  pub thinking : ThinkingLevel
  pub timeout_ms : Option ℕ
  pub prompt : Prompt

-- The calls of an adapter are numbered, and the abort signal is read after each. `fallbacks` and
-- `resolve` are getModelFallbacks and resolveModel, and `configured` the variable
-- MAE_MODEL_UNAVAILABLE_FALLBACK, `lower` toLowerCase.
pub record Env : Type 0 where
  pub delegate : ℕ → Call → DelegateResult
  pub is_aborted : ℕ → Bool
  pub fallbacks : String → List String
  pub resolve : String → String
  pub configured : Option String
  pub lower : String → String

-- The entries of MODEL_ESCALATION.
static_escalation : String → String
static_escalation m =
    if str_eq m "litellm/sonnet-nocache" || str_eq m "litellm/pro-nocache"
    then "litellm/opus-nocache"
    else if str_eq m "litellm/haiku-nocache" || str_eq m "litellm/flash"
    then "litellm/sonnet-nocache"
    else if str_eq m "openai/gpt-5.4-mini"
    then "openai/gpt-5.5"
    else if str_eq m "fast" || str_eq m "free"
    then "main"
    else if str_eq m "main"
    then "quality"
    else m

abbrev first_or : List String → String → String
first_or [] m = m
first_or (f ∷ fs) m = f

unfoldable pub get_escalation_model : Env → String → String
unfolding static_escalation
get_escalation_model e m = first_or (e.fallbacks m) (static_escalation m)

abbrev is_usable : Option String → String → Bool
is_usable none m = false
is_usable (some c) m = not (str_eq c "") && not (str_eq c m)

unfoldable pub get_unavailable_model_fallback : Env → String → String
unfolding get_escalation_model
get_unavailable_model_fallback e m =
    let fallback = get_escalation_model e m in
    if is_usable e.configured m
    then or_else e.configured m
    else if not (str_eq fallback m)
    then fallback
    else if str_eq m "main"
    then "quality"
    else "main"

abbrev pub think_more : ThinkingLevel → ThinkingLevel
think_more off = low
think_more minimal = low
think_more low = medium
think_more medium = high
think_more high = xhigh
think_more xhigh = xhigh

timeout_for_role : String → ℕ
timeout_for_role role =
    if str_eq role "worker" || str_eq role "lead"
    then 1800000
    else if str_eq role "orchestrator"
    then 0
    else 300000

abbrev is_read_only_tool : String → Bool
is_read_only_tool t = str_eq t "read" || (str_eq t "grep" || str_eq t "glob")

abbrev is_empty : List String → Bool
is_empty [] = true
is_empty (x ∷ xs) = false

unfoldable pub is_read_only_delegate_options : DelegateOptions → Bool
is_read_only_delegate_options o =
    is_empty o.writes && (is_empty o.updates && all is_read_only_tool o.tools)

abbrev is_grade : Option String → String → Bool
is_grade none g = false
is_grade (some g') g = str_eq g' g

abbrev finds : Option (List String) → String → Bool
finds none f = false
finds (some fs) f = any (str_eq f) fs

unfoldable pub is_failed : DelegateResult → Bool
is_failed r =
    is_grade r.grade "FAILED"
    || (is_blank r.output
        || (starts_with r.output "ERROR:"
            || (finds r.findings "timeout" || finds r.findings "empty_output")))

abbrev join_lines : String → List String → String
join_lines s [] = s
join_lines s (f ∷ fs) = join_lines (Prim.Native.String.◌++◌ s (Prim.Native.String.◌++◌ "\n" f)) fs

abbrev needles : List String
needles =
    "model_not_found" ∷ "model not found" ∷ "unknown model" ∷ "model_not_available"
    ∷ "model unavailable" ∷ "not available for model" ∷ "no such model" ∷ "could not find model"
    ∷ []

is_model_unavailable : Env → DelegateResult → Bool
is_model_unavailable e r =
    let haystack = e.lower (join_lines r.output (or_else r.findings [])) in
    any (includes_text haystack) needles

-- The calls with their results, the result that is returned, and whether the autofixers ran.
pub record Healed : Type 0 where
  pub result : DelegateResult
  pub trace : List (Call × DelegateResult)
  pub autofixed : Bool

abbrev stops : Env → ℕ → DelegateResult → Bool
stops e k r = not (is_failed r) || e.is_aborted k

abbrev prepend : Call → DelegateResult → Healed → Healed
prepend c r h = record h { trace = (c, r) ∷ h.trace }

-- A call, and what follows where it failed and was not aborted.
attempt : Env → ℕ → Call → (DelegateResult → Healed) → Healed
attempt e k c next =
    let r = e.delegate k c in
    let rest = next r in
    if stops e k r
    then record { result = r; trace = (c, r) ∷ []; autofixed = false }
    else prepend c r rest

give_up : DelegateResult → Healed
give_up r = record { result = record r { grade = some "FAILED" }; trace = []; autofixed = false }

-- Attempt 3, with the result that the retry prompt quotes and the last result.
upgrade : Env → DelegateOptions → ℕ → DelegateResult → DelegateResult → Healed
unfolding attempt give_up
upgrade e o k quoted r =
    let m = get_escalation_model e o.model in
    let call : Call = record {
      model = e.resolve m;
      thinking = think_more o.thinking;
      timeout_ms = o.timeout_ms;
      prompt = after_failure quoted;
    } in
    if str_eq m o.model then give_up r else attempt e k call give_up

-- Attempts 1.5 and 2.
retry_again : Env → DelegateOptions → ℕ → DelegateResult → Healed
unfolding attempt upgrade
retry_again e o k r =
    let call : Call = record {
      model = o.model;
      thinking = o.thinking;
      timeout_ms = o.timeout_ms;
      prompt = after_failure r;
    } in
    record (attempt e k call (upgrade e o (suc k) r)) {
      autofixed = o.has_working_dir && not (is_read_only_delegate_options o);
    }

-- What follows the first failure.
heal : Env → DelegateOptions → DelegateResult → Healed
unfolding attempt retry_again get_unavailable_model_fallback is_model_unavailable
heal e o r =
    let m = e.resolve (get_unavailable_model_fallback e o.model) in
    let call : Call = record {
      model = m;
      thinking = o.thinking;
      timeout_ms = o.timeout_ms;
      prompt = runtime_note m;
    } in
    if is_model_unavailable e r && not (str_eq m o.model)
    then attempt e 1 call (retry_again e o 2)
    else retry_again e o 1 r

unfoldable pub first_call : DelegateOptions → String → Call
unfolding timeout_for_role
first_call o role = record {
  model = o.model;
  thinking = o.thinking;
  timeout_ms = some (or_else o.timeout_ms (timeout_for_role role));
  prompt = original;
}

unfoldable pub delegate_with_healing : Env → DelegateOptions → String → Healed
unfolding attempt heal first_call
delegate_with_healing e o role = attempt e 0 (first_call o role) (heal e o)
