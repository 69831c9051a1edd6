-- ===== src/Team/Reviews/Calls.antt =====
-- The calls of agents in a review: leadReviewWorkers, retryWorker and spawnSenior of
-- engine/worker-lifecycle.ts, and what leadReviewAndRetry of engine/team-execution.ts does with their
-- results.
use Prim.Native.String.{◌++◌ as ◌<>◌}
use multi_agent_engine.Common.{
  ℕ, suc, String, Bool, true, false, ◌||◌, Option, none, some, List, [], ◌∷◌, ◌++◌, set, str_eq,
  if◌then◌else◌,
}
use multi_agent_engine.Pipeline.{Text}
use multi_agent_engine.Chain.Feedback.{failed}
use multi_agent_engine.SpawnDecision.{is_empty}
use multi_agent_engine.SpawnDecision.Paths.{text_eq}
use multi_agent_engine.Team.Names.{codes, dashed, worker_key}
use multi_agent_engine.Team.ReviewMode.{is_review_only_step}
use multi_agent_engine.Team.Gates.{Rights, retry_rights, sr_rights}
use multi_agent_engine.Team.Data.{
  TeamMember, TeamConfig, TeamStep, pass, WorkerReview, DelegateResult, Outcome, done, threw,
  and_then,
}
use multi_agent_engine.Team.Reviews.Parts.{
  Env, State, tick, add_totals, charge, assert_active, parse_reviews, assign,
}

-- Replaces the first element that passes the test, or else adds the new one at the end.
abbrev pub put {ℓ} : {A : Type ℓ} → (A → Bool) → A → List A → List A
put p y [] = y ∷ []
put p y (x ∷ xs) = if p x then y ∷ xs else x ∷ put p y xs

-- Replaces the first element that passes the test.
abbrev pub replace {ℓ} : {A : Type ℓ} → (A → Bool) → (A → A) → List A → List A
replace p f [] = []
replace p f (x ∷ xs) = if p x then f x ∷ xs else x ∷ replace p f xs

abbrev pub has_id : Text → DelegateResult → Bool
has_id id r = text_eq r.agent_id id

abbrev pub is_for : Text → WorkerReview → Bool
is_for id r = text_eq r.worker_id id

abbrev pub is_result_of : WorkerReview → DelegateResult → Bool
is_result_of r d =
    has_id r.worker_id d || text_eq (worker_key d.agent_name) (worker_key r.worker_name)

-- What stays the same in a team step.
pub record Job : Type 0 where
  pub env : Env
  pub step : TeamStep
  pub team : TeamConfig

abbrev pub review_only : Job → Bool
review_only j = is_review_only_step j.step.read_only j.step.system_prompt_append

-- The agent of a retry or a senior: the gate, the delegation and the charge; then `k` goes on with the
-- result.
unfoldable pub run_agent :
    Job → Option Rights → State → (DelegateResult → State → Outcome State) → Outcome State
run_agent j none s k = threw s
run_agent j (some g) s k =
    let s' = record s { started = g ∷ s.started; ticks = suc s.ticks } in
    elim (j.env.delegate s.ticks g) [
      | none ↦ threw s'
      | some r ↦ and_then (charge r.cost r.tokens s') (k r)
    ]

-- The lead's answer, which is charged to the session without a check of the budget.
unfoldable pub answered :
    Job → List DelegateResult → (List WorkerReview → State → Outcome State) → State → Outcome State
answered j rs k s = elim (j.env.review s.ticks) [
  | none ↦ threw (tick s)
  | some a ↦
      k (parse_reviews a.block rs)
        (record (tick s) { session = add_totals s.session a.cost a.tokens })
]

-- `leadReviewWorkers`: the reviews of some results.
unfoldable pub lead_review_workers :
    Job → List DelegateResult → State → (List WorkerReview → State → Outcome State) → Outcome State
unfolding answered
lead_review_workers j rs s k = and_then (assert_active j.env s) (answered j rs k)

abbrev pub set_review : ℕ → WorkerReview → State → State
set_review i r s = record s { reviews = set s.reviews i r }

-- `DIRECT_FIX`
unfoldable pub apply_fix : ℕ → WorkerReview → String → State → State
apply_fix i r fix s = record s {
  reviews = set s.reviews i (record r { grade = pass });
  results =
      replace (has_id r.worker_id)
        (λ d. record d { output = d.output <> ("\n\n--- Lead Direct Fix ---\n" <> fix) }) s.results;
}

abbrev pub joined : String → List String → String
joined sep [] = ""
joined sep (x ∷ []) = x
joined sep (x ∷ y ∷ xs) = x <> (sep <> joined sep (y ∷ xs))

abbrev pub sr_name : List String → String
sr_name domains = "Sr. (" <> (joined "+" domains <> ")")

abbrev pub sr_id : Text → List String → Text
sr_id team domains = team ++ codes "-sr-" ++ dashed (codes (joined "-" domains))

abbrev pub find_named : (String → String) → List TeamMember → String → Option TeamMember
find_named lower [] n = none
find_named lower (m ∷ ms) n =
    if str_eq (lower m.name) (lower n) then some m else find_named lower ms n

abbrev pub domain_member : Job → String → Option TeamMember
domain_member j n = elim (find_named j.env.lower j.team.members n) [
  | none ↦ j.env.elsewhere n
  | some m ↦ some m
]

unfoldable pub domain_members : Job → List String → List TeamMember
domain_members j [] = []
domain_members j (n ∷ ns) = elim (domain_member j n) [
  | none ↦ domain_members j ns
  | some m ↦ m ∷ domain_members j ns
]

unfoldable pub not_found : Job → List String → DelegateResult
not_found j domains = record {
  agent_id = sr_id j.step.team domains;
  agent_name = sr_name domains;
  output = "ERROR: Could not find personas for requested domains";
  grade = some failed;
  findings = "sr_domain_not_found" ∷ [];
  cost = 0;
  tokens = 0;
}

-- `SPAWN_SR`: the senior's result takes the worker's place, and the review passes.
abbrev pub take_over : ℕ → WorkerReview → DelegateResult → State → State
take_over i r d s = record s {
  reviews = set s.reviews i (record r { grade = pass });
  results = replace (has_id r.worker_id) (λ _. d) s.results;
}

abbrev pub took_over : ℕ → WorkerReview → DelegateResult → State → Outcome State
took_over i r d s = done (take_over i r d s)

unfoldable pub spawn_senior : Job → List String → ℕ → WorkerReview → State → Outcome State
unfolding run_agent
spawn_senior j domains i r s =
    let ms = domain_members j domains in
    let g = sr_rights j.step.strict ms (sr_name domains) r.worker_name (review_only j) in
    and_then (assert_active j.env s) (λ s1. elim (is_empty ms) [
      | true ↦ took_over i r (not_found j domains) s1
      | false ↦ run_agent j g s1 (took_over i r)
    ])

abbrev pub retried : WorkerReview → String → DelegateResult → State → Outcome State
retried r prompt d s = done (record s {
  results =
      put (is_result_of r) (record d { agent_id = r.worker_id; agent_name = r.worker_name })
        s.results;
  assignments = assign r.worker_id prompt s.assignments;
})

unfoldable pub retry_worker : Job → ℕ → TeamMember → WorkerReview → String → State → Outcome State
unfolding run_agent
retry_worker j attempt m r prompt s = and_then (assert_active j.env s) (λ s1.
    run_agent j (retry_rights j.env.numeral j.step.strict m (review_only j) attempt) s1
      (retried r prompt))
