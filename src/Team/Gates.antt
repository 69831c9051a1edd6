-- ===== src/Team/Gates.antt =====
-- What the agents of a team may use: prepareTeamStep and executeWorkers of engine/team-execution.ts,
-- retryWorker and spawnSenior of engine/worker-lifecycle.ts. In strict mode a retry and a senior go
-- through a spawn decision that the engine makes itself. `numeral` is the decimal numeral of a number.
pub mod Laws
use Prim.Native.String.{◌++◌ as ◌<>◌}
use multi_agent_engine.Common.{
  ℕ, String, Bool, true, false, not, ◌&&◌, Option, none, some, or_else, List, [], ◌∷◌, ◌++◌, any,
  keep, if◌then◌else◌,
}
use multi_agent_engine.Pipeline.{Text}
use multi_agent_engine.SpawnDecision.{
  SpawnDecision, isolated, SpawnError, Domain, is_empty, unique,
  validate_spawn_decision_for_execution, apply_spawn_decision_constraints,
}
use multi_agent_engine.SpawnDecision.Paths.{has_unsafe_path}
use multi_agent_engine.Team.Names.{codes}
use multi_agent_engine.Team.ReviewMode.{
  read_only_tools, apply_review_only_options, distinct, read_only_domain,
}
use multi_agent_engine.Team.Data.{TeamMember}

abbrev pub Rights : Type 0
Rights = List String × Domain

-- The lead's tools are those of the step, or else those of its persona.
unfoldable pub lead_rights : Option (List String) → TeamMember → Bool → Rights
lead_rights override lead review_only =
    apply_review_only_options (or_else override lead.tools, lead.domain) review_only

unfoldable pub plain_rights : TeamMember → Bool → Rights
plain_rights m review_only = apply_review_only_options (m.tools, m.domain) review_only

unfoldable pub worker_rights : Bool → TeamMember → Option SpawnDecision → Bool → Rights
unfolding plain_rights
worker_rights false m d review_only = plain_rights m review_only
worker_rights true m none review_only = plain_rights m review_only
worker_rights true m (some d) review_only =
    let (tools, domain) = plain_rights m review_only in
    apply_spawn_decision_constraints tools domain d review_only

-- The tests of safeDerivedPaths are those of hasUnsafePath of engine/spawn-decision.ts.
unfoldable pub safe_derived_paths : List Text → Text → List Text
safe_derived_paths paths fallback =
    let safe = keep (λ p. not (has_unsafe_path p)) paths in
    unique [] (if is_empty safe then fallback ∷ [] else safe)

abbrev pub paths_of : Domain → List Text
paths_of d = d.read ++ (d.write ++ d.update)

abbrev forbidden : List Text
forbidden = codes ".env" ∷ codes "node_modules" ∷ []

unfoldable pub retry_decision : (ℕ → String) → TeamMember → Rights → ℕ → SpawnDecision
unfolding safe_derived_paths
retry_decision numeral m (tools, domain) attempt = record {
  need_worker = true;
  worker_name = some (m.name <> (" (retry " <> (numeral attempt <> ")")));
  reason = "Retry authorized after lead review requested rework for " <> (m.name <> ".");
  why_lead_cannot_do_it = "The original specialist owns the reworked assignment evidence.";
  allowed_paths = safe_derived_paths (paths_of domain) m.path;
  allowed_tools = tools;
  forbidden_paths = forbidden;
  bus_policy = isolated;
  expected_output_schema = "REWORKED_WORKER_RESULT";
  timeout_seconds = 600;
}

-- `senior` is the name with the domains, and `worker` the one whose review asked for a senior.
unfoldable pub sr_decision : String → String → Rights → SpawnDecision
unfolding safe_derived_paths
sr_decision senior worker (tools, domain) = record {
  need_worker = true;
  worker_name = some senior;
  reason =
      "Sr. recovery authorized for "
      <> (worker <> " after lead review requested cross-domain help.");
  why_lead_cannot_do_it =
      "The failed review requires combined specialist domains beyond the lead-only path.";
  allowed_paths = safe_derived_paths (paths_of domain) (codes "agents/personas");
  allowed_tools = tools;
  forbidden_paths = forbidden;
  bus_policy = isolated;
  expected_output_schema = "SR_RECOVERY_RESULT";
  timeout_seconds = 900;
}

-- The gate before a retry or a senior: `none` where the decision is invalid and the code throws.
unfoldable pub gate : Bool → Rights → SpawnDecision → Bool → Option Rights
gate strict (tools, domain) d review_only =
    if strict
    then if is_empty (validate_spawn_decision_for_execution d tools)
      then some (apply_spawn_decision_constraints tools domain d review_only)
      else none
    else some (tools, domain)

unfoldable pub retry_rights : (ℕ → String) → Bool → TeamMember → Bool → ℕ → Option Rights
unfolding plain_rights gate
retry_rights numeral strict m review_only attempt =
    let r = plain_rights m review_only in
    gate strict r (retry_decision numeral m r attempt) review_only

-- The domains of the members together; a senior may delete nothing.
abbrev flat {ℓ} : {A : Type ℓ} → (TeamMember → List A) → List TeamMember → List A
flat f [] = []
flat f (m ∷ ms) = f m ++ flat f ms

unfoldable pub merged_rights : List TeamMember → Rights
merged_rights ms = (
  distinct [] (flat (λ m. m.tools) ms),
  record {
    read = unique [] (flat (λ m. m.domain.read) ms);
    write = unique [] (flat (λ m. m.domain.write) ms);
    update = unique [] (flat (λ m. m.domain.update) ms);
    delete = none;
  },
)

unfoldable pub sr_rights : Bool → List TeamMember → String → String → Bool → Option Rights
unfolding gate merged_rights
sr_rights strict ms senior worker review_only =
    let r = apply_review_only_options (merged_rights ms) review_only in
    gate strict r (sr_decision senior worker r) review_only
