-- ===== src/Certification/Validate/Laws.antt =====
-- engine/certification-validator.ts: what follows from a session that is validated.
use multi_agent_engine.Common.{
  ◌≡◌, refl, inl, inr, Bool, true, List, [], ◌∷◌, all, All, Bool-cases, arith,
}
use multi_agent_engine.SpawnDecision.{is_empty}
use multi_agent_engine.Certification.Event.{TraceEvent}
use multi_agent_engine.Certification.Checks.{
  missing_leads, operational_failures, drifted, wrong_fixture, stale_participants,
}
use multi_agent_engine.Certification.Artifacts.{
  empty_outputs, leaked_contracts, team_contract_issues, canonical_artifact,
}
use multi_agent_engine.Certification.Spawns.{check_spawn_decisions}
use multi_agent_engine.Certification.Steering.{check_steer_events}
use multi_agent_engine.Certification.Validate.{
  ValidatorContext, ValidationCheck, is_passed, blocking, contract_reasons, checks_of,
  validate_certification_evidence,
}

pub all-All {ℓ} :
    {A : Type ℓ} (p : A → Bool) (xs : List A) → all p xs ≡ true → All (λ x. p x ≡ true) xs
all-All p [] h = tt
all-All p (x ∷ xs) h = (ground arith, all-All p xs (ground arith))

-- The checks that validation waits for.
pub record Passes (c : ValidatorContext) (events : List TraceEvent) : Type 0 where
  pub leads : is_empty (missing_leads events) ≡ true
  pub failures : is_empty (operational_failures events) ≡ true
  pub outputs : is_empty (empty_outputs c.artifact events) ≡ true
  pub drift : is_empty (drifted events c.work_dir) ≡ true
  pub fixture : is_empty (wrong_fixture events c.work_dir c.expected_fixture) ≡ true
  pub leaks : is_empty (leaked_contracts c.artifact events) ≡ true
  pub canonical : (canonical_artifact c.artifact events).0 ≡ true
  pub contracts : is_empty (team_contract_issues c.artifact events) ≡ true
  pub stale : is_empty (stale_participants events) ≡ true
  pub contract : is_empty (contract_reasons c events) ≡ true
  pub spawns : is_empty (check_spawn_decisions events c.strict_spawn_decisions) ≡ true
  pub steers : is_empty (check_steer_events events c.interactive_cert) ≡ true

pub validated-Passes :
    (c : ValidatorContext) (events : List TraceEvent)
    → (validate_certification_evidence c events).validated ≡ true
    → Passes c events
unfolding validate_certification_evidence
validated-Passes c events h =
    let a = all-All is_passed (checks_of c events) h in
    elim (Bool-cases c.is_live_pi) [
      | inl e ↦
          let (l, (f, (o, (d, (w, (_, (_, (k, (n, (t, (s, (m, (p, (i, _)))))))))))))) =
            rw (e, checks_of) at a in
          record {
            leads = l;
            failures = f;
            outputs = o;
            drift = d;
            fixture = w;
            leaks = k;
            canonical = n;
            contracts = t;
            stale = s;
            contract = m;
            spawns = p;
            steers = i;
          }
      | inr e ↦
          let (l, (f, (o, (d, (w, (k, (n, (t, (s, (m, (p, (i, _)))))))))))) =
            rw (e, checks_of) at a in
          record {
            leads = l;
            failures = f;
            outputs = o;
            drift = d;
            fixture = w;
            leaks = k;
            canonical = n;
            contracts = t;
            stale = s;
            contract = m;
            spawns = p;
            steers = i;
          }
    ]

blocking-is_empty : (cs : List ValidationCheck) → all is_passed cs ≡ is_empty (blocking cs)
blocking-is_empty [] = refl
blocking-is_empty (c ∷ cs) = elim (Bool-cases c.passed) [
  | inl e ↦ rw e (blocking-is_empty cs)
  | inr e ↦ rw e refl
]

-- A session is validated exactly when there is no blocking reason.
pub validated-blocking_reasons :
    (c : ValidatorContext) (events : List TraceEvent)
    → let v = validate_certification_evidence c events in v.validated ≡ is_empty v.blocking_reasons
unfolding validate_certification_evidence
validated-blocking_reasons c events = blocking-is_empty (checks_of c events)
