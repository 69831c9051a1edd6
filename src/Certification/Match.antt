-- ===== src/Certification/Match.antt =====
-- checkContractMatchesEvidence of engine/certification-validator.ts: the reasons for which a contract
-- does not match the evidence.
use multi_agent_engine.Common.{
  ℕ, String, Bool, true, false, not, ◌&&◌, Option, none, some, List, [], ◌∷◌, ◌++◌, any, ◌==◌,
  if◌then◌else◌,
}
use multi_agent_engine.Pipeline.{Text}
use multi_agent_engine.SpawnDecision.Paths.{text_eq, is_nil}
use multi_agent_engine.Team.Names.{codes}
use multi_agent_engine.Team.ReviewMode.{occurs}
use multi_agent_engine.Certification.Event.{same}
use multi_agent_engine.Certification.Contract.{ParsedCertContract, Number, plus, minus}

pub data Fixture : Type 0 where
  clean seeded failing : Fixture

pub data Field : Type 0 where
  verdict p0_count p1_count certification_ready perspectives_covered blockers failed_teams : Field

pub data Reason : Type 0 where
  no_contract bad_version placeholder : Reason
  missing : Field → Reason
  no_perspective : String → Reason
  ready_incomplete ready_empty ready_drift pass_failures ready_failed_teams : Reason
  unexpected : Fixture → Field → Reason

-- `if (test) reasons.push(reason)`
abbrev pub when : Bool → Reason → List Reason
when test r = if test then r ∷ [] else []

abbrev pub is_number : ℕ → Option Number → Bool
is_number n (some (plus k)) = k == n
is_number n (some (minus k)) = k == 0 && n == 0  -- -0 equals 0
is_number n _ = false

abbrev absent {ℓ} : {A : Type ℓ} → Option A → Bool
absent none = true
absent (some a) = false

abbrev pub is_ready : Option Bool → Bool → Bool
is_ready none b = false
is_ready (some true) b = b
is_ready (some false) b = not b

-- `contract.failed_teams && contract.failed_teams !== "none"`
abbrev pub has_failed_teams : Option Text → Bool
has_failed_teams none = false
has_failed_teams (some t) = not (is_nil t) && not (text_eq t (codes "none"))

unfoldable pub missing_fields : ParsedCertContract → List Reason
missing_fields c =
    when (absent c.verdict) (missing verdict)
    ++ (when (absent c.p0_count) (missing p0_count)
        ++ (when (absent c.p1_count) (missing p1_count)
            ++ (when (absent c.certification_ready) (missing certification_ready)
                ++ (when (absent c.perspectives_covered) (missing perspectives_covered)
                    ++ (when (absent c.blockers) (missing blockers)
                        ++ when (absent c.failed_teams) (missing failed_teams))))))

abbrev required_perspectives : List String
required_perspectives = "correctness" ∷ "adversarial" ∷ "quality" ∷ "security" ∷ "domain" ∷ []

unfoldable pub missing_among : List Text → List String → List Reason
missing_among covered [] = []
missing_among covered (p ∷ ps) =
    when (not (any (λ t. occurs t (codes p)) covered)) (no_perspective p)
    ++ missing_among covered ps

unfoldable pub missing_perspectives : Option (List Text) → List Reason
unfolding missing_among
missing_perspectives none = []
missing_perspectives (some covered) = missing_among covered required_perspectives

-- What the trace says: a lead is missing, and there are empty outputs, drift, operational failures.
pub record Evidence : Type 0 where
  pub lifecycle_valid : Bool
  pub has_empty_outputs : Bool
  pub has_scope_drift : Bool
  pub has_failures : Bool

unfoldable pub contradictions : ParsedCertContract → Evidence → List Reason
contradictions c e =
    let ready = is_ready c.certification_ready true in
    when (not e.lifecycle_valid && ready) ready_incomplete
    ++ (when (e.has_empty_outputs && ready) ready_empty
        ++ (when (e.has_scope_drift && ready) ready_drift
            ++ (when (e.has_failures && same c.verdict "pass") pass_failures
                ++ (when (has_failed_teams c.failed_teams && ready) ready_failed_teams
                    ++ when (same c.verdict "pass|fail") placeholder))))

unfoldable pub expected_clean : ParsedCertContract → List Reason
expected_clean c =
    when (not (same c.verdict "pass")) (unexpected clean verdict)
    ++ (when (not (is_number 0 c.p0_count)) (unexpected clean p0_count)
        ++ (when (not (is_number 0 c.p1_count)) (unexpected clean p1_count)
            ++ (when (not (is_ready c.certification_ready true))
                  (unexpected clean certification_ready)
                ++ when (has_failed_teams c.failed_teams) (unexpected clean failed_teams))))

unfoldable pub expected_seeded : ParsedCertContract → List Reason
expected_seeded c =
    when (not (is_ready c.certification_ready false)) (unexpected seeded certification_ready)
    ++ when (same c.verdict "pass" && (is_number 0 c.p0_count && is_number 0 c.p1_count))
        (unexpected seeded verdict)

unfoldable pub expected_failing : ParsedCertContract → List Reason
expected_failing c =
    when (not (same c.verdict "fail")) (unexpected failing verdict)
    ++ when (not (is_ready c.certification_ready false)) (unexpected failing certification_ready)

unfoldable pub expected : Option Fixture → ParsedCertContract → List Reason
unfolding expected_clean expected_seeded expected_failing
expected none c = []
expected (some clean) c = expected_clean c
expected (some seeded) c = expected_seeded c
expected (some failing) c = expected_failing c

unfoldable pub mismatches : Option ParsedCertContract → Evidence → Option Fixture → List Reason
unfolding missing_fields missing_perspectives contradictions expected
mismatches none e fixture = no_contract ∷ []
mismatches (some c) e fixture =
    when (not (is_number 1 c.schema_version)) bad_version
    ++ (missing_fields c
        ++ (missing_perspectives c.perspectives_covered
            ++ (contradictions c e ++ expected fixture c)))
