-- ===== src/Certification/Validate/Sound.antt =====
-- engine/certification-validator.ts: the evidence behind a session that is validated.
use multi_agent_engine.Common.{
  any-Memᴰ, ◌≡◌, refl, inl, inr, Bool, true, false, not, ◌&&◌, Option, none, some, some_inj, ap,
  ◌∙◌, List, [], ◌∷◌, ◌++◌, any, All, Memᴰ, Bool-cases, Option-cases, arith,
}
use mathlib.Core.List.Memᴰ.{head, tail}
use multi_agent_engine.Pipeline.{Text}
use multi_agent_engine.SpawnDecision.{is_empty}
use multi_agent_engine.SpawnDecision.Laws.{keep-nil}
use multi_agent_engine.Certification.Event.{
  TraceEvent, RequiredLead, required_leads, is_operational_failure, artifact_ref, same,
}
use multi_agent_engine.Certification.Contract.{ParsedCertContract, parse_cert_contract}
use multi_agent_engine.Certification.Match.{
  Fixture, clean, seeded, failing, Evidence, Reason, when, is_number, is_ready, has_failed_teams,
  mismatches, missing_fields, missing_perspectives, contradictions, expected,
}
use multi_agent_engine.Certification.Checks.{completes, missing_leads, operational_failures}
use multi_agent_engine.Certification.Artifacts.{
  is_synthesis_end, has_contract, first_contract, canonical_artifact,
}
use multi_agent_engine.Certification.Validate.{
  ValidatorContext, evidence_of, contract_reasons, validate_certification_evidence,
}
use multi_agent_engine.Certification.Validate.Laws.{validated-Passes}

abbrev pub Completed : List TraceEvent → RequiredLead → Type 0
Completed events req = (e : TraceEvent) × Memᴰ e events × (completes req e ≡ true)

leads_complete :
    (events : List TraceEvent) (reqs : List RequiredLead)
    → All (λ req. not (any (completes req) events) ≡ false) reqs
    → All (Completed events) reqs
leads_complete events [] h = tt
leads_complete events (r ∷ rs) (h, k) =
    (any-Memᴰ (completes r) events (ground arith), leads_complete events rs k)

-- What a contract says, by the fixture that was expected.
abbrev pub SaysExpected : Option Fixture → ParsedCertContract → Type 0
SaysExpected none k = Unit
SaysExpected (some clean) k =
    (same k.verdict "pass" ≡ true)
    × (is_number 0 k.p0_count ≡ true)
    × (is_number 0 k.p1_count ≡ true)
    × (is_ready k.certification_ready true ≡ true)
    × (has_failed_teams k.failed_teams ≡ false)
SaysExpected (some seeded) k =
    (is_ready k.certification_ready false ≡ true)
    × (same k.verdict "pass" && (is_number 0 k.p0_count && is_number 0 k.p1_count) ≡ false)
SaysExpected (some failing) k =
    (same k.verdict "fail" ≡ true) × (is_ready k.certification_ready false ≡ true)

first_contract-Memᴰ :
    (artifact : Text → Option Text) (events : List TraceEvent) (content : Text)
    → first_contract artifact events ≡ some content
    → (e : TraceEvent) × Memᴰ e events
      × (is_synthesis_end e ≡ true)
      × (artifact (artifact_ref e) ≡ some content)
unfolding first_contract
first_contract-Memᴰ artifact [] content h = absurd (cc h)
first_contract-Memᴰ artifact (e ∷ es) content h =
    let later = first_contract-Memᴰ artifact es content in
    elim (Option-cases (artifact (artifact_ref e))) [
      | inl n ↦ let (x, m, a, r) = later (rw (n, first_contract) at h) in (x, tail m, a, r)
      | inr (c, f) ↦ elim (Bool-cases (is_synthesis_end e && has_contract c)) [
        | inl y ↦
            let same_content : c ≡ content = some_inj.0 (rw (f, y, first_contract) at h) in
            (e, head refl, ground arith, f ∙ ap some same_content)
        | inr y ↦ let (x, m, a, r) = later (rw (f, y, first_contract) at h) in (x, tail m, a, r)
      ]
    ]

pub empty_parts {ℓ} :
    {A : Type ℓ} (xs ys : List A)
    → is_empty (xs ++ ys) ≡ true
    → (is_empty xs ≡ true) × (is_empty ys ≡ true)
empty_parts [] ys h = (refl, h)
empty_parts (x ∷ xs) ys h = absurd (cc h)

-- A reason that is not given was not met.
not_given : (b : Bool) (r : Reason) → is_empty (when (not b) r) ≡ true → b ≡ true
not_given true r h = refl
not_given false r h = absurd (cc h)

none_given : (b : Bool) (r : Reason) → is_empty (when b r) ≡ true → b ≡ false
none_given false r h = refl
none_given true r h = absurd (cc h)

expected-SaysExpected :
    (f : Option Fixture) (k : ParsedCertContract)
    → is_empty (expected f k) ≡ true
    → SaysExpected f k
unfolding expected
expected-SaysExpected none k h = tt
expected-SaysExpected (some clean) k h =
    let (v, r) = empty_parts (when (not (same k.verdict "pass")) _) _ h in
    let (p, r1) = empty_parts (when (not (is_number 0 k.p0_count)) _) _ r in
    let (q, r2) = empty_parts (when (not (is_number 0 k.p1_count)) _) _ r1 in
    let (y, w) = empty_parts (when (not (is_ready k.certification_ready true)) _) _ r2 in
    (not_given _ _ v, not_given _ _ p, not_given _ _ q, not_given _ _ y, none_given _ _ w)
expected-SaysExpected (some seeded) k h =
    let (y, w) = empty_parts (when (not (is_ready k.certification_ready false)) _) _ h in
    (not_given _ _ y, none_given _ _ w)
expected-SaysExpected (some failing) k h =
    let (v, y) = empty_parts (when (not (same k.verdict "fail")) _) _ h in
    (not_given _ _ v, not_given _ _ y)

mismatches-SaysExpected :
    (k : ParsedCertContract) (e : Evidence) (f : Option Fixture)
    → is_empty (mismatches (some k) e f) ≡ true
    → (is_number 1 k.schema_version ≡ true) × SaysExpected f k
unfolding mismatches
mismatches-SaysExpected k e f h =
    let (v, r) = empty_parts (when (not (is_number 1 k.schema_version)) _) _ h in
    let (_, r1) = empty_parts (missing_fields k) _ r in
    let (_, r2) = empty_parts (missing_perspectives k.perspectives_covered) _ r1 in
    let (_, x) = empty_parts (contradictions k e) _ r2 in
    (not_given _ _ v, expected-SaysExpected f k x)

mismatches-none : (e : Evidence) (f : Option Fixture) → is_empty (mismatches none e f) ≡ false
unfolding mismatches
mismatches-none e f = refl

-- The artifact of a synthesis, with a contract that says what the fixture should give.
abbrev pub HasContract : ValidatorContext → List TraceEvent → Type 0
HasContract c events =
    (e : TraceEvent) × (content : Text) × (k : ParsedCertContract) × Memᴰ e events
    × (is_synthesis_end e ≡ true)
    × (c.artifact (artifact_ref e) ≡ some content)
    × (parse_cert_contract content ≡ some k)
    × (is_number 1 k.schema_version ≡ true)
    × SaysExpected c.expected_fixture k

canonical-HasContract :
    (c : ValidatorContext) (events : List TraceEvent)
    → (canonical_artifact c.artifact events).0 ≡ true
    → is_empty (contract_reasons c events) ≡ true
    → HasContract c events
unfolding canonical_artifact
canonical-HasContract c events h k = elim (Option-cases (first_contract c.artifact events)) [
  | inl n ↦ absurd (cc (h, n))
  | inr (content, f) ↦
      let (e, m, s, a) = first_contract-Memᴰ c.artifact events content f in
      let k' = rw (f, canonical_artifact) at k in
      elim (Option-cases (parse_cert_contract content)) [
        | inl n ↦
            let k2 : is_empty (mismatches none (evidence_of c events) c.expected_fixture) ≡ true =
              rw n at k' in
            absurd (cc (k2, mismatches-none (evidence_of c events) c.expected_fixture))
        | inr (q, p) ↦
            let (v, x) =
              mismatches-SaysExpected q (evidence_of c events) c.expected_fixture (rw p at k') in
            (e, content, q, m, s, a, p, v, x)
      ]
]

missing_leads-Completed :
    (events : List TraceEvent)
    → is_empty (missing_leads events) ≡ true
    → All (Completed events) required_leads
unfolding missing_leads
missing_leads-Completed events h =
    leads_complete events required_leads
      (keep-nil (λ req. not (any (completes req) events)) required_leads h)

operational_failures-nil :
    (events : List TraceEvent)
    → is_empty (operational_failures events) ≡ true
    → All (λ e. is_operational_failure e ≡ false) events
unfolding operational_failures
operational_failures-nil events h = keep-nil is_operational_failure events h

-- Behind a session that is validated: each of the five required leads has an event in which it completed;
-- no event is an operational failure; and a synthesis ended with an artifact whose contract was read,
-- has version 1, and says what the expected fixture should give: for the clean one a pass without P0 and
-- P1 findings or failed teams, ready; for the seeded one not ready, and no pass without P0 and P1
-- findings; for the failing one a fail, not ready.
pub validated-HasContract :
    (c : ValidatorContext) (events : List TraceEvent)
    → (validate_certification_evidence c events).validated ≡ true
    → All (Completed events) required_leads
      × All (λ e. is_operational_failure e ≡ false) events
      × HasContract c events
validated-HasContract c events h =
    let p = validated-Passes c events h in
    (
      missing_leads-Completed events p.leads,
      operational_failures-nil events p.failures,
      canonical-HasContract c events p.canonical p.contract,
    )
