-- ===== src/Team/Gates/Laws.antt =====
-- engine/team-execution.ts and engine/worker-lifecycle.ts: what the agents of a review may use.
use multi_agent_engine.Common.{
  ℕ, ◌≡◌, refl, inl, inr, String, Bool, true, false, ◌||◌, Option, none, some, List, [], ◌∷◌, any,
  keep, str_eq, Bool-cases, eq_iff, arith, or_else, both_branches,
}
use multi_agent_engine.SpawnDecision.{
  SpawnDecision, is_empty, has_tool, validate_spawn_decision_for_execution,
  apply_spawn_decision_constraints,
}
use multi_agent_engine.Team.Data.{TeamMember}
use multi_agent_engine.Team.ReviewMode.{
  is_read_only_name, distinct, read_only_tools, apply_review_only_options, read_only_domain,
}
use multi_agent_engine.Team.Gates.{
  Rights, lead_rights, plain_rights, worker_rights, gate, retry_rights, merged_rights, sr_rights,
}

-- Only tools that read, and nothing to write or to update.
abbrev pub IsHarmless : Rights → Type 0
IsHarmless r =
    ((t : String) → has_tool r.0 t ≡ true → is_read_only_name t ≡ true)
    × (r.1.write ≡ [])
    × (r.1.update ≡ [])

AllowsReading : List String → Type 0
AllowsReading ts = (t : String) → has_tool ts t ≡ true → is_read_only_name t ≡ true

has_tool-keep_both :
    (p : String → Bool) (ts : List String) (t : String)
    → has_tool (keep p ts) t ≡ true
    → (p t ≡ true) × (has_tool ts t ≡ true)
has_tool-keep_both p [] t h = absurd (cc h)
has_tool-keep_both p (x ∷ xs) t h =
    let ih = has_tool-keep_both p xs t in
    elim (Bool-cases (p x)) [
      | inr e ↦ let (a, b) = ih (rw e at h) in (a, ground (arith, b))
      | inl e ↦ elim (Bool-cases (str_eq t x)) [
        | inl s ↦ let same : t ≡ x = (eq_iff t x).0 s in (rw same e, ground (arith, s))
        | inr s ↦
            let h' : (str_eq t x || has_tool (keep p xs) t) ≡ true = rw e at h in
            let (a, b) = ih (rw s at h') in (a, ground (arith, b))
      ]
    ]

distinct-has_tool :
    (seen ts : List String) (t : String)
    → has_tool (distinct seen ts) t ≡ true
    → has_tool ts t ≡ true
unfolding distinct
distinct-has_tool seen [] t h = h
distinct-has_tool seen (x ∷ xs) t h = elim (Bool-cases (any (str_eq x) seen)) [
  | inl e ↦ ground (arith, distinct-has_tool (x ∷ seen) xs t (rw e at h))
  | inr e ↦
      let h' : (str_eq t x || has_tool (distinct (x ∷ seen) xs) t) ≡ true = rw e at h in
      elim (Bool-cases (str_eq t x)) [
        | inl s ↦ ground (arith, s)
        | inr s ↦ ground (arith, distinct-has_tool (x ∷ seen) xs t (rw s at h'))
      ]
]

read_only_tools-AllowsReading : (ts : List String) → AllowsReading (read_only_tools ts)
unfolding AllowsReading read_only_tools
read_only_tools-AllowsReading ts t h = elim (Bool-cases (is_empty (keep is_read_only_name ts))) [
  | inl e ↦ rw e at h
  | inr e ↦
      let h' : has_tool (distinct [] (keep is_read_only_name ts)) t ≡ true = rw e at h in
      (has_tool-keep_both is_read_only_name ts t (distinct-has_tool [] _ t h')).0
]

options-IsHarmless : (r : Rights) → IsHarmless (apply_review_only_options r true)
unfolding apply_review_only_options read_only_domain AllowsReading
options-IsHarmless (ts, d) = (read_only_tools-AllowsReading ts, refl, refl)

constraints-IsHarmless :
    (r : Rights) (d : SpawnDecision)
    → IsHarmless r
    → IsHarmless (apply_spawn_decision_constraints r.0 r.1 d true)
unfolding apply_spawn_decision_constraints
constraints-IsHarmless (ts, dom) d (h, _, _) =
    ((λ t k. h t (has_tool-keep_both (has_tool d.allowed_tools) ts t k).1), refl, refl)

-- Where the gate refuses, nothing is run.
abbrev pub IsHarmlessIfRun : Option Rights → Type 0
IsHarmlessIfRun none = Unit
IsHarmlessIfRun (some r) = IsHarmless r

gate-IsHarmlessIfRun :
    (strict : Bool) (r : Rights) (d : SpawnDecision)
    → IsHarmless r
    → IsHarmlessIfRun (gate strict r d true)
unfolding gate
gate-IsHarmlessIfRun false (ts, dom) d h = h
gate-IsHarmlessIfRun true (ts, dom) d h =
    both_branches IsHarmlessIfRun (is_empty (validate_spawn_decision_for_execution d ts))
      (constraints-IsHarmless (ts, dom) d h) tt

pub worker_rights-IsHarmless :
    (strict : Bool) (m : TeamMember) (d : Option SpawnDecision)
    → IsHarmless (worker_rights strict m d true)
unfolding worker_rights plain_rights
worker_rights-IsHarmless false m d = options-IsHarmless (m.tools, m.domain)
worker_rights-IsHarmless true m none = options-IsHarmless (m.tools, m.domain)
worker_rights-IsHarmless true m (some d) =
    constraints-IsHarmless (apply_review_only_options (m.tools, m.domain) true) d
      (options-IsHarmless (m.tools, m.domain))

pub retry_rights-IsHarmlessIfRun :
    (numeral : ℕ → String) (strict : Bool) (m : TeamMember) (attempt : ℕ)
    → IsHarmlessIfRun (retry_rights numeral strict m true attempt)
unfolding retry_rights plain_rights
retry_rights-IsHarmlessIfRun numeral strict m attempt =
    gate-IsHarmlessIfRun strict _ _ (options-IsHarmless (m.tools, m.domain))

pub sr_rights-IsHarmlessIfRun :
    (strict : Bool) (ms : List TeamMember) (senior worker : String)
    → IsHarmlessIfRun (sr_rights strict ms senior worker true)
unfolding sr_rights
sr_rights-IsHarmlessIfRun strict ms senior worker =
    gate-IsHarmlessIfRun strict _ _ (options-IsHarmless (merged_rights ms))

pub lead_rights-IsHarmless :
    (override : Option (List String)) (lead : TeamMember)
    → IsHarmless (lead_rights override lead true)
unfolding lead_rights
lead_rights-IsHarmless override lead = options-IsHarmless (or_else override lead.tools, lead.domain)
