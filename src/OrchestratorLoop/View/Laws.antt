-- ===== src/OrchestratorLoop/View/Laws.antt =====
-- engine/orchestrator-loop.ts: which leads are active, and the bounds of the fractions.
use multi_agent_engine.Common.{
  ◌≡◌, refl, ◌∙◌, ap, inl, inr, String, Bool, false, ◌&&◌, ◌||◌, not, Option, List, [], ◌∷◌, keep,
  any, Bool-cases, str_eq, eq_iff, arith,
}
use multi_agent_engine.OrchestratorLoop.{SessionEvent}
use multi_agent_engine.OrchestratorLoop.View.{
  Leads, put, spawns_lead, ends_agent, spawned_from, is_running, active_leads,
}

-- Whether a list of leads has an agent.
abbrev pub has_lead : String → Leads → Bool
has_lead id [] = false
has_lead id ((k, v) ∷ rest) = str_eq k id || has_lead id rest

has_lead-put :
    (id k : String) (name : Option String) (leads : Leads)
    → has_lead id (put k name leads) ≡ (str_eq k id || has_lead id leads)
unfolding put
has_lead-put id k name [] = refl
has_lead-put id k name ((j, v) ∷ rest) =
    ground (arith, has_lead-put id k name rest, eq_iff j k, eq_iff k id, eq_iff j id)

abbrev pub spawns_agent : String → SessionEvent → Bool
spawns_agent id e = spawns_lead e && str_eq e.agent_id id

has_lead-spawned_from :
    (id : String) (es : List SessionEvent) (leads : Leads)
    → has_lead id (spawned_from es leads) ≡ (has_lead id leads || any (spawns_agent id) es)
unfolding spawned_from
has_lead-spawned_from id [] leads = ground arith
has_lead-spawned_from id (e ∷ es) leads = elim (Bool-cases (spawns_lead e)) [
  | inl s ↦ rw s (
      has_lead-spawned_from id es (put e.agent_id e.agent_name leads)
      ∙ ground (arith, has_lead-put id e.agent_id e.agent_name leads))
  | inr s ↦ rw s (has_lead-spawned_from id es leads)
]

-- A test that agrees with `b` on the entries of `id` keeps them all or none.
has_lead-keep :
    (id : String) (events : List SessionEvent) (leads : Leads)
    → has_lead id (keep (is_running events) leads)
      ≡ (has_lead id leads && not (any (ends_agent id) events))
has_lead-keep id events [] = refl
has_lead-keep id events ((k, v) ∷ rest) =
    let ih = has_lead-keep id events rest in
    elim (Bool-cases (str_eq k id)) [
      | inl e ↦
          let same : k ≡ id = (eq_iff k id).0 e in
          let there : any (ends_agent k) events ≡ any (ends_agent id) events =
            ap (λ (j : String). any (ends_agent j) events) same in
          ground (arith, ih, e, there)
      | inr e ↦ ground (arith, ih, e)
    ]

-- An agent is among the active leads exactly when one of the recent events spawned it as a lead
-- and none of them ended it, in whichever order they came.
pub has_lead-active_leads :
    (events : List SessionEvent) (id : String)
    → has_lead id (active_leads events)
      ≡ (any (spawns_agent id) events && not (any (ends_agent id) events))
unfolding active_leads
has_lead-active_leads events id =
    has_lead-keep id events (spawned_from events [])
    ∙ ap (λ (b : Bool). b && not (any (ends_agent id) events)) (has_lead-spawned_from id events [])
