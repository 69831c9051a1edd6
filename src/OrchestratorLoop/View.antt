-- ===== src/OrchestratorLoop/View.antt =====
-- What the loop tells of a session: getActiveLeads, computeProgress, computeBudgetPercent and
-- computeAvailableActions of engine/orchestrator-loop.ts. A percentage is a fraction, the numerator
-- first.
pub mod Laws
use multi_agent_engine.Common.{
  ℕ, ◌*◌, String, Bool, true, false, ◌&&◌, ◌||◌, not, Option, none, some, List, [], ◌∷◌, map, keep,
  any, length, max, leb, str_eq, if◌then◌else◌,
}
use multi_agent_engine.Session.{Status, known, active, paused}
use multi_agent_engine.Budget.{BudgetState, BudgetLimits}
use multi_agent_engine.Chain.TillDone.{TillDoneItem}
use multi_agent_engine.OrchestratorLoop.{SessionEvent}

-- A map from agents to names, in the order in which the agents came first.
abbrev pub Leads : Type 0
Leads = List (String × Option String)

put : String → Option String → Leads → Leads
put id name [] = (id, name) ∷ []
put id name ((k, v) ∷ rest) =
    let later = put id name rest in if str_eq k id then (k, name) ∷ rest else (k, v) ∷ later

abbrev is_lead : Option String → Bool
is_lead none = false
is_lead (some role) = str_eq role "lead"

abbrev pub spawns_lead : SessionEvent → Bool
spawns_lead e = str_eq e.event_type "agent_spawn" && is_lead e.agent_role

abbrev pub ends_agent : String → SessionEvent → Bool
ends_agent id e = str_eq e.event_type "agent_done" && str_eq e.agent_id id

spawned_from : List SessionEvent → Leads → Leads
unfolding put
spawned_from [] leads = leads
spawned_from (e ∷ es) leads =
    spawned_from es (if spawns_lead e then put e.agent_id e.agent_name leads else leads)

abbrev pub is_running : List SessionEvent → String × Option String → Bool
is_running events lead = not (any (ends_agent lead.0) events)

unfoldable pub active_leads : List SessionEvent → Leads
unfolding spawned_from
active_leads events = keep (is_running events) (spawned_from events [])

unfoldable pub get_active_leads : List SessionEvent → List (Option String)
get_active_leads events = map (λ (lead : String × Option String). lead.1) (active_leads events)

abbrev is_completed : TillDoneItem → Bool
is_completed t = t.completed

unfoldable pub compute_progress : List TillDoneItem → ℕ × ℕ
compute_progress items = (length (keep is_completed items) * 100, max (length items) 1)

budget_fraction : Option BudgetLimits → ℕ → ℕ × ℕ
budget_fraction none cost = (0, 1)
budget_fraction (some l) cost =
    if leb l.max_per_session 0 then (0, 1) else (cost * 100, l.max_per_session)

unfoldable pub compute_budget_percent : BudgetState → ℕ → ℕ × ℕ
unfolding budget_fraction
compute_budget_percent b cost = budget_fraction b.budgets cost

unfoldable pub compute_available_actions : Status → List String
compute_available_actions (known paused) = "resume" ∷ "stop" ∷ []
compute_available_actions (known active) = "pause" ∷ "stop" ∷ []
compute_available_actions _ = []
