-- ===== src/Sandbox/Tests.antt =====
-- A run of the pool of sandboxes, and its laws at concrete operations.
use multi_agent_engine.Common.{
  ◌<◌, ◌≡◌, ◌≢◌, ◌⊎◌, refl, true, String, subst, sym, All, some, none, List, [], ◌∷◌,
}
use multi_agent_engine.Sandbox.{
  Sandbox, SandboxPool, Op, assigns, releases, new_pool, run, assign, release, get_assigned, status,
}
use multi_agent_engine.Sandbox.Laws.{HasAgent, assign-release}

abbrev ops : List Op
ops = assigns "a" ∷ assigns "b" ∷ releases "a" ∷ []

one_left : (status (run (new_pool true "10.0.0" 81 none) ops)).available ≡ 3
unfolding status run new_pool assign release
one_left = refl

abbrev agent_a : String
agent_a = "a"

abbrev no_agent : String
no_agent = ""

a_named : agent_a ≢ no_agent
a_named h = cc h

abbrev end_of_run : SandboxPool
end_of_run = run (new_pool true "10.0.0" 81 (some 4)) ops

b_named : (agent : String) → agent ≡ "b" → agent ≢ no_agent
b_named agent e = subst (λ a. a ≢ no_agent) (sym e) (λ h. cc h)

ops_named : All HasAgent ops
ops_named = (a_named, (b_named "b" refl, (a_named, tt)))

a_released : get_assigned agent_a end_of_run ≡ none
unfolding get_assigned run new_pool assign release
a_released = refl

assign-release_example :
    (((assign agent_a end_of_run).0 ≡ none)
      × ((status end_of_run).available ≡ 0)
      × ((assign agent_a end_of_run).1.sandboxes ≡ end_of_run.sandboxes))
    ⊎ ((s : Sandbox) × ((assign agent_a end_of_run).0 ≡ some s)
        × (0 < (status end_of_run).available)
        × (get_assigned agent_a (assign agent_a end_of_run).1 ≡ some s)
        × ((release agent_a (assign agent_a end_of_run).1).sandboxes ≡ end_of_run.sandboxes))
assign-release_example = assign-release true "10.0.0" 81 4 ops agent_a ops_named a_named a_released
