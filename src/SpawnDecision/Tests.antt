-- ===== src/SpawnDecision/Tests.antt =====
-- A decision of a lead, and what it grants.
use multi_agent_engine.Common.{◌≡◌, refl, String, true, false, some, none, List, [], ◌∷◌, Memᴰ}
use multi_agent_engine.Pipeline.{Text}
use multi_agent_engine.SpawnDecision.Paths.{has_unsafe_path, path_covers}
use multi_agent_engine.SpawnDecision.{
  SpawnDecision, isolated, Domain, has_tool, validate_spawn_decision,
  validate_spawn_decision_for_execution, apply_spawn_decision_constraints,
}
use multi_agent_engine.SpawnDecision.Laws.{
  IsGranted, IsGrantedTool, apply_spawn_decision_constraints-IsGranted,
}

-- "a/x", "a/y" and "a".
abbrev path_x : Text
path_x = b'a' ∷ b'/' ∷ b'x' ∷ []

abbrev path_y : Text
path_y = b'a' ∷ b'/' ∷ b'y' ∷ []

abbrev path_a : Text
path_a = b'a' ∷ []

above : path_covers path_a path_x ≡ true
unfolding path_covers
above = refl

beside : path_covers path_x path_y ≡ false
unfolding path_covers
beside = refl

-- "a/**", and "./a", which is not read as "a".
abbrev all_of_a : Text
all_of_a = b'a' ∷ b'/' ∷ b'*' ∷ b'*' ∷ []

glob_above : path_covers all_of_a path_x ≡ true
unfolding path_covers
glob_above = refl

dot_not_read : path_covers (b'.' ∷ b'/' ∷ path_a) path_x ≡ false
unfolding path_covers
dot_not_read = refl

abbrev decision : SpawnDecision
decision = record {
  need_worker = true;
  worker_name = some "Tester";
  reason = "tests";
  why_lead_cannot_do_it = "no shell";
  allowed_paths = path_x ∷ path_x ∷ [];
  allowed_tools = "read" ∷ "bash" ∷ [];
  forbidden_paths = path_y ∷ [];
  bus_policy = isolated;
  expected_output_schema = "report";
  timeout_seconds = 60;
}

abbrev available : List String
available = "read" ∷ "bash" ∷ "edit" ∷ []

abbrev tools : List String
tools = "read" ∷ "edit" ∷ []

abbrev whole : Domain
whole = record { read = path_a ∷ []; write = path_a ∷ []; update = []; delete = none }

passes : validate_spawn_decision_for_execution decision available ≡ []
unfolding validate_spawn_decision_for_execution validate_spawn_decision has_unsafe_path path_covers
passes = refl

apply_spawn_decision_constraints-IsGranted_example :
    let g = apply_spawn_decision_constraints tools whole decision false in
    ((t : String) → has_tool g.0 t ≡ true → IsGrantedTool decision available tools t)
    × ((p : Text) → Memᴰ p g.1.read → IsGranted decision p)
    × ((p : Text) → Memᴰ p g.1.write → IsGranted decision p × (false ≡ false))
    × ((p : Text) → Memᴰ p g.1.update → IsGranted decision p × (false ≡ false))
    × (g.1.delete ≡ some [])
apply_spawn_decision_constraints-IsGranted_example =
    apply_spawn_decision_constraints-IsGranted decision available tools whole false refl passes
