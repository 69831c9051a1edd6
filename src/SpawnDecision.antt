-- ===== src/SpawnDecision.antt =====
-- The gate on workers that a lead asks for: validateSpawnDecision, validateSpawnDecisionForExecution
-- and applySpawnDecisionConstraints of engine/spawn-decision.ts. A path is the list of its UTF-16
-- units, and a timeout a natural number.
pub mod Paths
pub mod Laws
mod Tests
use multi_agent_engine.Common.{
  ℕ, String, Bool, true, false, not, ◌&&◌, ◌||◌, Option, none, some, List, [], ◌∷◌, ◌++◌, any, keep,
  str_eq, ◌==◌, if◌then◌else◌,
}
use multi_agent_engine.Pipeline.{Text}
use multi_agent_engine.SpawnDecision.Paths.{text_eq, has_unsafe_path, path_covers}

pub data BusPolicy : Type 0 where
  isolated main_bus : BusPolicy

pub record SpawnDecision : Type 0 where
  pub need_worker : Bool
  pub worker_name : Option String
  pub reason : String
  pub why_lead_cannot_do_it : String
  pub allowed_paths : List Text
  pub allowed_tools : List String
  pub forbidden_paths : List Text
  pub bus_policy : BusPolicy
  pub expected_output_schema : String
  pub timeout_seconds : ℕ

pub data SpawnError : Type 0 where
  no_name no_reason no_why no_allowed_paths no_allowed_tools no_forbidden_paths no_schema :
      SpawnError
  bad_timeout reserved_bus : SpawnError
  unsafe covered : Text → SpawnError
  unavailable : String → SpawnError

abbrev is_missing : Option String → Bool
is_missing none = true
is_missing (some s) = str_eq s ""

abbrev pub is_empty {ℓ} : {A : Type ℓ} → List A → Bool
is_empty [] = true
is_empty (x ∷ xs) = false

abbrev is_main_bus : BusPolicy → Bool
is_main_bus isolated = false
is_main_bus main_bus = true

-- `if (test) errors.push(error)`
abbrev pub check : Bool → SpawnError → List SpawnError
check test e = if test then e ∷ [] else []

unfoldable pub required : SpawnDecision → List SpawnError
required d =
    check (is_missing d.worker_name) no_name
    ++ (check (str_eq d.reason "") no_reason
        ++ (check (str_eq d.why_lead_cannot_do_it "") no_why
            ++ (check (is_empty d.allowed_paths) no_allowed_paths
                ++ (check (is_empty d.allowed_tools) no_allowed_tools
                    ++ (check (is_empty d.forbidden_paths) no_forbidden_paths
                        ++ (check (str_eq d.expected_output_schema "") no_schema
                            ++ (check (d.timeout_seconds == 0) bad_timeout
                                ++ check (is_main_bus d.bus_policy) reserved_bus)))))))

unfoldable pub validate_spawn_decision : SpawnDecision → List SpawnError
unfolding required
validate_spawn_decision d = if d.need_worker then required d else []

unfoldable pub unsafe_paths : List Text → List SpawnError
unsafe_paths [] = []
unsafe_paths (p ∷ ps) = check (has_unsafe_path p) (unsafe p) ++ unsafe_paths ps

unfoldable pub covered_by : Text → List Text → List SpawnError
covered_by forbidden [] = []
covered_by forbidden (a ∷ as') =
    check (path_covers a forbidden) (covered forbidden) ++ covered_by forbidden as'

unfoldable pub covered_paths : List Text → List Text → List SpawnError
unfolding covered_by
covered_paths allowed [] = []
covered_paths allowed (f ∷ fs) = covered_by f allowed ++ covered_paths allowed fs

abbrev pub has_tool : List String → String → Bool
has_tool tools t = any (str_eq t) tools

missing_tools : List String → List String → List SpawnError
missing_tools available [] = []
missing_tools available (t ∷ ts) =
    check (str_eq t "*" || not (has_tool available t)) (unavailable t) ++ missing_tools available ts

unfoldable pub validate_spawn_decision_for_execution : SpawnDecision → List String → List SpawnError
unfolding unsafe_paths covered_paths missing_tools validate_spawn_decision
validate_spawn_decision_for_execution d available =
    validate_spawn_decision d
    ++ (if d.need_worker
        then unsafe_paths (d.allowed_paths ++ d.forbidden_paths)
          ++ (covered_paths d.allowed_paths d.forbidden_paths
              ++ missing_tools available d.allowed_tools)
        else [])

pub record Domain : Type 0 where
  pub read : List Text
  pub write : List Text
  pub update : List Text
  pub delete : Option (List Text)

-- `[...new Set(paths)]`
unfoldable pub unique : List Text → List Text → List Text
unique seen [] = []
unique seen (p ∷ ps) =
    let rest = unique (p ∷ seen) ps in if any (text_eq p) seen then rest else p ∷ rest

unfoldable pub apply_spawn_decision_constraints :
    List String → Domain → SpawnDecision → Bool → List String × Domain
unfolding unique
apply_spawn_decision_constraints tools domain d review_only =
    let allowed = unique [] d.allowed_paths in
    (
      keep (has_tool d.allowed_tools) tools,
      record {
        read = allowed;
        write = if review_only then [] else allowed;
        update = if review_only then [] else allowed;
        delete = some [];
      },
    )
