-- ===== src/OrchestratorLoop/Parse.antt =====
-- The answer of the orchestrator's model: parseActions of engine/orchestrator-loop.ts, after the
-- JSON between the first and the last brace has been read. A field is absent, a text, a number or
-- something else; a step's index is a natural number.
pub mod Laws
use multi_agent_engine.Common.{
  ℕ, ◌<◌, ◌≡◌, refl, ◌⊎◌, inl, inr, String, Option, none, some, or_else, List, [], ◌∷◌, length,
  Memᴰ, arith,
}
use mathlib.Core.List.Memᴰ.{head, tail}
use multi_agent_engine.Pipeline.{Text}
use multi_agent_engine.Chain.Actions.{
  Action, continue, pause, escalate_to_user, reassign, skip_step, spawn_team,
}

pub data Value : Type 0 where
  text : String → Value
  number : ℕ → Value
  other : Value

-- The texts that `a.type` is compared with, and any other value.
pub data ActionType : Type 0 where
  is_continue is_pause is_reassign is_skip_step is_spawn_team is_escalate is_other : ActionType

-- An element of `actions`: no object with a `type`, or one with these fields.
pub data RawAction : Type 0 where
  untyped : RawAction
  typed :
      (kind : ActionType) (reason step_index new_team team task message : Option Value) → RawAction

pub record Reply : Type 0 where
  pub assessment : Option String
  pub actions : Option (List RawAction)
  pub reply : Option String

pub record CycleResult : Type 0 where
  pub assessment : String
  pub actions : List Action
  pub reply : Option String

-- `units` gives the UTF-16 units of a text.
unfoldable pub validate : (String → Text) → RawAction → Option Action
validate units (typed is_continue _ _ _ _ _ _) = some continue
validate units (typed is_pause (some (text why)) _ _ _ _ _) = some pause
validate units (typed is_reassign (some (text why)) (some (number i)) (some (text team)) _ _ _) =
    some (reassign i team)
validate units (typed is_skip_step (some (text why)) (some (number i)) _ _ _ _) =
    some (skip_step i (units why))
validate units (typed is_spawn_team (some (text why)) _ _ (some (text team)) (some (text task)) _) =
    some (spawn_team team)
validate units (typed is_escalate _ _ _ _ _ (some (text message))) = some escalate_to_user
validate units _ = none

abbrev push : Option Action → List Action → List Action
push none rest = rest
push (some a) rest = a ∷ rest

valid_actions : (String → Text) → List RawAction → List Action
valid_actions units [] = []
valid_actions units (r ∷ rs) = push (validate units r) (valid_actions units rs)

abbrev or_continue : List Action → List Action
or_continue [] = continue ∷ []
or_continue (a ∷ rest) = a ∷ rest

abbrev default_actions : List RawAction
default_actions = typed is_continue none none none none none none ∷ []

-- `none` where there is no brace or the JSON cannot be read.
unfoldable pub parse_actions : (String → Text) → Option Reply → CycleResult
unfolding valid_actions
parse_actions units none = record {
  assessment = "Could not parse response";
  actions = continue ∷ [];
  reply = none;
}
parse_actions units (some r) = record {
  assessment = or_else r.assessment "No assessment provided";
  actions = or_continue (valid_actions units (or_else r.actions default_actions));
  reply = r.reply;
}
