-- ===== src/Chain/TillDone.antt =====
-- The till-done items of a chain: buildTillDone and markTillDone of engine/chain-runner.ts.
pub mod Laws
pub mod Progress
use multi_agent_engine.Common.{
  ℕ, zero, suc, ◌+◌, ◌≤◌, String, Bool, true, false, ◌&&◌, Option, none, some, or_else, List, [],
  ◌∷◌, ◌++◌, ltb, leb, length, get_elem?, set, if◌then◌else◌,
}

pub data VerifyKind : Type 0 where
  llm_verified output_match deterministic : VerifyKind

-- An entry of `till_done` in a step: a text, or an object.
pub data Check : Type 0 where
  text : String → Check
  object : String → VerifyKind → Option String → Check

pub record TillDoneItem : Type 0 where
  pub description : String
  pub completed : Bool
  pub active : Bool
  pub kind : VerifyKind
  pub verify : Option String

-- What the items depend on: the checks, if there are any, and the names from which the label of a
-- step without checks is made.
pub record ChainStep : Type 0 where
  pub team : Option String
  pub agent : Option String
  pub till_done : Option (List Check)

item_of : Check → TillDoneItem
item_of (text t) = record {
  description = t;
  completed = false;
  active = false;
  kind = llm_verified;
  verify = none;
}
item_of (object t kind verify) = record {
  description = t;
  completed = false;
  active = false;
  kind = kind;
  verify = verify;
}

-- `${step.team ?? step.agent ?? "parallel step"} complete`
label_item : ChainStep → TillDoneItem
label_item s = record {
  description =
      Prim.Native.String.◌++◌ (or_else s.team (or_else s.agent "parallel step")) " complete";
  completed = false;
  active = false;
  kind = llm_verified;
  verify = none;
}

items_of : List Check → List TillDoneItem
unfolding item_of
items_of [] = []
items_of (c ∷ cs) = item_of c ∷ items_of cs

step_items : ChainStep → List TillDoneItem
unfolding items_of label_item
step_items s = elim s.till_done [ none ↦ label_item s ∷ [] | some checks ↦ items_of checks ]

chain_items : List ChainStep → List TillDoneItem
unfolding step_items
chain_items [] = []
chain_items (s ∷ ss) = step_items s ++ chain_items ss

activate_first : List TillDoneItem → List TillDoneItem
activate_first [] = []
activate_first (x ∷ xs) = record x { active = true } ∷ xs

unfoldable pub build_till_done : List ChainStep → List TillDoneItem
unfolding chain_items activate_first
build_till_done steps = activate_first (chain_items steps)

-- `step.till_done?.length ?? 1`
abbrev pub count_of : Option (List Check) → ℕ
count_of none = 1
count_of (some checks) = length checks

abbrev pub item_count : ChainStep → ℕ
item_count s = count_of s.till_done

abbrev mark : TillDoneItem → TillDoneItem
mark x = record x { completed = true; active = false }

abbrev mark_at : Option TillDoneItem → ℕ → List TillDoneItem → List TillDoneItem
mark_at none i xs = xs
mark_at (some x) i xs = set xs i (mark x)

-- The inner loop, with `idx` and the items left of the step; it gives `idx` back.
mark_step : ℕ → ℕ → List TillDoneItem → ℕ × List TillDoneItem
mark_step zero idx xs = (idx, xs)
mark_step (suc n) idx xs =
    if ltb idx (length xs)
    then (let rest = mark_step n (suc idx) (mark_at (get_elem? xs idx) idx xs) in rest)
    else (let rest = mark_step n idx xs in rest)

-- The outer loop, over the steps up to `stepIndex`.
mark_steps : ℕ → List ChainStep → ℕ → List TillDoneItem → ℕ × List TillDoneItem
mark_steps left [] idx xs = (idx, xs)
mark_steps zero (s ∷ ss) idx xs = mark_step (item_count s) idx xs
mark_steps (suc left) (s ∷ ss) idx xs =
    let (idx', xs') = mark_step (item_count s) idx xs in mark_steps left ss idx' xs'

abbrev activate_at : Option TillDoneItem → ℕ → List TillDoneItem → List TillDoneItem
activate_at none i xs = xs
activate_at (some x) i xs = set xs i (record x { active = true })

unfoldable pub mark_till_done : List TillDoneItem → ℕ → List ChainStep → List TillDoneItem
unfolding mark_steps mark_step
mark_till_done items step_index steps =
    let (idx, marked) = mark_steps step_index steps 0 items in
    activate_at (get_elem? marked idx) idx marked
