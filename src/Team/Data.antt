-- ===== src/Team/Data.antt =====
-- The data of a team step: types of engine/types.ts, and what the models take as inputs.
use multi_agent_engine.Common.{ℕ, ◌+◌, String, Bool, true, false, Option, List, [], ◌∷◌}
use multi_agent_engine.Pipeline.{Text}
use multi_agent_engine.Chain.Feedback.{Grade}
use multi_agent_engine.SpawnDecision.{Domain}

-- A member of a team, with what its persona allows.
pub record TeamMember : Type 0 where
  pub name : String
  pub path : Text
  pub tools : List String
  pub domain : Domain

pub record TeamConfig : Type 0 where
  pub team_name : String
  pub lead_name : String
  pub members : List TeamMember

-- What a team step reads of the step of the chain, and of the environment for strict mode.
pub record TeamStep : Type 0 where
  pub team : Text
  pub read_only : Bool
  pub system_prompt_append : Option String
  pub strict : Bool
  pub max_worker_retries : Option ℕ

pub data ReviewGrade : Type 0 where
  pass needs_work : ReviewGrade

pub record WorkerReview : Type 0 where
  pub worker_id : Text
  pub worker_name : String
  pub grade : ReviewGrade
  pub feedback : Option String
  pub reworked_prompt : Option String
  pub direct_fix : Option String
  pub sr_domains : Option (List String)  -- present where SPAWN_SR is

pub record DelegateResult : Type 0 where
  pub agent_id : Text
  pub agent_name : String
  pub output : String
  pub grade : Option Grade
  pub findings : List String
  pub cost : ℕ
  pub tokens : ℕ

-- Running with errors: what was written before an error stays written.
pub data Outcome {ℓ} (S : Type ℓ) : Type ℓ where
  done : S → Outcome S
  threw : S → Outcome S

abbrev pub and_then {ℓ} : {S : Type ℓ} → Outcome S → (S → Outcome S) → Outcome S
and_then (done s) f = f s
and_then (threw s) f = threw s

abbrev pub state_of {ℓ} : {S : Type ℓ} → Outcome S → S
state_of (done s) = s
state_of (threw s) = s

abbrev pub is_needs_work : ReviewGrade → Bool
is_needs_work pass = false
is_needs_work needs_work = true

-- `reduce((s, r) => s + r.costUsd, 0)`
abbrev pub sum_cost : List DelegateResult → ℕ
sum_cost [] = 0
sum_cost (r ∷ rs) = r.cost + sum_cost rs
