-- ===== src/Pipeline.antt =====
-- The persistent record of a chain's stages, engine/pipeline-state.ts. Costs are exact numbers of
-- some unit; a text is the list of its UTF-16 units where the code cuts it.
pub mod Bounds
pub mod Retries
pub mod Resume
mod Tests
use multi_agent_engine.Common.{
  ℕ, zero, suc, ◌+◌, String, Bool, true, false, ◌&&◌, ◌||◌, Option, none, some, List, [], ◌∷◌, ◌++◌,
  leb, ◌==◌, length, get_elem?, set, take, all, if◌then◌else◌,
}

abbrev pub Text : Type 0
Text = List ℕ

pub data StageStatus : Type 0 where
  pending running completed failed skipped : StageStatus

pub data StageKind : Type 0 where
  team agent parallel : StageKind

pub record PipelineStage : Type 0 where
  pub name : Text
  pub kind : StageKind
  pub status : StageStatus
  pub team_name : Option Text
  pub agent_name : Option Text
  pub parallel_teams : Option (List Text)
  pub started_at : Option ℕ
  pub completed_at : Option ℕ
  pub grade : Option Text
  pub cost : ℕ
  pub tokens : ℕ
  pub retries : ℕ
  pub max_retries : ℕ
  pub output : Option Text
  pub error : Option Text

pub data PipelineStatus : Type 0 where
  running completed failed paused : PipelineStatus

pub record PipelineState : Type 0 where
  pub id : Text
  pub name : Text
  pub chain : Text
  pub task : Text
  pub status : PipelineStatus
  pub current_stage : ℕ
  pub stages : List PipelineStage
  pub total_cost : ℕ
  pub total_tokens : ℕ
  pub started_at : ℕ
  pub updated_at : ℕ
  pub completed_at : Option ℕ

-- The tracker, and what the file of its session holds.
pub record PipelineTracker : Type 0 where
  pub state : PipelineState
  pub file : Option PipelineState

-- What an operation meets: the clock when it sets a time, the clock when it saves, and whether the
-- file is written. A write that fails leaves the file as it was.
pub record Moment : Type 0 where
  pub now : ℕ
  pub saved : ℕ
  pub writes : Bool

save : Moment → PipelineTracker → PipelineTracker
save m t =
    let state = record t.state { updated_at = m.saved } in
    record { state = state; file = if m.writes then some state else t.file }

-- The argument of `addStage`.
pub record NewStage : Type 0 where
  pub name : Text
  pub kind : StageKind
  pub team_name : Option Text
  pub agent_name : Option Text
  pub parallel_teams : Option (List Text)

abbrev pub pending_stage : NewStage → PipelineStage
pending_stage s = record {
  name = s.name;
  kind = s.kind;
  status = pending;
  team_name = s.team_name;
  agent_name = s.agent_name;
  parallel_teams = s.parallel_teams;
  started_at = none;
  completed_at = none;
  grade = none;
  cost = 0;
  tokens = 0;
  retries = 0;
  max_retries = 3;
  output = none;
  error = none;
}

pub record StageResult : Type 0 where
  pub grade : Option Text
  pub cost : ℕ
  pub tokens : ℕ
  pub output : Option Text

pub data Op : Type 0 where
  add_stage : NewStage → Op
  start_stage : ℕ → Op
  complete_stage : ℕ → StageResult → Op
  fail_stage : ℕ → Text → Op
  retry_stage : ℕ → Op
  complete fail : Op

pub data Answer : Type 0 where
  index : ℕ → Answer
  retried : Bool → Answer
  nothing : Answer

abbrev cut : Option Text → Option Text
cut none = none
cut (some text) = some (take 500 text)

abbrev put_stage : ℕ → PipelineStage → PipelineTracker → PipelineTracker
put_stage i s t = record t { state = record t.state { stages = set t.state.stages i s } }

-- The methods that begin with `const stage = this.state.stages[idx]; if (!stage) return`.
start : Moment → ℕ → Option PipelineStage → PipelineTracker → PipelineTracker
start m i none t = t
start m i (some s) t =
    let t' = put_stage i (record s { status = running; started_at = some m.now }) t in
    save m (record t' { state = record t'.state { current_stage = i } })

finish : Moment → ℕ → StageResult → Option PipelineStage → PipelineTracker → PipelineTracker
finish m i r none t = t
finish m i r (some s) t =
    let s' = record s {
      status = completed;
      completed_at = some m.now;
      grade = r.grade;
      cost = r.cost;
      tokens = r.tokens;
      output = cut r.output;
    } in
    let t' = put_stage i s' t in
    save m (record t' {
      state = record t'.state {
        total_cost = t.state.total_cost + r.cost;
        total_tokens = t.state.total_tokens + r.tokens;
      };
    })

break_stage : Moment → ℕ → Text → Option PipelineStage → PipelineTracker → PipelineTracker
break_stage m i e none t = t
break_stage m i e (some s) t =
    save m (put_stage i (record s { status = failed; completed_at = some m.now; error = some e }) t)

retry : Moment → ℕ → Option PipelineStage → PipelineTracker → PipelineTracker × Answer
retry m i none t = (t, retried false)
retry m i (some s) t = if leb s.max_retries s.retries then (t, retried false) else (
  save m (
      put_stage i (record s { retries = suc s.retries; status = running; started_at = some m.now })
        t),
  retried true,
)

close : Moment → PipelineStatus → PipelineTracker → PipelineTracker
close m status t =
    save m (record t { state = record t.state { status = status; completed_at = some m.now } })

unfoldable pub step : PipelineTracker → Moment × Op → PipelineTracker × Answer
unfolding save start finish break_stage retry close
step t (m, add_stage s) = (
  save m (record t { state = record t.state { stages = t.state.stages ++ pending_stage s ∷ [] } }),
  index (length t.state.stages),
)
step t (m, start_stage i) = (start m i (get_elem? t.state.stages i) t, nothing)
step t (m, complete_stage i r) = (finish m i r (get_elem? t.state.stages i) t, nothing)
step t (m, fail_stage i e) = (break_stage m i e (get_elem? t.state.stages i) t, nothing)
step t (m, retry_stage i) = retry m i (get_elem? t.state.stages i) t
step t (m, complete) = (close m PipelineStatus.completed t, nothing)
step t (m, fail) = (close m PipelineStatus.failed t, nothing)

unfoldable pub run : PipelineTracker → List (Moment × Op) → PipelineTracker
run t [] = t
run t (o ∷ os) = run (step t o).0 os

-- The constructor; it writes no file, and the file of an earlier tracker may be there.
unfoldable pub new_tracker : Text → Text → Text → Text → ℕ → Option PipelineState → PipelineTracker
new_tracker id name chain task now file = record {
  state = record {
    id = id;
    name = name;
    chain = chain;
    task = task;
    status = PipelineStatus.running;
    current_stage = 0;
    stages = [];
    total_cost = 0;
    total_tokens = 0;
    started_at = now;
    updated_at = now;
    completed_at = none;
  };
  file = file;
}

-- `/^[0-9a-f-]{36}$/i`
is_id_char : ℕ → Bool
is_id_char c =
    (leb b'0' c && leb c b'9')
    || ((leb b'a' c && leb c b'f') || ((leb b'A' c && leb c b'F') || c == b'-'))

unfoldable pub is_session_id : Text → Bool
unfolding is_id_char
is_session_id id = all is_id_char id && length id == 36

-- `resume`, given what the file of that session holds, if it is there and can be parsed. The code
-- writes to the file of the `id` in that state from then on, which is taken to be the session's.
unfoldable pub resume : Text → Option PipelineState → Option PipelineTracker
resume id none = none
resume id (some state) =
    if is_session_id id then some (record { state = state; file = some state }) else none

abbrev is_pending : StageStatus → Bool
is_pending pending = true
is_pending _ = false

-- `findIndex`, with `none` for -1.
next_from : ℕ → List PipelineStage → Option ℕ
next_from i [] = none
next_from i (s ∷ ss) =
    let rest = next_from (suc i) ss in if is_pending s.status then some i else rest

unfoldable pub get_next_pending_stage : PipelineTracker → Option ℕ
unfolding next_from
get_next_pending_stage t = next_from 0 t.state.stages
