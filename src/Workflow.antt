-- ===== src/Workflow.antt =====
-- The write, test, review and fix cycle of pi-packages/pi-context-workflow/index.ts. The host, pi,
-- is not part of the repository: it calls one handler at a time, appends a copy of the data of each
-- entry, gives the entries of the branch back in their order, and calls `onComplete` later.
pub mod Laws
pub mod Graph
pub mod Bound
pub mod Evidence
pub mod Restore
mod Tests
use multi_agent_engine.Common.{
  ℕ, suc, ◌-◌, String, Bool, true, false, not, ◌&&◌, Option, none, some, List, [], ◌∷◌, ◌++◌, leb,
  ◌==◌, str_eq, length, if◌then◌else◌,
}

pub data WorkflowStage : Type 0 where
  write test review fix verify done : WorkflowStage

pub record Workflow : Type 0 where
  pub active : Bool
  pub stage : WorkflowStage
  pub spec : String
  pub iteration : ℕ
  pub max_iterations : ℕ
  pub tests_passed : Bool
  pub review_issues : List String
  pub context_compacted : Bool

-- The instructions that are sent as user messages, each named for its text.
pub data Prompt : Type 0 where
  implement run_tests review_code fix_tests final_tests retest : Prompt
  fix_issues : List String → Prompt
  call_next_stage call_next : Prompt

-- The answers of the tools, each named for its text.
pub data Reply : Type 0 where
  no_workflow exhausted code_written tests_ok tests_bad review_ok : Reply
  review_found : ℕ → Reply
  fixes_applied all_passed complete_default : Reply
  test_report : Bool → Reply
  review_report : List String → Reply
  completed started rejected silent : Reply

-- The extension's variable, and the host: the entries of the branch, oldest first, the status line,
-- the messages sent, and the compactions asked for that have not ended.
pub record World : Type 0 where
  pub workflow : Option Workflow
  pub entries : List Workflow
  pub status : Option (WorkflowStage × ℕ × ℕ)
  pub sent : List Prompt
  pub compactions : ℕ

pub data Event : Type 0 where
  session_start : Event
  start : String → Event  -- `/workflow`, with the text that was given, read or edited
  cancel : Event
  next : Event
  test_result : ℕ → Event  -- the exit code
  review_result : List String → Event
  complete : Event
  compacted : Event  -- `onComplete` of a compaction
  session_shutdown : Event

-- `updateStatus` for the workflow in the variable.
publish : Workflow → World → World
publish wf w =
    if wf.active
    then record w {
      workflow = some wf;
      status = some (wf.stage, wf.iteration, wf.max_iterations);
      entries = w.entries ++ wf ∷ [];
    }
    else record w { workflow = some wf; status = none }

send : Prompt → World → World
send p w = record w { sent = w.sent ++ p ∷ [] }

send_if : Option Prompt → World → World
unfolding send
send_if none w = w
send_if (some p) w = send p w

-- The loop over the branch of the handler of `session_start`.
abbrev pub last_entry : Option Workflow → List Workflow → Option Workflow
last_entry found [] = found
last_entry found (e ∷ es) = last_entry (some e) es

restore : Option Workflow → World → World
restore none w = record w { workflow = none }
restore (some wf) w = if wf.active then publish wf w else record w { workflow = some wf }

abbrev pub new_workflow : String → Workflow
new_workflow spec = record {
  active = true;
  stage = write;
  spec = spec;
  iteration = 0;
  max_iterations = 10;
  tests_passed = false;
  review_issues = [];
  context_compacted = false;
}

start_workflow : String → World → World × Reply
start_workflow spec w =
    if str_eq spec ""
    then (w, rejected)
    else (send implement (publish (new_workflow spec) w), started)

-- What `workflow_next` decides from the stage.
record Move : Type 0 where
  stage : WorkflowStage
  active : Bool
  reply : Reply
  prompt : Option Prompt
  compacts : Bool

abbrev go : WorkflowStage → Reply → Prompt → Move
go stage reply prompt = record {
  stage = stage;
  active = true;
  reply = reply;
  prompt = some prompt;
  compacts = false;
}

-- Its `switch`.
move : WorkflowStage → Workflow → Move
move write wf = go test code_written run_tests
move test wf =
    if wf.tests_passed
    then record (go review tests_ok review_code) { compacts = true }
    else go fix tests_bad fix_tests
move review wf =
    if length wf.review_issues == 0
    then go verify review_ok final_tests
    else go fix (review_found (length wf.review_issues)) (fix_issues wf.review_issues)
move fix wf = go test fixes_applied retest
move verify wf = record {
  stage = done;
  active = false;
  reply = all_passed;
  prompt = none;
  compacts = false;
}
move done wf = record {
  stage = done;
  active = wf.active;
  reply = complete_default;
  prompt = none;
  compacts = false;
}

follow : Move → Workflow → World → World × Reply
follow m wf w =
    let wf' = record wf { stage = m.stage; active = m.active; context_compacted = false } in
    let w' = record w { compactions = if m.compacts then suc w.compactions else w.compactions } in
    (send_if m.prompt (publish wf' w'), m.reply)

-- `workflow_next` of an active workflow.
next_stage : Workflow → World → World × Reply
unfolding follow
next_stage wf w =
    let counted = record wf { iteration = suc wf.iteration } in
    if leb wf.max_iterations (suc wf.iteration)
    then (publish (record counted { active = false }) w, exhausted)
    else follow (move wf.stage counted) counted w

report_tests : ℕ → Workflow → World → World × Reply
report_tests code wf w = (
  send call_next_stage (publish (record wf { tests_passed = code == 0 }) w),
  test_report (code == 0),
)

report_review : List String → Workflow → World → World × Reply
report_review issues wf w =
    (send call_next (publish (record wf { review_issues = issues }) w), review_report issues)

complete_workflow : Workflow → World → World × Reply
complete_workflow wf w = (publish (record wf { stage = done; active = false }) w, completed)

cancel_workflow : Workflow → World → World × Reply
cancel_workflow wf w =
    (record (publish (record wf { active = false }) w) { workflow = none }, silent)

-- The tools and commands that begin with `if (!workflow?.active) return`.
abbrev when_active : Option Workflow → (Workflow → World → World × Reply) → World → World × Reply
when_active none handler w = (w, no_workflow)
when_active (some wf) handler w = if wf.active then handler wf w else (w, no_workflow)

-- `onComplete`: it reads the variable when it is called.
end_compaction : Option Workflow → World → World
end_compaction none w = w
end_compaction (some wf) w = publish (record wf { context_compacted = true }) w

finish_compaction : ℕ → World → World
unfolding end_compaction
finish_compaction pending w =
    if pending == 0 then w else record (end_compaction w.workflow w) { compactions = pending - 1 }

unfoldable pub step : World → Event → World × Reply
unfolding publish send_if move restore start_workflow next_stage report_tests report_review
    complete_workflow cancel_workflow finish_compaction
step w session_start = (restore (last_entry none w.entries) w, silent)
step w (start spec) = start_workflow spec w
step w cancel = when_active w.workflow cancel_workflow w
step w next = when_active w.workflow next_stage w
step w (test_result code) = when_active w.workflow (report_tests code) w
step w (review_result issues) = when_active w.workflow (report_review issues) w
step w complete = when_active w.workflow complete_workflow w
step w compacted = (finish_compaction w.compactions w, silent)
step w session_shutdown = (record w { workflow = none }, silent)

unfoldable pub run : World → List Event → World
run w [] = w
run w (e ∷ es) = run (step w e).0 es

-- A branch with no entry yet.
unfoldable pub new_world : World
new_world = record { workflow = none; entries = []; status = none; sent = []; compactions = 0 }
