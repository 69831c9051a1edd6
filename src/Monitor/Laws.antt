-- ===== src/Monitor/Laws.antt =====
-- engine/active-monitor.ts: how many nudges need a model at a time, and how often a session is paused.
use multi_agent_engine.Common.{
  ℕ, zero, suc, ◌+◌, ◌-◌, ◌%◌, ◌/◌, ◌++◌, ◌≤◌, some_inj, ap, ◌==◌, ◌≡◌, refl, inl, inr, Bool, true,
  false, some, List, [], ◌∷◌, ltb, leb, length, Option-cases, if◌then◌else◌, arith,
}
use multi_agent_engine.Pipeline.{Text}
use multi_agent_engine.Nudge.{Attempt, create_nudge_state}
use multi_agent_engine.Monitor.{
  AgentActivity, NudgeCall, Report, heartbeat, stall_detected, auto_pause, Monitor, new_monitor,
  Event, tick, track, untrack, tool_call, settles, stop, idle_warn_ms, lookup, set_key, delete_key,
  report, start_nudge, trigger_nudge, nudge_if_free, warn_if_new, beat, check_agent, check_agents,
  check_stalls, check_budget_projection, on_tick, settle, call_at, without, step, run,
}

abbrev one_if : Bool → ℕ
one_if b = if b then 1 else 0

abbrev pub llm_calls : List NudgeCall → ℕ
llm_calls [] = 0
llm_calls (c ∷ cs) = one_if c.needs_llm + llm_calls cs

abbrev is_pause : Report → Bool
is_pause auto_pause = true
is_pause _ = false

abbrev pub pauses : List Report → ℕ
pauses [] = 0
pauses (r ∷ rs) = let rest = pauses rs in if is_pause r then suc rest else rest

abbrev Inv : Monitor → Type 0
Inv m =
    (llm_calls m.in_flight ≡ one_if m.llm_nudge_in_flight)
    × (pauses m.reports ≡ one_if m.auto_pause_fired)

start_nudge-Inv :
    (i : ℕ) (m : Monitor) → m.llm_nudge_in_flight ≡ false → Inv m → Inv (start_nudge i m)
unfolding start_nudge
start_nudge-Inv i m f (a, b) = (ground (arith, f, a), b)

trigger_nudge-Inv :
    (id : Text) (m : Monitor) → m.llm_nudge_in_flight ≡ false → Inv m → Inv (trigger_nudge id m)
unfolding trigger_nudge
trigger_nudge-Inv id m f h = elim (Option-cases (lookup id m.nudge_states)) [
  | inl n ↦
      rw (n, trigger_nudge)
        (start_nudge-Inv (length m.objects)
          (record m {
            nudge_states = set_key id (length m.objects) m.nudge_states;
            objects = m.objects ++ create_nudge_state ∷ [];
          })
          f h)
  | inr (i, n) ↦ rw (n, trigger_nudge) (start_nudge-Inv i m f h)
]

if-Inv : (b : Bool) (x y : Monitor) → Inv x → (b ≡ false → Inv y) → Inv (if b then x else y)
if-Inv true x y h k = h
if-Inv false x y h k = k refl

nudge_if_free-Inv : (id : Text) (m : Monitor) → Inv m → Inv (nudge_if_free id m)
nudge_if_free-Inv id m h =
    if-Inv m.llm_nudge_in_flight m (trigger_nudge id m) h (λ e. trigger_nudge-Inv id m e h)

beat-Inv : (b : Bool) (id : Text) (idle : ℕ) (m : Monitor) → Inv m → Inv (beat b id idle m)
beat-Inv b id idle m h = if-Inv b (report (heartbeat id (ltb idle_warn_ms idle)) m) m h (λ _. h)

check_agent-Inv :
    (now : ℕ) (b : Bool) (id : Text) (a : AgentActivity) (m : Monitor)
    → Inv m
    → Inv (check_agent now b id a m)
unfolding check_agent
check_agent-Inv now b id a m h =
    let idle = now - a.last_event_at in
    let m1 = beat b id idle m in
    let k = beat-Inv b id idle m h in
    let w : Inv (warn_if_new id a idle m1) =
      if-Inv a.warned m1 (report (stall_detected id ((idle + 500) / 1000)) m1) k (λ _. k) in
    if-Inv (leb idle idle_warn_ms) (record m1 { nudge_states = delete_key id m1.nudge_states })
      (nudge_if_free id (warn_if_new id a idle m1)) k
      (λ _. nudge_if_free-Inv id (warn_if_new id a idle m1) w)

check_agents-Inv :
    (now : ℕ) (b : Bool) (xs : List (Text × AgentActivity)) (m : Monitor)
    → Inv m
    → Inv (check_agents now b xs m)
unfolding check_agents
check_agents-Inv now b [] m h = h
check_agents-Inv now b ((id, a) ∷ xs) m h =
    check_agents-Inv now b xs (check_agent now b id a m) (check_agent-Inv now b id a m h)

check_budget_projection-Inv : (p : Bool) (m : Monitor) → Inv m → Inv (check_budget_projection p m)
unfolding check_budget_projection
check_budget_projection-Inv p m (a, b) =
    let paused = report auto_pause (record m { auto_pause_fired = true }) in
    if-Inv m.auto_pause_fired m (if p then paused else m) (a, b)
      (λ e. if-Inv p paused m (a, ground (arith, e, b)) (λ _. (a, b)))

llm_calls-without :
    (i : ℕ) (cs : List NudgeCall) {c : NudgeCall}
    → call_at i cs ≡ some c
    → llm_calls cs ≡ one_if c.needs_llm + llm_calls (without i cs)
llm_calls-without i [] h = absurd (cc h)
llm_calls-without zero (x ∷ cs) h =
    let e = some_inj.0 h in ap (λ z. one_if z.needs_llm + llm_calls cs) e
llm_calls-without (suc i) (x ∷ cs) h = let ih = llm_calls-without i cs h in omega (arith, ih)

settle-Inv : (i : ℕ) (a : Attempt) (m : Monitor) → Inv m → Inv (settle i a m)
unfolding settle
settle-Inv i a m (p, q) = elim (Option-cases (call_at i m.in_flight)) [
  | inl n ↦ rw (n, settle) (p, q)
  | inr (c, n) ↦
      let w = llm_calls-without i m.in_flight n in rw (n, settle) (ground (arith, w, p), q)
]

step-Inv : (e : Event) (m : Monitor) → Inv m → Inv (step e m)
unfolding step on_tick check_stalls
step-Inv (tick now p) m h =
    let m1 = record m { ticks = suc m.ticks } in
    let a = check_agents-Inv now (m1.ticks % 2 == 0) m1.agents m1 h in
    check_budget_projection-Inv p (check_stalls now m1) a
step-Inv (track id name role now) m h = h
step-Inv (untrack id) m h = h
step-Inv (tool_call id tool now) m h = h
step-Inv (settles i a) m h = settle-Inv i a m h
step-Inv stop m h = h

run-Inv : (es : List Event) (m : Monitor) → Inv m → Inv (run es m)
unfolding run
run-Inv [] m h = h
run-Inv (e ∷ es) m h = run-Inv es (step e m) (step-Inv e m h)

-- However the ticks, the agents' activity and the settling of nudges follow one another, at most one
-- nudge that needs a model is in flight, and the session is paused for its budget at most once.
pub run-new_monitor-Inv :
    (es : List Event)
    → let m = run es new_monitor in (llm_calls m.in_flight ≤ 1) × (pauses m.reports ≤ 1)
run-new_monitor-Inv es =
    let (a, b) = run-Inv es new_monitor (refl, refl) in (ground (arith, a), ground (arith, b))
