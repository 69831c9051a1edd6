-- ===== src/OrchestratorLoop/Prompts.antt =====
-- engine/orchestrator-loop.ts: when the adapter is asked.
use multi_agent_engine.Common.{
  ℕ, suc, ◌+◌, ◌-◌, ◌≤◌, ◌≡◌, refl, ◌∙◌, ◌⊎◌, inl, inr, Bool, true, false, String, Option, none,
  some, List, [], ◌∷◌, both_branches, ltb, arith, sym, subst, All,
}
use multi_agent_engine.Session.{Status, known, unknown, completed, error}
use multi_agent_engine.Session.Laws.{step_final}
use multi_agent_engine.Budget.{
  Totals, Verdict, within, over_agent, over_session, over_tokens, check_budget,
}
use multi_agent_engine.OrchestratorLoop.{
  Trigger, periodic, user_message, Cycle, idle, reasoning, reporting, closing, in_flight, Loop,
  World, should_run_cycle, settle, begin_cycle, Answer, failure, actions, receive_at, charge,
  report_at, fire, drain_at, Op, start, stop, tick, trigger, handle_user_message, record_event,
  set_current_step, stop_and_drain, receive, report, close, close_at, transition, spend, step, run,
}

-- The prompts that can still be sent before an answer comes.
abbrev pub allowance : Cycle → ℕ
allowance reasoning = 0
allowance _ = 1

abbrev pub quota : World → ℕ
quota w = w.prompts + allowance w.loop.cycle

abbrev pub IsNoAnswer : Op → Type 0
IsNoAnswer (receive a) = ⊥
IsNoAnswer _ = Unit

Cycle-cases : (c : Cycle) → (c ≡ idle) ⊎ (in_flight c ≡ true)
Cycle-cases idle = inl refl
Cycle-cases reasoning = inr refl
Cycle-cases (reporting cost) = inr refl
Cycle-cases closing = inr refl

begin_cycle-quota : (now : ℕ) (t : Trigger) (w : World) → quota (begin_cycle now t w) ≤ quota w
unfolding begin_cycle settle
begin_cycle-quota now t w = elim (Cycle-cases w.loop.cycle) [
  | inl e ↦ simp e (ground arith)
  | inr e ↦ simp e (ground arith)
]

charge-quota : (v : Verdict) (cost : Totals) (w : World) → quota (charge v cost w) ≤ suc w.prompts
unfolding charge settle
charge-quota within cost w = omega arith
charge-quota over_agent cost w = omega arith
charge-quota over_session cost w = omega arith
charge-quota over_tokens cost w = omega arith

close_at-quota : (c : Cycle) (w : World) → w.loop.cycle ≡ c → quota (close_at c w) ≤ quota w
unfolding close_at settle
close_at-quota closing w e = simp e (omega arith)
close_at-quota idle w e = omega arith
close_at-quota reasoning w e = omega arith
close_at-quota (reporting cost) w e = omega arith

report_at-quota :
    (c : Cycle) (sent : Bool) (w : World) → w.loop.cycle ≡ c → quota (report_at c sent w) ≤ quota w
unfolding report_at settle
report_at-quota closing sent w e = omega arith
report_at-quota idle sent w e = omega arith
report_at-quota reasoning sent w e = omega arith
report_at-quota (reporting cost) false w e = simp e (omega arith)
report_at-quota (reporting cost) true w e =
    let r = check_budget w.budget w.totals cost in
    simp e (omega (arith, charge-quota r.0 cost (record w { budget = r.1 })))

fire-quota :
    (now : ℕ) (p : Option (Trigger × Option String)) (w : World) → quota (fire now p w) ≤ quota w
unfolding fire
fire-quota now none w = begin_cycle-quota now periodic w
fire-quota now (some (t, x)) w =
    begin_cycle-quota now t (record w { loop = record w.loop { pending = none } })

drain_at-cycle : (b : Bool) (k : ℕ) (l : Loop) → (drain_at b k l).cycle ≡ l.cycle
unfolding drain_at
drain_at-cycle true k l = refl
drain_at-cycle false k l = refl

step-quota : (w : World) (o : Op) → IsNoAnswer o → quota (step w o) ≤ quota w
unfolding step
step-quota w start h = omega arith
step-quota w stop h = omega arith
step-quota w (tick now) h =
    both_branches (λ w'. quota w' ≤ quota w) w.loop.timer (fire-quota now w.loop.pending w)
      (omega arith)
step-quota w (trigger now t context) h =
    both_branches (λ w'. quota w' ≤ quota w) (ltb (now - w.loop.last_cycle_at) 10000) (omega arith)
      (begin_cycle-quota now t w)
step-quota w (handle_user_message now) h = begin_cycle-quota now user_message w
step-quota w (record_event e) h = omega arith
step-quota w (set_current_step i n) h = omega arith
step-quota w (stop_and_drain k) h =
    simp (drain_at-cycle (in_flight w.loop.cycle) k w.loop) (omega arith)
step-quota w (receive a) h = absurd h
step-quota w (report sent) h = report_at-quota w.loop.cycle sent w refl
step-quota w close h = close_at-quota w.loop.cycle w refl
step-quota w (transition s) h = omega arith
step-quota w (spend cost) h = omega arith

-- Until an answer of the adapter comes, at most one prompt is sent to it, and none while one is out,
-- whatever triggers, ticks, messages and drains there are.
pub run-quota : (w : World) (os : List Op) → All IsNoAnswer os → quota (run w os) ≤ quota w
unfolding run
run-quota w [] h = omega arith
run-quota w (o ∷ os) h = omega (arith, step-quota w o h.0, run-quota (step w o) os h.1)

abbrev pub IsEnded : Status → Type 0
IsEnded s = (s ≡ known completed) ⊎ (s ≡ known error)

-- What a step of an ended session leaves.
abbrev SameAs : World → World → Type 0
SameAs w w' = (w'.status ≡ w.status) × (w'.prompts ≡ w.prompts)

never_runs : (s : Status) (t : Trigger) → IsEnded s → should_run_cycle s t ≡ false
unfolding should_run_cycle
never_runs s t (inl e) = rw e
never_runs s t (inr e) = rw e

begin_cycle-ended : (now : ℕ) (t : Trigger) (w : World) → IsEnded w.status → begin_cycle now t w ≡ w
unfolding begin_cycle
begin_cycle-ended now t w h = rw (never_runs w.status t h)

settle-same : (w : World) → SameAs w (settle w)
unfolding settle
settle-same w = (refl, refl)

charge-same : (v : Verdict) (cost : Totals) (w : World) → SameAs w (charge v cost w)
unfolding charge settle
charge-same within cost w = (refl, refl)
charge-same over_agent cost w = (refl, refl)
charge-same over_session cost w = (refl, refl)
charge-same over_tokens cost w = (refl, refl)

close_at-same : (c : Cycle) (w : World) → SameAs w (close_at c w)
unfolding close_at settle
close_at-same closing w = (refl, refl)
close_at-same idle w = (refl, refl)
close_at-same reasoning w = (refl, refl)
close_at-same (reporting cost) w = (refl, refl)

receive_at-same : (c : Cycle) (a : Answer) (w : World) → SameAs w (receive_at c a w)
unfolding receive_at
receive_at-same idle a w = (refl, refl)
receive_at-same reasoning failure w = settle-same w
receive_at-same reasoning (actions todo cost) w = (refl, refl)
receive_at-same (reporting cost) a w = (refl, refl)
receive_at-same closing a w = (refl, refl)

report_at-same : (c : Cycle) (sent : Bool) (w : World) → SameAs w (report_at c sent w)
unfolding report_at settle
report_at-same closing sent w = (refl, refl)
report_at-same idle sent w = (refl, refl)
report_at-same reasoning sent w = (refl, refl)
report_at-same (reporting cost) false w = (refl, refl)
report_at-same (reporting cost) true w =
    let r = check_budget w.budget w.totals cost in charge-same r.0 cost (record w { budget = r.1 })

begin_cycle-same :
    (now : ℕ) (t : Trigger) (w : World) → IsEnded w.status → SameAs w (begin_cycle now t w)
begin_cycle-same now t w h = rw (begin_cycle-ended now t w h) (refl, refl)

fire-same :
    (now : ℕ) (p : Option (Trigger × Option String)) (w : World)
    → IsEnded w.status
    → SameAs w (fire now p w)
unfolding fire
fire-same now none w h = begin_cycle-same now periodic w h
fire-same now (some (t, x)) w h =
    begin_cycle-same now t (record w { loop = record w.loop { pending = none } }) h

final_of_ended :
    (s : Status) → IsEnded s → (s ≡ known completed) ⊎ ((s ≡ known error) ⊎ (s ≡ unknown))
final_of_ended s (inl e) = inl e
final_of_ended s (inr e) = inr (inl e)

step-same : (w : World) (o : Op) → IsEnded w.status → SameAs w (step w o)
unfolding step
step-same w start h = (refl, refl)
step-same w stop h = (refl, refl)
step-same w (tick now) h =
    both_branches (SameAs w) w.loop.timer (fire-same now w.loop.pending w h) (refl, refl)
step-same w (trigger now t context) h =
    both_branches (SameAs w) (ltb (now - w.loop.last_cycle_at) 10000) (refl, refl)
      (begin_cycle-same now t w h)
step-same w (handle_user_message now) h = begin_cycle-same now user_message w h
step-same w (record_event e) h = (refl, refl)
step-same w (set_current_step i n) h = (refl, refl)
step-same w (stop_and_drain k) h = (refl, refl)
step-same w (receive a) h = receive_at-same w.loop.cycle a w
step-same w (report sent) h = report_at-same w.loop.cycle sent w
step-same w close h = close_at-same w.loop.cycle w
step-same w (transition s) h = (step_final w.status s (final_of_ended w.status h), refl)
step-same w (spend cost) h = (refl, refl)

-- Once a session is completed or has failed, its loop never asks the adapter again, and the status
-- stays, whatever triggers, ticks, user messages and requests for other statuses follow.
pub run-ended :
    (w : World) (os : List Op)
    → IsEnded w.status
    → ((run w os).status ≡ w.status) × ((run w os).prompts ≡ w.prompts)
unfolding run
run-ended w [] h = (refl, refl)
run-ended w (o ∷ os) h =
    let (s, p) = step-same w o h in
    let (s', p') = run-ended (step w o) os (subst IsEnded (sym s) h) in (s' ∙ s, p' ∙ p)
