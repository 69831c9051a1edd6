-- ===== src/Chain/Actions/Laws.antt =====
-- engine/chain-runner.ts: what the orchestrator's actions can change, over any queue of them.
use multi_agent_engine.Common.{
  ℕ, zero, suc, String, ◌+◌, ◌≤◌, ◌<◌, max, ◌≡◌, refl, ◌∙◌, ap, ◌⊎◌, inl, inr, true, ◌&&◌, Option,
  none, some, List, [], ◌∷◌, ◌++◌, Bool-cases, ltb, leb, length, get_elem?, set, length-append,
  length-set, arith, sym, subst,
}
use multi_agent_engine.Pipeline.{Text, PipelineTracker, Moment}
use multi_agent_engine.Pipeline.Bounds.{fail_stage-out}
use multi_agent_engine.Chain.TillDone.{ChainStep}
use multi_agent_engine.Chain.Actions.{
  Action, continue, pause, escalate_to_user, reassign, skip_step, spawn_team, Runner, has, add,
  hold, fail_at, with_team, process_loop_action, is_paused, drain_actions,
}

-- The tracker has a stage for no step after the next one.
abbrev pub stage_count : Option PipelineTracker → ℕ
stage_count none = 0
stage_count (some t) = length t.state.stages

-- What holds between the runner before and after actions at step `i`.
pub record Kept (original i : ℕ) (r r' : Runner) : Type 0 where
  pub past : (j : ℕ) → j ≤ i → get_elem? r'.steps j ≡ get_elem? r.steps j
  pub grows : length r.steps ≤ length r'.steps
  pub spawns : length r'.steps ≤ max (length r.steps) (3 + original)
  pub skips :
      (j : ℕ)
      → has j r'.skipped ≡ true
      → (has j r.skipped ≡ true) ⊎ ((i < j) × (j < length r'.steps))
  pub stages : stage_count r.pipeline ≤ suc i → r'.pipeline ≡ r.pipeline

Kept-refl : (original i : ℕ) (r : Runner) → Kept original i r r
Kept-refl original i r = record {
  past = λ j h. refl;
  grows = omega arith;
  spawns = omega arith;
  skips = λ j h. inl h;
  stages = λ h. refl;
}

Kept-trans :
    (original i : ℕ) (r s t : Runner)
    → Kept original i r s
    → Kept original i s t
    → Kept original i r t
Kept-trans original i r s t v w = record {
  past = λ j h. w.past j h ∙ v.past j h;
  grows = omega (arith, v.grows, w.grows);
  spawns = omega (arith, v.spawns, w.spawns);
  skips = λ j h. elim (w.skips j h) [
    | inl e ↦ elim (v.skips j e) [ inl f ↦ inl f | inr g ↦ inr (g.0, omega (arith, g.1, w.grows)) ]
    | inr g ↦ inr g
  ];
  stages = λ h. w.stages (subst (λ p. stage_count p ≤ suc i) (sym (v.stages h)) h) ∙ v.stages h;
}

get_elem?-set_after :
    {A : Type 0} (xs : List A) (k j : ℕ) (v : A) → j < k → get_elem? (set xs k v) j ≡ get_elem? xs j
get_elem?-set_after [] k j v h = refl
get_elem?-set_after (x ∷ xs) zero j v h = absurd (omega arith)
get_elem?-set_after (x ∷ xs) (suc k) zero v h = refl
get_elem?-set_after (x ∷ xs) (suc k) (suc j) v h = get_elem?-set_after xs k j v (omega arith)

get_elem?-append :
    {A : Type 0} (xs ys : List A) (j : ℕ) → j < length xs → get_elem? (xs ++ ys) j ≡ get_elem? xs j
get_elem?-append [] ys j h = absurd (omega arith)
get_elem?-append (x ∷ xs) ys zero h = refl
get_elem?-append (x ∷ xs) ys (suc j) h = get_elem?-append xs ys j (omega arith)

get_elem?-out : {A : Type 0} (xs : List A) (j : ℕ) → length xs ≤ j → get_elem? xs j ≡ none
get_elem?-out [] j h = refl
get_elem?-out (x ∷ xs) zero h = absurd (omega arith)
get_elem?-out (x ∷ xs) (suc j) h = get_elem?-out xs j (omega arith)

has-add : (j k : ℕ) (ks : List ℕ) → has j (add k ks) ≡ true → (has j ks ≡ true) ⊎ (j ≡ k)
has-add j k ks h = ground arith

fail_at-out :
    (m : Moment) (j : ℕ) (why : Text) (p : Option PipelineTracker)
    → stage_count p ≤ j
    → fail_at m j why p ≡ p
fail_at-out m j why none h = refl
fail_at-out m j why (some t) h =
    ap some (fail_stage-out m j why t (get_elem?-out t.state.stages j h))

in_range : (i j n : ℕ) → (ltb i j && ltb j n) ≡ true → (i < j) × (j < n)
in_range i j n h = (ground arith, ground arith)

module _ (original i : ℕ) (r : Runner) where
  skip-Kept :
      (m : Moment) (j : ℕ) (why : Text)
      → Kept original i r (process_loop_action original i m (skip_step j why) r)
  unfolding process_loop_action
  skip-Kept m j why = elim (Bool-cases (ltb i j && ltb j (length r.steps))) [
    | inl e ↦
        let b = in_range i j (length r.steps) e in
        rw e (record {
          past = λ k h. refl;
          grows = omega arith;
          spawns = omega arith;
          skips = λ k h. elim (has-add k j r.skipped h) [
            | inl f ↦ inl f
            | inr f ↦ inr (omega (arith, b), omega (arith, b))
          ];
          stages = λ h. fail_at-out m j why r.pipeline (omega (arith, b));
        })
    | inr e ↦ rw e (Kept-refl original i r)
  ]

  reassign-Kept :
      (m : Moment) (j : ℕ) (team : String)
      → Kept original i r (process_loop_action original i m (reassign j team) r)
  unfolding process_loop_action
  reassign-Kept m j team = elim (Bool-cases (ltb i j && ltb j (length r.steps))) [
    | inl e ↦
        let b = in_range i j (length r.steps) e in
        let s = with_team (get_elem? r.steps j) team in
        let same = length-set r.steps j s in
        rw e (record {
          past = λ k h. get_elem?-set_after r.steps j k s (omega (arith, b));
          grows = omega (arith, same);
          spawns = omega (arith, same);
          skips = λ k h. inl h;
          stages = λ h. refl;
        })
    | inr e ↦ rw e (Kept-refl original i r)
  ]

  spawn-Kept :
      (m : Moment) (team : String)
      → i < length r.steps
      → Kept original i r (process_loop_action original i m (spawn_team team) r)
  unfolding process_loop_action
  spawn-Kept m team b = elim (Bool-cases (leb (3 + original) (length r.steps))) [
    | inl e ↦ rw e (Kept-refl original i r)
    | inr e ↦
        let s : ChainStep = record { team = some team; agent = none; till_done = none } in
        let more = length-append r.steps (s ∷ []) in
        let few : length r.steps < 3 + original = ground arith in
        rw e (record {
          past = λ k h. get_elem?-append r.steps (s ∷ []) k (omega (arith, b));
          grows = omega (arith, more);
          spawns = omega (arith, more, few);
          skips = λ k h. inl h;
          stages = λ h. refl;
        })
  ]

  hold-Kept : Kept original i r (hold r)
  unfolding hold
  hold-Kept = record {
    past = λ j h. refl;
    grows = omega arith;
    spawns = omega arith;
    skips = λ j h. inl h;
    stages = λ h. refl;
  }

process-Kept :
    (original i : ℕ) (m : Moment) (a : Action) (r : Runner)
    → i < length r.steps
    → Kept original i r (process_loop_action original i m a r)
unfolding process_loop_action
process-Kept original i m continue r b = Kept-refl original i r
process-Kept original i m pause r b = hold-Kept original i r
process-Kept original i m escalate_to_user r b = hold-Kept original i r
process-Kept original i m (skip_step j why) r b = skip-Kept original i r m j why
process-Kept original i m (reassign j team) r b = reassign-Kept original i r m j team
process-Kept original i m (spawn_team team) r b = spawn-Kept original i r m team b

-- Whatever is in the queue when step `i` is about to start: the steps up to `i` stay as they are,
-- the chain does not get shorter and gets longer up to three steps more than it had at first, a
-- step that is newly to be skipped comes after `i` and is a step of the chain, and the tracker, as
-- long as it has no stage beyond `i`, is not changed at all.
pub drain_actions-Kept :
    (original i : ℕ) (queue : List (Moment × Action)) (r : Runner)
    → i < length r.steps
    → Kept original i r (drain_actions original i queue r).1
unfolding drain_actions
drain_actions-Kept original i [] r b = Kept-refl original i r
drain_actions-Kept original i ((m, a) ∷ queue) r b =
    let r' = process_loop_action original i m a r in
    let v = process-Kept original i m a r b in
    elim (Bool-cases (is_paused r'.status)) [
      | inl e ↦ rw e v
      | inr e ↦ rw e (
          Kept-trans original i r r' _ v
            (drain_actions-Kept original i queue r' (omega (arith, b, v.grows))))
    ]
