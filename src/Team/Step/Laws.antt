-- ===== src/Team/Step/Laws.antt =====
-- engine/team-execution.ts, runTeamStep: what a step of a team costs, what its agents may do, and when
-- it fails.
use multi_agent_engine.Common.{
  ℕ, String, suc, ◌+◌, ◌≤◌, ◌≡◌, refl, ◌⊎◌, inl, inr, Bool, true, false, ◌||◌, none, some, List, [],
  ◌∷◌, ◌++◌, all, All, All-append, arith, ap, subst, Bool-cases, Option, Option-cases,
}
use multi_agent_engine.Pipeline.{Text}
use multi_agent_engine.Chain.Feedback.{Grade, verified, failed, is_failed_grade}
use multi_agent_engine.SpawnDecision.{is_empty}
use multi_agent_engine.Team.Gates.{lead_rights}
use multi_agent_engine.Team.Gates.Laws.{
  IsHarmless, lead_rights-IsHarmless, worker_rights-IsHarmless,
}
use multi_agent_engine.Team.Data.{
  WorkerReview, DelegateResult, Outcome, done, threw, and_then, state_of, is_needs_work, sum_cost,
}
use multi_agent_engine.Team.Workers.{Entry, roster, FailedWorker, sort_outcomes}
use multi_agent_engine.Team.Reviews.Parts.{State, tick, assert_active}
use multi_agent_engine.Team.Reviews.Calls.{Job, review_only}
use multi_agent_engine.Team.Reviews.Cases.{assert_active-cases, charge-cases}
use multi_agent_engine.Team.Reviews.Costs.{IsPaid, IsPaid-IsKept}
use multi_agent_engine.Team.Reviews.Cycle.{needing_work, lead_review_and_retry}
use multi_agent_engine.Team.Reviews.Kept.Loop.{lead_review_and_retry-After}
use multi_agent_engine.Team.Reviews.Limits.{limit_of, EndsWithin, lead_review_and_retry-EndsWithin}
use multi_agent_engine.Team.Reviews.ReadOnly.{OnlyHarmless, OnlyHarmless-IsKept}
use multi_agent_engine.Team.Step.{
  Inputs, passes, build_team_result, accumulate, TeamEnding, finished, thrown, ending, finish,
  lead_id, missing_name, rights_of, review_team, run_workers, after_lead, delegate_to_lead,
  run_team_step,
}

-- Nothing is reported to cost more than the session was charged.
abbrev pub ChargesFor : State → TeamEnding → Type 0
ChargesFor s (finished r s') = s.session.cost + r.cost ≤ s'.session.cost
ChargesFor s (thrown s') = s.session.cost ≤ s'.session.cost

abbrev pub last_state : TeamEnding → State
last_state (finished r s) = s
last_state (thrown s) = s

abbrev pub answer_of_lead : Job → Inputs → Option DelegateResult
answer_of_lead j inputs =
    inputs.lead_answer (lead_rights inputs.tools_override inputs.lead (review_only j))

-- Whether an answer of the lead ends the step.
abbrev pub ends_early : Job → Inputs → DelegateResult → Bool
ends_early j inputs lead =
    is_failed_grade lead.grade || (inputs.lead_only || is_empty j.team.members)

-- The result is the lead's answer, which ends the step; or the reviews pass; or all retry cycles were
-- used.
abbrev pub IsGraded : Job → Inputs → ℕ → TeamEnding → Type 0
IsGraded j inputs k (thrown s) = s.cycles ≤ k + limit_of j
IsGraded j inputs k (finished r s) =
    (s.cycles ≤ k + limit_of j)
    × ((answer_of_lead j inputs ≡ some r) × (ends_early j inputs r ≡ true) × (s.cycles ≡ k)
        ⊎ (r.grade ≡ some verified) × (needing_work 0 s.reviews ≡ [])
        ⊎ (r.grade ≡ some failed) × (s.cycles ≡ k + limit_of j))

-- All three, from the state `s` on.
record Holds (j : Job) (inputs : Inputs) (s : State) (e : TeamEnding) : Type 0 where
  costs : ChargesFor s e
  harmless : review_only j ≡ true → All IsHarmless s.started → All IsHarmless (last_state e).started
  graded : IsGraded j inputs s.cycles e

passes_of_nil : (i : ℕ) (rs : List WorkerReview) → needing_work i rs ≡ [] → all passes rs ≡ true
unfolding needing_work
passes_of_nil i [] h = refl
passes_of_nil i (r ∷ rs) h = elim (Bool-cases (is_needs_work r.grade)) [
  | inl e ↦ absurd (cc (rw e at h))
  | inr e ↦ rw e (passes_of_nil (suc i) rs (rw e at h))
]

nil_of_passes : (i : ℕ) (rs : List WorkerReview) → all passes rs ≡ true → needing_work i rs ≡ []
unfolding needing_work
nil_of_passes i [] h = refl
nil_of_passes i (r ∷ rs) h = elim (Bool-cases (is_needs_work r.grade)) [
  | inl e ↦ absurd (cc (h, e))
  | inr e ↦ rw e (nil_of_passes (suc i) rs (rw e at h))
]

result_grade :
    (lead : DelegateResult) (id : Text) (name : String) (ds : List DelegateResult)
    (rs : List WorkerReview) (P : Type 0)
    → (needing_work 0 rs ≡ []) ⊎ P
    → ((build_team_result lead id name ds rs).grade ≡ some verified) × (needing_work 0 rs ≡ [])
      ⊎ ((build_team_result lead id name ds rs).grade ≡ some Grade.failed) × P
unfolding build_team_result
result_grade lead id name ds rs P h = elim (Bool-cases (all passes rs)) [
  | inl e ↦ inl (rw e refl, nil_of_passes 0 rs e)
  | inr e ↦ elim h [ inl n ↦ absurd (cc (e, passes_of_nil 0 rs n)) | inr p ↦ inr (rw e refl, p) ]
]

-- What the state has lost or won since the start `s`: `n` was charged.
abbrev Since : Job → State → ℕ → State → Type 0
Since j s n s' =
    (s.session.cost + n ≤ s'.session.cost)
    × (s'.cycles ≡ s.cycles)
    × (review_only j ≡ true → All IsHarmless s.started → All IsHarmless s'.started)

either :
    (Q : TeamEnding → Type 0) (b : Bool) {x y : TeamEnding}
    → (b ≡ true → Q x)
    → Q y
    → Q (elim b [ true ↦ x | false ↦ y ])
either Q true hx hy = hx refl
either Q false hx hy = hy

module _ (j : Job) (inputs : Inputs) (s : State) where
  Since-Holds : (n : ℕ) (s' : State) → Since j s n s' → Holds j inputs s (thrown s')
  Since-Holds n s' (c, e, h) = record { costs = omega arith; harmless = h; graded = omega arith }

  finish-Holds :
      (lead : DelegateResult) (o : Outcome State)
      → IsPaid (s.session.cost + lead.cost) 0 (state_of o)
      → (review_only j ≡ true → All IsHarmless s.started → All IsHarmless (state_of o).started)
      → EndsWithin s.cycles (limit_of j) o
      → Holds j inputs s (ending o (finish j lead))
  unfolding build_team_result
  finish-Holds lead (threw s2) p h e = record { costs = omega arith; harmless = h; graded = e }
  finish-Holds lead (done s2) p h (l, e) = record {
    costs = omega arith;
    harmless = h;
    graded = (l, inr (result_grade lead (lead_id j) j.team.lead_name s2.results s2.reviews _ e));
  }

  -- The costs of the workers are charged; `results` are theirs.
  accumulate-cases :
      (rs : List DelegateResult) (n : ℕ) (s' : State) (Q : Outcome State → Type 0)
      → Since j s n s'
      → ((s2 : State) → Since j s (n + sum_cost rs) s2 → s2.results ≡ s'.results → Q (done s2))
      → ((s2 : State) → Since j s n s2 → Q (threw s2))
      → Q (accumulate rs s')
  unfolding accumulate
  accumulate-cases [] n s' Q (c, e, h) hd ht = hd s' (omega arith, e, h) refl
  accumulate-cases (r ∷ rs) n s' Q (c, e, h) hd ht =
      charge-cases r.cost r.tokens s' (λ o. Q (and_then o (accumulate rs)))
        (λ b.
          accumulate-cases rs (n + r.cost) _ Q (omega arith, e, h)
            (λ s2 (c2, e2, h2) same. hd s2 (omega arith, e2, h2) same)
            (λ s2 (c2, e2, h2). ht s2 (omega arith, e2, h2)))
        (λ b. ht _ (c, e, h))

  review_team-Holds :
      (lead : DelegateResult) (rs : List DelegateResult) (fs : List FailedWorker) (s' : State)
      → Since j s lead.cost s'
      → Holds j inputs s (review_team j lead (rs, fs) s')
  unfolding review_team
  review_team-Holds lead rs fs s' (c, e, h) =
      let base = s.session.cost + lead.cost in
      assert_active-cases j.env s'
        (λ o. Holds j inputs s (
          ending o (λ s1.
            ending (accumulate rs (record s1 { results = rs }))
              (λ s2. ending (lead_review_and_retry j fs s2) (finish j lead)))))
        (accumulate-cases rs lead.cost _
          (λ o.
            Holds j inputs s
              (ending o (λ s2. ending (lead_review_and_retry j fs s2) (finish j lead))))
          (c, e, h)
          (λ s2 (c2, e2, h2) same.
            finish-Holds lead (lead_review_and_retry j fs s2)
              (lead_review_and_retry-After j (IsPaid base) (IsPaid-IsKept j base) (λ s3 k. k) fs s2
                (omega (arith, ap sum_cost same)))
              (λ ro k.
                lead_review_and_retry-After j OnlyHarmless (OnlyHarmless-IsKept j ro) (λ s3 i. i) fs
                  s2 (h2 ro k))
              (subst (λ k. EndsWithin k (limit_of j) (lead_review_and_retry j fs s2)) e2
                (lead_review_and_retry-EndsWithin j fs s2)))
          (λ s2 k. Since-Holds lead.cost s2 k))
        (Since-Holds lead.cost _ (c, e, h))

  rights_of-IsHarmless : (es : List Entry) → review_only j ≡ true → All IsHarmless (rights_of j es)
  rights_of-IsHarmless [] ro = tt
  rights_of-IsHarmless (e ∷ es) ro = (
    rw ro (worker_rights-IsHarmless j.step.strict e.member e.decision),
    rights_of-IsHarmless es ro,
  )

  run_workers-Holds :
      (lead : DelegateResult) (s' : State)
      → Since j s lead.cost s'
      → Holds j inputs s (run_workers j inputs lead s')
  unfolding run_workers
  run_workers-Holds lead s' (c, e, h) =
      elim (roster j.team j.step.strict (review_only j) (inputs.decisions lead))
        as (λ o. Holds j inputs s (elim o [
          | none ↦ thrown s'
          | some es ↦
              review_team j lead
                (sort_outcomes (missing_name j) j.team.members 0 (inputs.settlements es))
                (record s' {
                  started = rights_of j es ++ s'.started;
                  assignments = inputs.assignments es;
                })
        ])) [
          | none ↦ Since-Holds lead.cost s' (c, e, h)
          | some es ↦ review_team-Holds lead _ _ _ (
            c,
            e,
            λ ro k.
                All-append IsHarmless (rights_of j es) s'.started (rights_of-IsHarmless es ro)
                  (h ro k),
          )
        ]

  after_lead-Holds :
      (lead : DelegateResult) (s' : State)
      → answer_of_lead j inputs ≡ some lead
      → Since j s lead.cost s'
      → Holds j inputs s (after_lead j inputs lead s')
  unfolding after_lead
  after_lead-Holds lead s' q (c, e, h) =
      assert_active-cases j.env s'
        (λ o. Holds j inputs s (
          ending o (λ s1.
            elim (is_failed_grade lead.grade || (inputs.lead_only || is_empty j.team.members)) [
              | true ↦ finished lead s1
              | false ↦ ending (assert_active j.env s1) (run_workers j inputs lead)
            ])))
        (either (Holds j inputs s)
          (is_failed_grade lead.grade || (inputs.lead_only || is_empty j.team.members))
          (λ b. record { costs = c; harmless = h; graded = (omega arith, inl (q, b, e)) })
          (assert_active-cases j.env (tick s')
            (λ o. Holds j inputs s (ending o (run_workers j inputs lead)))
            (run_workers-Holds lead _ (c, e, h)) (Since-Holds lead.cost _ (c, e, h))))
        (Since-Holds lead.cost _ (c, e, h))

  delegate_to_lead-Holds :
      (s' : State) → Since j s 0 s' → Holds j inputs s (delegate_to_lead j inputs s')
  unfolding delegate_to_lead
  delegate_to_lead-Holds s' (c, e, h) =
      let rights = lead_rights inputs.tools_override inputs.lead (review_only j) in
      let s1 = record (tick s') { started = rights ∷ s'.started } in
      let safe : review_only j ≡ true → All IsHarmless s.started → All IsHarmless s1.started =
        λ ro k. (rw ro (lead_rights-IsHarmless inputs.tools_override inputs.lead), h ro k) in
      elim (Option-cases (answer_of_lead j inputs)) [
        | inl n ↦ rw (n, delegate_to_lead) (Since-Holds 0 s1 (c, e, safe))
        | inr (lead, q) ↦
            rw (q, delegate_to_lead)
              (charge-cases lead.cost lead.tokens s1
                (λ o. Holds j inputs s (ending o (after_lead j inputs lead)))
                (λ b. after_lead-Holds lead _ q (omega arith, e, safe))
                (λ b. Since-Holds 0 _ (c, e, safe)))
      ]

run_team_step-Holds :
    (j : Job) (inputs : Inputs) (s : State) → Holds j inputs s (run_team_step j inputs s)
unfolding run_team_step
run_team_step-Holds j inputs s =
    assert_active-cases j.env s (λ o. Holds j inputs s (ending o (delegate_to_lead j inputs)))
      (delegate_to_lead-Holds j inputs s (tick s) (omega arith, refl, λ ro k. k))
      (Since-Holds j inputs s 0 (tick s) (omega arith, refl, λ ro k. k))

-- A step of a team that returns reports no greater cost than the session was charged for it, whatever
-- its agents answer; and a step that throws takes nothing back from the session.
pub run_team_step-ChargesFor :
    (j : Job) (inputs : Inputs) (s : State) → ChargesFor s (run_team_step j inputs s)
run_team_step-ChargesFor j inputs s = (run_team_step-Holds j inputs s).costs

-- In a step for review only, whatever the lead, the workers and the reviews answer and wherever the
-- step throws: the lead, every worker of the roster, every retried worker and every senior have only
-- tools to read, and nothing to write or to update, if that was so of those started before. The calls by
-- which the lead reviews are not among them.
pub run_team_step-IsHarmless :
    (j : Job) (inputs : Inputs) (s : State)
    → review_only j ≡ true
    → All IsHarmless s.started
    → All IsHarmless (last_state (run_team_step j inputs s)).started
run_team_step-IsHarmless j inputs s ro h = (run_team_step-Holds j inputs s).harmless ro h

-- A step of a team makes no more retry cycles than it may. Where it returns, the result is the lead's own
-- answer, which failed or had no workers to follow it, and nothing was retried; or the grade is VERIFIED
-- and no review needs work; or the grade is FAILED and all the retry cycles were made.
pub run_team_step-IsGraded :
    (j : Job) (inputs : Inputs) (s : State) → IsGraded j inputs s.cycles (run_team_step j inputs s)
run_team_step-IsGraded j inputs s = (run_team_step-Holds j inputs s).graded
