-- ===== src/Team/Parallel/Laws.antt =====
-- engine/team-execution.ts: what a parallel step returns where a team failed.
use multi_agent_engine.Common.{
  ℕ, suc, ◌≡◌, refl, ◌∙◌, ap, inl, inr, String, Bool, true, false, not, Option, some, List, [], ◌∷◌,
  ◌++◌, map, any, length, All, Memᴰ, Bool-cases, arith,
}
use mathlib.Core.List.Memᴰ.{head, tail}
use multi_agent_engine.Pipeline.{Text}
use multi_agent_engine.Chain.Feedback.{Grade, is_bad, is_failed_grade, worst_grade}
use multi_agent_engine.Chain.Feedback.Worst.{worst_grade-failed}
use multi_agent_engine.SpawnDecision.{is_empty}
use multi_agent_engine.Team.Data.{DelegateResult}
use multi_agent_engine.Team.Workers.Reports.{answers_of}
use multi_agent_engine.Team.Workers.{Settlement, fulfilled, rejected, FailedWorker}
use multi_agent_engine.Team.Parallel.{
  failed_team, build_failed_team_results, sort_teams, mark_synthesis, synthesis, run_parallel_step,
}

abbrev pub grade_of : DelegateResult → Option Grade
grade_of r = r.grade

abbrev pub is_rejected : Settlement → Bool
is_rejected (fulfilled r) = false
is_rejected (rejected e) = true

sort_teams-rejected :
    (missing : ℕ → String) (teams : List String) (i : ℕ) (ss : List Settlement)
    → is_empty (sort_teams missing teams i ss).1 ≡ not (any is_rejected ss)
unfolding sort_teams
sort_teams-rejected missing teams i [] = refl
sort_teams-rejected missing teams i (fulfilled r ∷ ss) =
    sort_teams-rejected missing teams (suc i) ss
sort_teams-rejected missing teams i (rejected e ∷ ss) = refl

sort_teams-answers_of :
    (missing : ℕ → String) (teams : List String) (i : ℕ) (ss : List Settlement)
    → (sort_teams missing teams i ss).0 ≡ answers_of ss
unfolding sort_teams
sort_teams-answers_of missing teams i [] = refl
sort_teams-answers_of missing teams i (fulfilled r ∷ ss) =
    ap (λ (rs : List DelegateResult). r ∷ rs) (sort_teams-answers_of missing teams (suc i) ss)
sort_teams-answers_of missing teams i (rejected e ∷ ss) =
    sort_teams-answers_of missing teams (suc i) ss

abbrev pub rejections : List Settlement → ℕ
rejections [] = 0
rejections (fulfilled r ∷ ss) = rejections ss
rejections (rejected e ∷ ss) = suc (rejections ss)

sort_teams-rejections :
    (missing : ℕ → String) (teams : List String) (i : ℕ) (ss : List Settlement)
    → length (build_failed_team_results (sort_teams missing teams i ss).1) ≡ rejections ss
unfolding sort_teams build_failed_team_results
sort_teams-rejections missing teams i [] = refl
sort_teams-rejections missing teams i (fulfilled r ∷ ss) =
    sort_teams-rejections missing teams (suc i) ss
sort_teams-rejections missing teams i (rejected e ∷ ss) =
    ap suc (sort_teams-rejections missing teams (suc i) ss)

failed-graded :
    (fs : List FailedWorker) → All (λ r. r.grade ≡ some Grade.failed) (build_failed_team_results fs)
unfolding build_failed_team_results failed_team
failed-graded [] = tt
failed-graded (f ∷ fs) = (refl, failed-graded fs)

failed-Memᴰ :
    (rs : List DelegateResult) (fs : List FailedWorker) (xs : List DelegateResult)
    → is_empty fs ≡ false
    → Memᴰ (some Grade.failed) (map grade_of (rs ++ (build_failed_team_results fs ++ xs)))
unfolding build_failed_team_results failed_team
failed-Memᴰ [] [] xs h = absurd (cc h)
failed-Memᴰ [] (f ∷ fs) xs h = head refl
failed-Memᴰ (r ∷ rs) fs xs h = tail (failed-Memᴰ rs fs xs h)

failed-bad : (g : Option Grade) → is_failed_grade g ≡ true → is_bad g ≡ true
failed-bad g h = ground arith

mark_synthesis-IsBad :
    (fs : List FailedWorker) (answer : DelegateResult)
    → is_empty fs ≡ false
    → is_bad (mark_synthesis (build_failed_team_results fs) answer).grade ≡ true
unfolding mark_synthesis build_failed_team_results
mark_synthesis-IsBad [] answer h = absurd (cc h)
mark_synthesis-IsBad (f ∷ fs) answer h = elim (Bool-cases (is_failed_grade answer.grade)) [
  | inl e ↦ rw e (failed-bad answer.grade e)
  | inr e ↦ rw e refl
]

-- Where the step of a team threw, a parallel step returns the results of the teams that did not, in their
-- order; then one for each team that did, graded FAILED; and last the synthesis, graded FEEDBACK or
-- FAILED whatever the adapter answered for it. The worst grade of all is FAILED.
pub run_parallel_step-worst_grade :
    (missing : ℕ → String) (teams : List String) (outcomes : List Settlement) (id : Text)
    (answer : DelegateResult)
    → any is_rejected outcomes ≡ true
    → let results = run_parallel_step missing teams outcomes id answer in
      (failures : List DelegateResult) × (last : DelegateResult) × (results
        ≡ answers_of outcomes ++ (failures ++ last ∷ []))
      × (length failures ≡ rejections outcomes)
      × All (λ r. r.grade ≡ some Grade.failed) failures
      × (is_bad last.grade ≡ true)
      × (worst_grade (map grade_of results) ≡ some Grade.failed)
unfolding run_parallel_step
run_parallel_step-worst_grade missing teams outcomes id answer h =
    let (rs, fs) = sort_teams missing teams 0 outcomes in
    let failures = build_failed_team_results fs in
    let last = synthesis id (mark_synthesis failures answer) in
    let some_failed : is_empty fs ≡ false =
      sort_teams-rejected missing teams 0 outcomes ∙ ap not h in
    (
      failures,
      last,
      ap (λ xs. xs ++ (failures ++ last ∷ [])) (sort_teams-answers_of missing teams 0 outcomes),
      sort_teams-rejections missing teams 0 outcomes,
      failed-graded fs,
      mark_synthesis-IsBad fs answer some_failed,
      worst_grade-failed _ (failed-Memᴰ rs fs _ some_failed),
    )
