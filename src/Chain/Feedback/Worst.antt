-- ===== src/Chain/Feedback/Worst.antt =====
-- engine/chain-runner.ts and engine/output-parsing.ts: the two ways to find the worst of parallel
-- results.
use multi_agent_engine.Common.{
  ◌≤◌, ◌<◌, ◌≡◌, refl, sym, ◌∙◌, ap, inl, inr, Option, none, some, List, [], ◌∷◌, ltb, map,
  if◌then◌else◌, Bool-cases, All, Memᴰ, arith, both_branches,
}
use mathlib.Core.List.Memᴰ.{head, tail}
use multi_agent_engine.Chain.Feedback.{
  Grade, perfect, verified, partial, feedback, ungraded, StepResult, position, worst_result, worse,
  worst_from, worst_grade, grade_of,
}

-- A grade that the code orders.
abbrev pub IsGraded : StepResult → Type 0
IsGraded r = 0 < position r.grade

-- Both comparisons agree on such grades.
worse-position :
    (a b : StepResult)
    → IsGraded a
    → IsGraded b
    → worse a.grade b.grade ≡ (if ltb (position a.grade) (position b.grade) then b else a).grade
unfolding worse
worse-position a b ha hb = ground arith

abbrev pick : StepResult → StepResult → StepResult
pick a b = if ltb (position a.grade) (position b.grade) then b else a

pick-IsGraded : (a b : StepResult) → IsGraded a → IsGraded b → IsGraded (pick a b)
pick-IsGraded a b ha hb = both_branches IsGraded (ltb (position a.grade) (position b.grade)) hb ha

worst_from-worst_result :
    (w : StepResult) (rs : List StepResult)
    → IsGraded w
    → All IsGraded rs
    → worst_from w.grade (map grade_of rs) ≡ (worst_result w rs).grade
unfolding worst_from worst_result
worst_from-worst_result w [] hw h = refl
worst_from-worst_result w (r ∷ rs) hw h =
    ap (λ (g : Option Grade). worst_from g (map grade_of rs)) (worse-position w r hw h.0)
    ∙ worst_from-worst_result (pick w r) rs (pick-IsGraded w r hw h.0) h.1

worse-none : (g : Option Grade) → worse none g ≡ g
unfolding worse
worse-none none = refl
worse-none (some g) = refl

pick-left : (a b : StepResult) → position a.grade ≤ position (pick a b).grade
pick-left a b = ground arith

pick-right : (a b : StepResult) → position b.grade ≤ position (pick a b).grade
pick-right a b = ground arith

worst_result-above :
    (w : StepResult) (rs : List StepResult) → position w.grade ≤ position (worst_result w rs).grade
unfolding worst_result
worst_result-above w [] = omega arith
worst_result-above w (r ∷ rs) = omega (arith, pick-left w r, worst_result-above (pick w r) rs)

-- A result that is no better than another one.
abbrev pub IsBelow : StepResult → StepResult → Type 0
IsBelow w r = position r.grade ≤ position w.grade

worst_result-IsBelow :
    (w : StepResult) (rs : List StepResult) → All (IsBelow (worst_result w rs)) rs
unfolding worst_result
worst_result-IsBelow w [] = tt
worst_result-IsBelow w (r ∷ rs) = (
  omega (arith, pick-right w r, worst_result-above (pick w r) rs),
  worst_result-IsBelow (pick w r) rs,
)

worst_result-Memᴰ : (w : StepResult) (rs : List StepResult) → Memᴰ (worst_result w rs) (w ∷ rs)
unfolding worst_result
worst_result-Memᴰ w [] = head refl
worst_result-Memᴰ w (r ∷ rs) = elim (Bool-cases (ltb (position w.grade) (position r.grade))) [
  | inl e ↦ rw e (tail (worst_result-Memᴰ r rs))
  | inr e ↦ rw e (skip (worst_result-Memᴰ w rs))
]
  where
    skip : {x : StepResult} → Memᴰ x (w ∷ rs) → Memᴰ x (w ∷ r ∷ rs)
    skip (head e) = head e
    skip (tail m) = tail (tail m)

-- The result that `reduce` picks among parallel results is one of them, and none is worse. Where
-- each has one of the five ordered grades, its grade is the one that worstGrade finds.
pub worst_result-worst_grade :
    (r : StepResult) (rs : List StepResult)
    → Memᴰ (worst_result r rs) (r ∷ rs)
      × All (IsBelow (worst_result r rs)) (r ∷ rs)
      × (All IsGraded (r ∷ rs) → worst_grade (map grade_of (r ∷ rs)) ≡ (worst_result r rs).grade)
unfolding worst_grade worst_from
worst_result-worst_grade r rs = (
  worst_result-Memᴰ r rs,
  (worst_result-above r rs, worst_result-IsBelow r rs),
  λ h.
      ap (λ (g : Option Grade). worst_from g (map grade_of rs)) (worse-none r.grade)
      ∙ worst_from-worst_result r rs h.0 h.1,
)

worse-failed : (w : Option Grade) → worse w (some Grade.failed) ≡ some Grade.failed
unfolding worse
worse-failed none = refl
worse-failed (some perfect) = refl
worse-failed (some verified) = refl
worse-failed (some partial) = refl
worse-failed (some feedback) = refl
worse-failed (some Grade.failed) = refl
worse-failed (some ungraded) = refl

failed-worse : (g : Option Grade) → worse (some Grade.failed) g ≡ some Grade.failed
unfolding worse
failed-worse none = refl
failed-worse (some perfect) = refl
failed-worse (some verified) = refl
failed-worse (some partial) = refl
failed-worse (some feedback) = refl
failed-worse (some Grade.failed) = refl
failed-worse (some ungraded) = refl

worst_from-failed :
    (gs : List (Option Grade)) → worst_from (some Grade.failed) gs ≡ some Grade.failed
unfolding worst_from
worst_from-failed [] = refl
worst_from-failed (g ∷ gs) =
    ap (λ (w : Option Grade). worst_from w gs) (failed-worse g) ∙ worst_from-failed gs

worst_from-mem_failed :
    (w : Option Grade) (gs : List (Option Grade))
    → Memᴰ (some Grade.failed) gs
    → worst_from w gs ≡ some Grade.failed
unfolding worst_from
worst_from-mem_failed w [] m = elim m [ ]
worst_from-mem_failed w (g ∷ gs) (head h) =
    ap (λ (v : Option Grade). worst_from v gs) (ap (worse w) (sym h) ∙ worse-failed w)
    ∙ worst_from-failed gs
worst_from-mem_failed w (g ∷ gs) (tail m) = worst_from-mem_failed (worse w g) gs m

pub worst_grade-failed :
    (gs : List (Option Grade)) → Memᴰ (some Grade.failed) gs → worst_grade gs ≡ some Grade.failed
unfolding worst_grade
worst_grade-failed gs m = worst_from-mem_failed none gs m
