-- ===== src/Team/Reviews/ReadOnly.antt =====
-- engine/team-execution.ts: in a step for review only, retries and seniors are harmless too.
use multi_agent_engine.Common.{ℕ, ◌≡◌, true, All, subst}
use multi_agent_engine.Team.Gates.{Rights}
use multi_agent_engine.Team.Gates.Laws.{
  IsHarmless, IsHarmlessIfRun, retry_rights-IsHarmlessIfRun, sr_rights-IsHarmlessIfRun,
}
use multi_agent_engine.Team.Reviews.Parts.{State}
use multi_agent_engine.Team.Reviews.Calls.{Job, review_only}
use multi_agent_engine.Team.Reviews.Kept.{IsRight, by_retry, by_senior, IsKept}

-- Everything that was started is harmless.
abbrev pub OnlyHarmless : ℕ → State → Type 0
OnlyHarmless n s = All IsHarmless s.started

IsRight-IsHarmless : (j : Job) (g : Rights) → review_only j ≡ true → IsRight j g → IsHarmless g
IsRight-IsHarmless j g e (by_retry m attempt h) =
    subst IsHarmlessIfRun (rw e at h)
      (retry_rights-IsHarmlessIfRun j.env.numeral j.step.strict m attempt)
IsRight-IsHarmless j g e (by_senior ms senior worker h) =
    subst IsHarmlessIfRun (rw e at h) (sr_rights-IsHarmlessIfRun j.step.strict ms senior worker)

pub OnlyHarmless-IsKept : (j : Job) → review_only j ≡ true → IsKept j OnlyHarmless
OnlyHarmless-IsKept j e = record {
  on_tick = λ s h. h;
  on_start = λ s g r h. (IsRight-IsHarmless j g e r, h);
  on_refusal = λ s b h. h;
  on_charge = λ s b c t h. h;
  on_review_cost = λ s c t h. h;
  on_reviews = λ n s rs h. h;
  on_assign = λ n s m h. h;
  on_fix = λ s p f k h. h;
  on_replace = λ s p d h. h;
  on_put = λ s p d h. h;
}
