-- ===== src/Team/Workers/Reports.antt =====
-- engine/team-execution.ts, executeWorkers: the names under which failed workers are reported.
use mathlib.Core.List.{append_assoc}
use multi_agent_engine.Common.{
  ℕ, suc, ◌≤◌, ◌≡◌, refl, ap, subst, String, Bool, false, Option, some, some_inj, List, [], ◌∷◌,
  ◌++◌, map, length, length-snoc, get_elem?-append, arith,
}
use multi_agent_engine.SpawnDecision.{SpawnDecision}
use multi_agent_engine.Team.Data.{TeamMember, TeamConfig, DelegateResult}
use multi_agent_engine.Team.Workers.{
  Entry, roster, Settlement, fulfilled, rejected, FailedWorker, name_at, sort_outcomes,
}

-- The failures, each with the name that stands in its place.
abbrev pub failures_of : List String → List Settlement → List FailedWorker
failures_of [] ss = []
failures_of (n ∷ ns) [] = []
failures_of (n ∷ ns) (fulfilled r ∷ ss) = failures_of ns ss
failures_of (n ∷ ns) (rejected e ∷ ss) = record { name = n; error = e } ∷ failures_of ns ss

-- The results that the workers gave, in their order.
abbrev pub answers_of : List Settlement → List DelegateResult
answers_of [] = []
answers_of (fulfilled r ∷ ss) = r ∷ answers_of ss
answers_of (rejected e ∷ ss) = answers_of ss

abbrev pub own_name : Entry → String
own_name e = e.member.name

abbrev pub member_name : TeamMember → String
member_name m = m.name

name_at-append :
    (missing : ℕ → String) (pre : List TeamMember) (m : TeamMember) (rest : List TeamMember)
    → name_at missing (pre ++ m ∷ rest) (length pre) ≡ m.name
name_at-append missing [] m rest = refl
name_at-append missing (x ∷ xs) m rest = rw (name_at, get_elem?-append xs m rest) refl

sort_outcomes-failures_of :
    (missing : ℕ → String) (pre ms : List TeamMember) (ss : List Settlement)
    → length ss ≤ length ms
    → (sort_outcomes missing (pre ++ ms) (length pre) ss).1 ≡ failures_of (map member_name ms) ss
unfolding sort_outcomes
sort_outcomes-failures_of missing pre [] [] h = refl
sort_outcomes-failures_of missing pre (m ∷ ms) [] h = refl
sort_outcomes-failures_of missing pre [] (s ∷ ss) h = absurd (omega arith)
sort_outcomes-failures_of missing pre (m ∷ ms) (fulfilled r ∷ ss) h =
    let ih = sort_outcomes-failures_of missing (pre ++ m ∷ []) ms ss (omega arith) in
    rw (length-snoc pre m, append_assoc pre (m ∷ []) ms) at ih
sort_outcomes-failures_of missing pre (m ∷ ms) (rejected e ∷ ss) h =
    let ih = sort_outcomes-failures_of missing (pre ++ m ∷ []) ms ss (omega arith) in
    let ih' : (sort_outcomes missing (pre ++ m ∷ ms) (suc (length pre)) ss).1
        ≡ failures_of (map member_name ms) ss =
      rw (length-snoc pre m, append_assoc pre (m ∷ []) ms) at ih in
    rw (name_at-append missing pre m ms, ih') refl

sort_outcomes-answers_of :
    (missing : ℕ → String) (ms : List TeamMember) (i : ℕ) (ss : List Settlement)
    → (sort_outcomes missing ms i ss).0 ≡ answers_of ss
unfolding sort_outcomes
sort_outcomes-answers_of missing ms i [] = refl
sort_outcomes-answers_of missing ms i (fulfilled r ∷ ss) =
    ap (λ (rs : List DelegateResult). r ∷ rs) (sort_outcomes-answers_of missing ms (suc i) ss)
sort_outcomes-answers_of missing ms i (rejected e ∷ ss) =
    sort_outcomes-answers_of missing ms (suc i) ss

entries_names :
    (f : TeamMember → Option SpawnDecision) (ms : List TeamMember)
    → map own_name (map (λ m. record { member = m; decision = f m }) ms) ≡ map member_name ms
entries_names f [] = refl
entries_names f (m ∷ ms) = ap (λ (ns : List String). m.name ∷ ns) (entries_names f ms)

-- Without strict mode, where every member works, and with no more outcomes than members: the results of
-- the workers that did not fail are kept, in their order; and every failure is reported, in order, under
-- the name of the member that stands in its place in the team, which is the name of the worker who failed.
pub sort_outcomes-own_name :
    (missing : ℕ → String) (team : TeamConfig) (review_only : Bool) (parsed : List SpawnDecision)
    (ss : List Settlement) {es : List Entry}
    → roster team false review_only parsed ≡ some es
    → length ss ≤ length team.members
    → let (rs, fs) = sort_outcomes missing team.members 0 ss in
      (rs ≡ answers_of ss)
      × (fs ≡ failures_of (map member_name team.members) ss)
      × (fs ≡ failures_of (map own_name es) ss)
unfolding roster
sort_outcomes-own_name missing team review_only parsed ss {es} h l =
    let a = sort_outcomes-failures_of missing [] team.members ss l in
    let n : map own_name es ≡ map member_name team.members =
      subst (λ x. map own_name x ≡ map member_name team.members) (some_inj.0 h)
        (entries_names _ team.members) in
    (sort_outcomes-answers_of missing team.members 0 ss, a, rw n a)
