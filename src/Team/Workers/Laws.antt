-- ===== src/Team/Workers/Laws.antt =====
-- engine/team-execution.ts, executeWorkers: the workers that a lead may start in strict mode.
use multi_agent_engine.Common.{
  ◌≡◌, refl, sym, ◌⊎◌, inl, inr, Bool, true, false, Option, some, some_inj, List, [], ◌∷◌, any,
  keep, All, Memᴰ, Bool-cases, Option-cases, subst,
}
use mathlib.Core.List.Memᴰ.{head, tail}
use multi_agent_engine.Pipeline.{Text}
use multi_agent_engine.SpawnDecision.{
  SpawnDecision, is_empty, validate_spawn_decision_for_execution,
}
use multi_agent_engine.SpawnDecision.Laws.{is_empty-nil}
use multi_agent_engine.SpawnDecision.Paths.{text_eq}
use multi_agent_engine.Team.Names.{worker_key}
use multi_agent_engine.Team.Data.{TeamMember, TeamConfig}
use multi_agent_engine.Team.Workers.{
  RosterError, Entry, name_of, find_member, available_tools, Judged, accepted, refused,
  judge_member, judge, push_key, authorize, needs_worker, roster,
}

Judged-cases :
    (j : Judged)
    → ((e : Entry) × (k : Text) × (j ≡ accepted e k))
      ⊎ ((r : RosterError) × (k : Option Text) × (j ≡ refused r k))
Judged-cases (accepted e k) = inl (e, k, refl)
Judged-cases (refused r k) = inr (r, k, refl)

-- A decision of the lead that passed the validation for its execution, for the member that it names.
abbrev pub Authorizes : TeamConfig → Bool → SpawnDecision → TeamMember → Type 0
Authorizes team review_only d m =
    Memᴰ m team.members
    × (text_eq (worker_key m.name) (worker_key (name_of d)) ≡ true)
    × (validate_spawn_decision_for_execution d (available_tools m review_only) ≡ [])

find_member-Memᴰ :
    (ms : List TeamMember) (key : Text) {m : TeamMember}
    → find_member ms key ≡ some m
    → Memᴰ m ms × (text_eq (worker_key m.name) key ≡ true)
unfolding find_member
find_member-Memᴰ [] key h = cc h
find_member-Memᴰ (x ∷ xs) key {m} h = elim (Bool-cases (text_eq (worker_key x.name) key)) [
  | inl e ↦
      let s : x ≡ m = some_inj.0 (rw e at h) in
      (head (sym s), subst (λ y. text_eq (worker_key y.name) key ≡ true) s e)
  | inr e ↦ let (a, b) = find_member-Memᴰ xs key (rw e at h) in (tail a, b)
]

judge_member-accepted :
    (review_only : Bool) (seen : List Text) (d : SpawnDecision) (m : TeamMember) {e : Entry}
    {k : Text}
    → judge_member review_only seen d m ≡ accepted e k
    → (e ≡ record { member = m; decision = some d })
      × (k ≡ worker_key m.name)
      × (any (text_eq (worker_key m.name)) seen ≡ false)
      × (validate_spawn_decision_for_execution d (available_tools m review_only) ≡ [])
unfolding judge_member
judge_member-accepted review_only seen d m {e} {k} h =
    let tools = available_tools m review_only in
    let new : Judged = accepted (record { member = m; decision = some d }) (worker_key m.name) in
    elim (Bool-cases (any (text_eq (worker_key m.name)) seen)) [
      | inl s ↦ absurd (cc (h, s))
      | inr s ↦ elim (Bool-cases (is_empty (validate_spawn_decision_for_execution d tools))) [
        | inr v ↦ absurd (cc (h, s, v))
        | inl v ↦
            let h' : new ≡ accepted e k = rw (s, v) at h in (cc h', cc h', s, is_empty-nil _ v)
      ]
    ]

-- The keys of the entries differ, and none of them was seen before.
abbrev pub AreNew : List Text → List Entry → Type 0
AreNew seen [] = Unit
AreNew seen (e ∷ es) =
    (any (text_eq (worker_key e.member.name)) seen ≡ false)
    × AreNew (worker_key e.member.name ∷ seen) es

abbrev pub IsAuthorized : TeamConfig → Bool → List SpawnDecision → Entry → Type 0
IsAuthorized team review_only ds e =
    (d : SpawnDecision) × (e.decision ≡ some d) × Memᴰ d ds × Authorizes team review_only d e.member

pub mem-keep :
    (p : SpawnDecision → Bool) (ds : List SpawnDecision) {d : SpawnDecision}
    → Memᴰ d (keep p ds)
    → Memᴰ d ds × (p d ≡ true)
mem-keep p [] m = elim m [ ]
mem-keep p (x ∷ xs) {d} m = elim (Bool-cases (p x)) [
  | inr e ↦ let (a, b) = mem-keep p xs (rw e at m) in (tail a, b)
  | inl e ↦
      let m' : Memᴰ d (x ∷ keep p xs) = rw e at m in
      elim m' [ head h ↦ (head h, rw h e) | tail n ↦ let (a, b) = mem-keep p xs n in (tail a, b) ]
]

IsAuthorized-later :
    (team : TeamConfig) (review_only : Bool) (d : SpawnDecision) (ds : List SpawnDecision)
    (es : List Entry)
    → All (IsAuthorized team review_only ds) es
    → All (IsAuthorized team review_only (d ∷ ds)) es
IsAuthorized-later team review_only d ds [] h = tt
IsAuthorized-later team review_only d ds (e ∷ es) ((d', p, m, a), h) =
    ((d', p, tail m, a), IsAuthorized-later team review_only d ds es h)

judge-accepted :
    (team : TeamConfig) (review_only : Bool) (seen : List Text) (d : SpawnDecision) {e : Entry}
    {k : Text}
    → judge team review_only seen d ≡ accepted e k
    → (e.decision ≡ some d)
      × (k ≡ worker_key e.member.name)
      × (any (text_eq (worker_key e.member.name)) seen ≡ false)
      × Authorizes team review_only d e.member
unfolding judge
judge-accepted team review_only seen d {e} {k} h =
    elim (Option-cases (find_member team.members (worker_key (name_of d)))) [
      | inl n ↦ absurd (cc (h, n))
      | inr (m, f) ↦
          let (a, b, c, v) = judge_member-accepted review_only seen d m (rw (f, judge) at h) in
          let (i, t) = find_member-Memᴰ team.members (worker_key (name_of d)) f in
          rw a (refl, b, c, (i, t, v))
    ]

module _ (team : TeamConfig) (review_only : Bool) (seen : List Text) (d : SpawnDecision)
    (ds : List SpawnDecision) where
  authorize-accepted :
      {e : Entry} {k : Text}
      → judge team review_only seen d ≡ accepted e k
      → authorize team review_only seen (d ∷ ds) ≡ (
        e ∷ (authorize team review_only (k ∷ seen) ds).0,
        (authorize team review_only (k ∷ seen) ds).1,
      )
  unfolding authorize
  authorize-accepted j = rw (j, authorize) refl

  authorize-refused :
      {r : RosterError} {k : Option Text}
      → judge team review_only seen d ≡ refused r k
      → (authorize team review_only seen (d ∷ ds)).1
        ≡ r ∷ (authorize team review_only (push_key k seen) ds).1
  unfolding authorize
  authorize-refused j = rw (j, authorize) refl

abbrev Sound : TeamConfig → Bool → List Text → List SpawnDecision → List Entry → Type 0
Sound team review_only seen ds es = AreNew seen es × All (IsAuthorized team review_only ds) es

authorize-nil :
    (team : TeamConfig) (review_only : Bool) (seen : List Text)
    → authorize team review_only seen [] ≡ ([], [])
unfolding authorize
authorize-nil team review_only seen = refl

authorize-Sound :
    (team : TeamConfig) (review_only : Bool) (seen : List Text) (ds : List SpawnDecision)
    → (authorize team review_only seen ds).1 ≡ []
    → Sound team review_only seen ds (authorize team review_only seen ds).0
authorize-Sound team review_only seen [] h = rw (authorize-nil team review_only seen) (tt, tt)
authorize-Sound team review_only seen (d ∷ ds) h =
    elim (Judged-cases (judge team review_only seen d)) [
      | inl (e, k, j) ↦
          let q = authorize-accepted team review_only seen d ds j in
          let (p, same, new, a) = judge-accepted team review_only seen d j in
          let rest = (authorize team review_only (k ∷ seen) ds).0 in
          let (n, all) = authorize-Sound team review_only (k ∷ seen) ds (rw q at h) in
          rw q (
            (new, subst (λ x. AreNew (x ∷ seen) rest) same n),
            ((d, p, head refl, a), IsAuthorized-later team review_only d ds rest all),
          )
      | inr (r, k, j) ↦ absurd (cc (h, authorize-refused team review_only seen d ds j))
    ]

-- In strict mode the workers that start are not none, their keys differ, and each is a member of the
-- team whom a decision of the lead names that asks for a worker and passed the validation for its
-- execution, against the tools that the member has in this step.
pub roster-IsAuthorized :
    (team : TeamConfig) (review_only : Bool) (parsed : List SpawnDecision) {es : List Entry}
    → roster team true review_only parsed ≡ some es
    → (is_empty es ≡ false)
      × AreNew [] es
      × All (IsAuthorized team review_only (keep needs_worker parsed)) es
unfolding roster
roster-IsAuthorized team review_only parsed {es} h =
    let a = authorize team review_only [] (keep needs_worker parsed) in
    elim (Bool-cases (is_empty a.1)) [
      | inr n ↦ absurd (cc (h, n))
      | inl n ↦ elim (Bool-cases (is_empty a.0)) [
        | inl z ↦ absurd (cc (h, n, z))
        | inr z ↦
            let e : a.0 ≡ es = some_inj.0 (rw (n, z) at h) in
            let (new, all) =
              authorize-Sound team review_only [] (keep needs_worker parsed) (is_empty-nil a.1 n) in
            rw (← e) (z, new, all)
      ]
    ]
