-- ===== src/SpawnDecision/Laws.antt =====
-- engine/spawn-decision.ts: what an accepted decision grants.
use multi_agent_engine.Common.{
  ◌≡◌, refl, inl, inr, String, Bool, true, false, not, ◌||◌, some, List, [], ◌∷◌, ◌++◌, any, keep,
  All, Bool-cases, Memᴰ, mem-append_left, str_eq, eq_iff, if◌then◌else◌, arith,
}
use mathlib.Core.List.Memᴰ.{head, tail}
use multi_agent_engine.Pipeline.{Text}
use multi_agent_engine.SpawnDecision.Paths.Covers.{Contains, Contains-covers}
use multi_agent_engine.SpawnDecision.Paths.{text_eq, has_unsafe_path, path_covers}
use multi_agent_engine.SpawnDecision.{
  SpawnDecision, SpawnError, is_empty, check, covered, unsafe, unavailable, validate_spawn_decision,
  unsafe_paths, covered_by, covered_paths, has_tool, missing_tools,
  validate_spawn_decision_for_execution, Domain, unique, apply_spawn_decision_constraints,
}

pub is_empty-nil {ℓ} : {A : Type ℓ} (xs : List A) → is_empty xs ≡ true → xs ≡ []
is_empty-nil [] h = refl
is_empty-nil (x ∷ xs) h = cc h

append_nil : {A : Type 0} (xs ys : List A) → xs ++ ys ≡ [] → (xs ≡ []) × (ys ≡ [])
append_nil [] ys h = (refl, h)
append_nil (x ∷ xs) ys h = absurd (cc h)

check_nil : (b : Bool) (e : SpawnError) → check b e ≡ [] → b ≡ false
check_nil false e h = refl
check_nil true e h = absurd (cc h)

covered_by_nil :
    (f : Text) (as' : List Text) (a : Text)
    → covered_by f as' ≡ []
    → Memᴰ a as'
    → path_covers a f ≡ false
unfolding covered_by
covered_by_nil f [] a h m = elim m [ ]
covered_by_nil f (x ∷ xs) a h (head e) = rw e (
    check_nil (path_covers x f) (covered f)
      (append_nil (check (path_covers x f) (covered f)) (covered_by f xs) h).0)
covered_by_nil f (x ∷ xs) a h (tail m) =
    covered_by_nil f xs a (append_nil (check (path_covers x f) (covered f)) (covered_by f xs) h).1 m

covered_paths_nil :
    (allowed fs : List Text) (a f : Text)
    → covered_paths allowed fs ≡ []
    → Memᴰ a allowed
    → Memᴰ f fs
    → path_covers a f ≡ false
unfolding covered_paths
covered_paths_nil allowed [] a f h m n = elim n [ ]
covered_paths_nil allowed (x ∷ xs) a f h m (head e) = rw e (
    covered_by_nil x allowed a (append_nil (covered_by x allowed) (covered_paths allowed xs) h).0 m)
covered_paths_nil allowed (x ∷ xs) a f h m (tail n) =
    covered_paths_nil allowed xs a f
      (append_nil (covered_by x allowed) (covered_paths allowed xs) h).1 m n

unsafe_paths_nil :
    (ps : List Text) (p : Text) → unsafe_paths ps ≡ [] → Memᴰ p ps → has_unsafe_path p ≡ false
unfolding unsafe_paths
unsafe_paths_nil [] p h m = elim m [ ]
unsafe_paths_nil (x ∷ xs) p h (head e) = rw e (
    check_nil (has_unsafe_path x) (unsafe x)
      (append_nil (check (has_unsafe_path x) (unsafe x)) (unsafe_paths xs) h).0)
unsafe_paths_nil (x ∷ xs) p h (tail m) =
    unsafe_paths_nil xs p (append_nil (check (has_unsafe_path x) (unsafe x)) (unsafe_paths xs) h).1
      m

missing_tools_nil :
    (available ts : List String) (t : String)
    → missing_tools available ts ≡ []
    → has_tool ts t ≡ true
    → has_tool available t ≡ true
unfolding missing_tools
missing_tools_nil available [] t h m = absurd (cc m)
missing_tools_nil available (x ∷ xs) t h m =
    let (here, rest) =
      append_nil (check (str_eq x "*" || not (has_tool available x)) (unavailable x))
        (missing_tools available xs) h in
    let c = check_nil (str_eq x "*" || not (has_tool available x)) (unavailable x) here in
    elim (Bool-cases (str_eq t x)) [
      | inl e ↦ let same_tool : t ≡ x = (eq_iff t x).0 e in rw same_tool (ground (arith, c))
      | inr e ↦ missing_tools_nil available xs t rest (rw e at m)
    ]

unique-Memᴰ : (seen ps : List Text) (p : Text) → Memᴰ p (unique seen ps) → Memᴰ p ps
unfolding unique
unique-Memᴰ seen [] p m = elim m [ ]
unique-Memᴰ seen (x ∷ xs) p m = elim (Bool-cases (any (text_eq x) seen)) [
  | inl e ↦ tail (unique-Memᴰ (x ∷ seen) xs p (rw e at m))
  | inr e ↦
      let m' : Memᴰ p (x ∷ unique (x ∷ seen) xs) = rw e at m in
      elim m' [ head h ↦ head h | tail n ↦ tail (unique-Memᴰ (x ∷ seen) xs p n) ]
]

has_tool-keep :
    (allowed tools : List String) (t : String)
    → has_tool (keep (has_tool allowed) tools) t ≡ true
    → (has_tool tools t ≡ true) × (has_tool allowed t ≡ true)
has_tool-keep allowed [] t h = absurd (cc h)
has_tool-keep allowed (x ∷ xs) t h =
    let ih = has_tool-keep allowed xs t in
    elim (Bool-cases (has_tool allowed x)) [
      | inr e ↦ let (a, b) = ih (rw e at h) in (ground (arith, a), b)
      | inl e ↦ elim (Bool-cases (str_eq t x)) [
        | inl s ↦ let same_tool : t ≡ x = (eq_iff t x).0 s in (ground (arith, s), rw same_tool e)
        | inr s ↦
            let h' : (str_eq t x || has_tool (keep (has_tool allowed) xs) t) ≡ true = rw e at h in
            let (a, b) = ih (rw s at h') in (ground (arith, a), b)
      ]
    ]

-- A path that the worker gets: it is one of the decision's, it is not unsafe, and it is not a
-- forbidden path and no directory above one, written with slashes at its end, as a glob or plainly.
abbrev pub IsGranted : SpawnDecision → Text → Type 0
IsGranted d p =
    Memᴰ p d.allowed_paths
    × (has_unsafe_path p ≡ false)
    × ((f : Text) → Memᴰ f d.forbidden_paths → ¬ Contains p f)

abbrev pub IsGrantedTool : SpawnDecision → List String → List String → String → Type 0
IsGrantedTool d available tools t =
    (has_tool tools t ≡ true) × (has_tool d.allowed_tools t ≡ true) × (has_tool available t ≡ true)

abbrev paths_errors : SpawnDecision → List String → List SpawnError
paths_errors d available =
    unsafe_paths (d.allowed_paths ++ d.forbidden_paths)
    ++ (covered_paths d.allowed_paths d.forbidden_paths ++ missing_tools available d.allowed_tools)

no_errors :
    (d : SpawnDecision) (available : List String)
    → d.need_worker ≡ true
    → validate_spawn_decision_for_execution d available ≡ []
    → (unsafe_paths (d.allowed_paths ++ d.forbidden_paths) ≡ [])
      × (covered_paths d.allowed_paths d.forbidden_paths ≡ [])
      × (missing_tools available d.allowed_tools ≡ [])
unfolding validate_spawn_decision_for_execution
no_errors d available n h =
    let whole : (if d.need_worker then paths_errors d available else []) ≡ [] =
      (append_nil (validate_spawn_decision d)
        (if d.need_worker then paths_errors d available else []) h).1 in
    let all_three : paths_errors d available ≡ [] = simp n at whole in
    let (u, rest) = append_nil (unsafe_paths (d.allowed_paths ++ d.forbidden_paths)) _ all_three in
    let (c, m) = append_nil (covered_paths d.allowed_paths d.forbidden_paths) _ rest in (u, c, m)

granted :
    (d : SpawnDecision) (available : List String) (p : Text)
    → d.need_worker ≡ true
    → validate_spawn_decision_for_execution d available ≡ []
    → Memᴰ p (unique [] d.allowed_paths)
    → IsGranted d p
granted d available p n h m =
    let (u, c, t) = no_errors d available n h in
    let a = unique-Memᴰ [] d.allowed_paths p m in
    (
      a,
      unsafe_paths_nil (d.allowed_paths ++ d.forbidden_paths) p u
          (mem-append_left d.allowed_paths d.forbidden_paths a),
      λ f i k.
          cc (Contains-covers p f k, covered_paths_nil d.allowed_paths d.forbidden_paths p f c a i),
    )

-- What a worker gets by a decision that passes the validation for its execution: only tools that it
-- has anyway, that the decision allows and that are available to workers; only paths of the decision
-- to read, to write and to update, none of them unsafe or, read as texts, a forbidden path or above a
-- forbidden one: the same but for slashes at the end, a directory over it, the glob `/**` of it or of
-- such a directory, or the glob `/*` of the directory that it stands in; none to write or update in a
-- review; and none to delete.
pub apply_spawn_decision_constraints-IsGranted :
    (d : SpawnDecision) (available tools : List String) (domain : Domain) (review_only : Bool)
    → d.need_worker ≡ true
    → validate_spawn_decision_for_execution d available ≡ []
    → let g = apply_spawn_decision_constraints tools domain d review_only in
      ((t : String) → has_tool g.0 t ≡ true → IsGrantedTool d available tools t)
      × ((p : Text) → Memᴰ p g.1.read → IsGranted d p)
      × ((p : Text) → Memᴰ p g.1.write → IsGranted d p × (review_only ≡ false))
      × ((p : Text) → Memᴰ p g.1.update → IsGranted d p × (review_only ≡ false))
      × (g.1.delete ≡ some [])
unfolding apply_spawn_decision_constraints
apply_spawn_decision_constraints-IsGranted d available tools domain true n h = (
  (λ t k.
      let (a, b) = has_tool-keep d.allowed_tools tools t k in
      (a, b, missing_tools_nil available d.allowed_tools t (no_errors d available n h).2 b)),
  (λ p m. granted d available p n h m),
  (λ p m. elim m [ ]),
  (λ p m. elim m [ ]),
  refl,
)
apply_spawn_decision_constraints-IsGranted d available tools domain false n h = (
  (λ t k.
      let (a, b) = has_tool-keep d.allowed_tools tools t k in
      (a, b, missing_tools_nil available d.allowed_tools t (no_errors d available n h).2 b)),
  (λ p m. granted d available p n h m),
  (λ p m. (granted d available p n h m, refl)),
  (λ p m. (granted d available p n h m, refl)),
  refl,
)

pub keep-nil {ℓ} :
    {A : Type ℓ} (p : A → Bool) (xs : List A)
    → is_empty (keep p xs) ≡ true
    → All (λ x. p x ≡ false) xs
keep-nil p [] h = tt
keep-nil p (x ∷ xs) h = elim (Bool-cases (p x)) [
  | inl e ↦ absurd (cc (h, e))
  | inr e ↦ (e, keep-nil p xs (rw e at h))
]
