-- ===== src/Sandbox/Laws.antt =====
-- engine/sandbox-pool.ts: what any sequence of assignments and releases keeps, and how the two undo
-- each other.
use multi_agent_engine.Common.{
  ℕ, zero, suc, ◌+◌, ◌<◌, ◌≡◌, ◌≢◌, refl, ◌∙◌, ap, ◌⊎◌, inl, inr, Bool, true, false, String, Option,
  none, some, List, [], ◌∷◌, Bool-cases, length, keep, All, str_eq, eq_iff, arith, sym,
}
use multi_agent_engine.Sandbox.{
  Sandbox, SandboxPool, sandboxes_from, new_pool, is_free, is_assigned, change_first, assign,
  release, find_assigned, get_assigned, is_available, is_active, status, Op, assigns, releases, run,
}

-- A sandbox is active exactly while it has an agent, whose id is not empty.
abbrev pub Matches : Option String → Bool → Type 0
Matches none active = active ≡ false
Matches (some agent) active = (agent ≢ "") × (active ≡ true)

abbrev pub IsConsistent : Sandbox → Type 0
IsConsistent s = Matches s.assigned_to s.active

abbrev pub ids : List Sandbox → List ℕ
ids [] = []
ids (s ∷ ss) = s.id ∷ ids ss

abbrev pub count_from : ℕ → ℕ → List ℕ
count_from i zero = []
count_from i (suc n) = suc i ∷ count_from (suc i) n

abbrev pub HasAgent : Op → Type 0
HasAgent (assigns agent) = agent ≢ ""
HasAgent (releases agent) = agent ≢ ""

assigned_is_busy : (agent : String) → agent ≢ "" → is_free (some agent) ≡ false
assigned_is_busy agent h = grind (arith, eq_iff agent "")

module _ (p : Option String → Bool) (f : Sandbox → Sandbox) where
  change_first-All :
      (ss : List Sandbox)
      → ((s : Sandbox) → IsConsistent (f s))
      → All IsConsistent ss
      → All IsConsistent (change_first p f ss).1
  unfolding change_first
  change_first-All [] h a = tt
  change_first-All (s ∷ ss) h a = elim (Bool-cases (p s.assigned_to)) [
    | inl e ↦ rw e (h s, a.1)
    | inr e ↦ rw e (a.0, change_first-All ss h a.1)
  ]

  ids-change_first :
      (ss : List Sandbox) → ((s : Sandbox) → (f s).id ≡ s.id) → ids (change_first p f ss).1 ≡ ids ss
  unfolding change_first
  ids-change_first [] h = refl
  ids-change_first (s ∷ ss) h = elim (Bool-cases (p s.assigned_to)) [
    | inl e ↦ rw e (ap (λ (i : ℕ). i ∷ ids ss) (h s))
    | inr e ↦ rw e (ap (λ (r : List ℕ). s.id ∷ r) (ids-change_first ss h))
  ]

-- The sandboxes of a pool of `size`: consistent, and with the ids 1 to `size`.
pub record Inv (size : ℕ) (p : SandboxPool) : Type 0 where
  pub consistent : All IsConsistent p.sandboxes
  pub numbered : ids p.sandboxes ≡ count_from 0 size

new-All : (subnet : String) (offset i n : ℕ) → All IsConsistent (sandboxes_from subnet offset i n)
unfolding sandboxes_from
new-All subnet offset i zero = tt
new-All subnet offset i (suc n) = (refl, new-All subnet offset (suc i) n)

ids-new :
    (subnet : String) (offset i n : ℕ) → ids (sandboxes_from subnet offset i n) ≡ count_from i n
unfolding sandboxes_from
ids-new subnet offset i zero = refl
ids-new subnet offset i (suc n) = ap (λ (r : List ℕ). suc i ∷ r) (ids-new subnet offset (suc i) n)

run-Inv :
    (size : ℕ) (p : SandboxPool) (os : List Op) → All HasAgent os → Inv size p → Inv size (run p os)
unfolding run assign release
run-Inv size p [] h v = v
run-Inv size p (assigns agent ∷ os) h v = run-Inv size (assign agent p).1 os h.1 (record {
  consistent = change_first-All is_free _ p.sandboxes (λ s. (h.0, refl)) v.consistent;
  numbered = ids-change_first is_free _ p.sandboxes (λ s. refl) ∙ v.numbered;
})
run-Inv size p (releases agent ∷ os) h v = run-Inv size (release agent p) os h.1 (record {
  consistent = change_first-All (is_assigned agent) _ p.sandboxes (λ s. refl) v.consistent;
  numbered = ids-change_first (is_assigned agent) _ p.sandboxes (λ s. refl) ∙ v.numbered;
})

length-count_from : (i n : ℕ) → length (count_from i n) ≡ n
length-count_from i zero = refl
length-count_from i (suc n) = ap suc (length-count_from (suc i) n)

length-ids : (ss : List Sandbox) → length (ids ss) ≡ length ss
length-ids [] = refl
length-ids (s ∷ ss) = ap suc (length-ids ss)

-- What the two tests say of a consistent sandbox.
Matches-cases :
    (o : Option String) (active : Bool)
    → Matches o active
    → ((is_free o ≡ true) × (o ≡ none) × (active ≡ false)) ⊎ ((is_free o ≡ false) × (active ≡ true))
Matches-cases none active h = inl (refl, refl, h)
Matches-cases (some agent) active h = inr (assigned_is_busy agent h.0, h.1)

split_status :
    (ss : List Sandbox)
    → All IsConsistent ss
    → length (keep is_available ss) + length (keep is_active ss) ≡ length ss
split_status [] a = omega arith
split_status (s ∷ ss) a = elim (Matches-cases s.assigned_to s.active a.0) [
  | inl (e, _, f) ↦ simp (e, f) (omega (arith, split_status ss a.1))
  | inr (e, f) ↦ simp (e, f) (omega (arith, split_status ss a.1))
]

-- After any assignments and releases on a new pool, for agents whose id is not empty: the sandboxes
-- are still those numbered 1 to the size, one is active exactly while it has an agent, and the
-- status counts each of them either as available or as active.
pub run-new_pool :
    (token : Bool) (subnet : String) (offset size : ℕ) (os : List Op)
    → All HasAgent os
    → let p = run (new_pool token subnet offset (some size)) os in
      Inv size p
      × ((status p).total ≡ size)
      × ((status p).available + (status p).active ≡ (status p).total)
unfolding new_pool status
run-new_pool token subnet offset size os h =
    let v = run-Inv size (new_pool token subnet offset (some size)) os h (record {
      consistent = new-All subnet offset 0 size;
      numbered = ids-new subnet offset 0 size;
    }) in
    let p = run (new_pool token subnet offset (some size)) os in
    (
      v,
      sym (length-ids p.sandboxes) ∙ ap length v.numbered ∙ length-count_from 0 size,
      split_status p.sandboxes v.consistent,
    )

same_agent : (agent : String) → str_eq agent agent ≡ true
same_agent agent = grind (arith, eq_iff agent agent)

busy : String → Sandbox → Sandbox
busy agent s = record s { assigned_to = some agent; active = true }

idle : Sandbox → Sandbox
idle s = record s { assigned_to = none; active = false }

idle-busy :
    (agent : String) (s : Sandbox)
    → s.assigned_to ≡ none
    → s.active ≡ false
    → idle (busy agent s) ≡ s
unfolding idle busy
idle-busy agent s e f = λ i. record s { assigned_to = sym e i; active = sym f i }

find_assigned-cons :
    (agent : String) (s : Sandbox) (ss : List Sandbox)
    → find_assigned agent (s ∷ ss) ≡ none
    → (is_assigned agent s.assigned_to ≡ false) × (find_assigned agent ss ≡ none)
unfolding find_assigned
find_assigned-cons agent s ss h = elim (Bool-cases (is_assigned agent s.assigned_to)) [
  | inl e ↦ ground (arith, e, h)
  | inr e ↦ (e, rw e at h)
]

-- Every sandbox is taken, or the agent gets one, and giving it back restores the list.
data Granted (agent : String) (ss : List Sandbox) : Type 0 where
  all_taken :
      change_first is_free (busy agent) ss ≡ (none, ss)
      → length (keep is_available ss) ≡ 0
      → Granted agent ss
  one_taken :
      (s : Sandbox)
      → (change_first is_free (busy agent) ss).0 ≡ some s
      → find_assigned agent (change_first is_free (busy agent) ss).1 ≡ some s
      → (change_first (is_assigned agent) idle (change_first is_free (busy agent) ss).1).1 ≡ ss
      → 0 < length (keep is_available ss)
      → Granted agent ss

grant :
    (agent : String) (ss : List Sandbox)
    → find_assigned agent ss ≡ none
    → All IsConsistent ss
    → Granted agent ss
unfolding change_first find_assigned busy
grant agent [] h a = all_taken refl (omega arith)
grant agent (s ∷ ss) h a = elim (Matches-cases s.assigned_to s.active a.0) [
  | inl (e, o, f) ↦
      one_taken (busy agent s) (rw e) (rw (e, same_agent agent))
        (rw (e, same_agent agent) (ap (λ (x : Sandbox). x ∷ ss) (idle-busy agent s o f)))
        (simp e (omega arith))
  | inr (e, f) ↦
      let (n, h') = find_assigned-cons agent s ss h in
      elim (grant agent ss h' a.1) [
        | all_taken c z ↦ all_taken (rw (e, c)) (simp e (z))
        | one_taken t c g r l ↦
            one_taken t (rw (e, c)) (rw (e, n, g)) (rw (e, n) (ap (λ (x : List Sandbox). s ∷ x) r))
              (simp e (l))
      ]
]

-- An agent that has no sandbox is refused one exactly when the status says that none is available,
-- and then the sandboxes stay as they are. Otherwise it gets a sandbox, which is the one that
-- getAssigned then finds for it, and its release restores all sandboxes. This holds after any
-- assignments and releases on a new pool, for agents whose id is not empty.
pub assign-release :
    (token : Bool) (subnet : String) (offset size : ℕ) (os : List Op) (agent : String)
    → All HasAgent os
    → agent ≢ ""
    → let p = run (new_pool token subnet offset (some size)) os in
      get_assigned agent p ≡ none
      → (((assign agent p).0 ≡ none)
          × ((status p).available ≡ 0)
          × ((assign agent p).1.sandboxes ≡ p.sandboxes))
        ⊎ ((s : Sandbox) × ((assign agent p).0 ≡ some s)
            × (0 < (status p).available)
            × (get_assigned agent (assign agent p).1 ≡ some s)
            × ((release agent (assign agent p).1).sandboxes ≡ p.sandboxes))
unfolding assign release get_assigned status busy idle
assign-release token subnet offset size os agent ho ha h =
    let p = run (new_pool token subnet offset (some size)) os in
    let v = run-new_pool token subnet offset size os ho in
    elim (grant agent p.sandboxes h v.0.consistent) [
      | all_taken c z ↦ inl (ap (λ r. r.0) c, z, ap (λ r. r.1) c)
      | one_taken s c g r l ↦ inr (s, c, l, g, r)
    ]
