-- ===== src/Ralph/Rounds.antt =====
-- engine/ralph-loop.ts: which files a verification and the loop over the mutations change.
use multi_agent_engine.Common.{
  ℕ, zero, suc, ◌≤◌, ◌≡◌, refl, ◌∙◌, ap, ◌⊎◌, inl, inr, String, true, false, Option, none, some,
  List, [], ◌∷◌, ltb, Bool-cases, Option-cases, length, get_elem?, set, if◌then◌else◌, arith, subst,
  set-same, some_inj,
}
use multi_agent_engine.Ralph.{
  RatchetConfig, select_goldens, MutationStatus, suggested, accepted, rejected, invalid, no_change,
  needs_verification, dry_run, Outcome, returns, raises, Trial, ratchet, ratchet_file, find_file,
  verify_mutation, LoopConfig, after_outcome, ralph_rounds, run_ralph_loop,
}
use multi_agent_engine.Ralph.Laws.{Honest, ratchet-Honest, AllProve}

-- What a returned status says of all files.
abbrev pub Safe : RatchetConfig → Trial → List String → Outcome → List String → Type 0
Safe c t store raises store' = Unit
Safe c t store (returns accepted) store' =
    (c.dry_run ≡ false)
    × (t.is_persona ≡ true)
    × (t.is_investigation ≡ false)
    × (c.min_coverage ≤ length (select_goldens c.min_coverage t.loaded))
    × AllProve c t.replay 0 (select_goldens c.min_coverage t.loaded)
    × ((i : ℕ) × (before : String) × (t.file ≡ some i)
        × (get_elem? store i ≡ some before)
        × (store' ≡ set store i (t.mutate before)))
Safe c t store (returns _) store' = store' ≡ store

-- What remains to be said once the file has been found.
abbrev Found : RatchetConfig → Trial → ℕ → List String → Outcome → List String → Type 0
Found c t i store raises store' = Unit
Found c t i store (returns accepted) store' =
    (c.dry_run ≡ false)
    × AllProve c t.replay 0 (select_goldens c.min_coverage t.loaded)
    × ((before : String) × (get_elem? store i ≡ some before)
        × (store' ≡ set store i (t.mutate before)))
Found c t i store (returns _) store' = store' ≡ store

Honest-Found :
    (c : RatchetConfig) (t : Trial) (i : ℕ) (store : List String) (before : String) (o : Outcome)
    (content : String)
    → get_elem? store i ≡ some before
    → Honest c t before o content
    → Found c t i store o (set store i content)
Honest-Found c t i store before raises content e h = tt
Honest-Found c t i store before (returns accepted) content e (f, d, v, n, p) =
    (d, p, (before, e, ap (set store i) f))
Honest-Found c t i store before (returns suggested) content e h = rw h (set-same store i e)
Honest-Found c t i store before (returns rejected) content e h = rw h (set-same store i e)
Honest-Found c t i store before (returns invalid) content e h = rw h (set-same store i e)
Honest-Found c t i store before (returns no_change) content e h = rw h (set-same store i e)
Honest-Found c t i store before (returns needs_verification) content e h = rw h (set-same store i e)
Honest-Found c t i store before (returns dry_run) content e h = rw h (set-same store i e)

ratchet_file-Found :
    (c : RatchetConfig) (t : Trial) (i : ℕ) (store : List String) (o : Option String)
    → get_elem? store i ≡ o
    → let r = ratchet_file c t i o store in Found c t i store r.0 r.1
unfolding ratchet_file
ratchet_file-Found c t i store none e = refl
ratchet_file-Found c t i store (some before) e =
    let r = ratchet c t before in
    Honest-Found c t i store before r.0 r.1 e (ratchet-Honest c t before)

module _ (c : RatchetConfig) (t : Trial) (i : ℕ) (store : List String) where
  Found-Safe :
      (o : Outcome) (store' : List String)
      → t.file ≡ some i
      → t.is_persona ≡ true
      → t.is_investigation ≡ false
      → c.min_coverage ≤ length (select_goldens c.min_coverage t.loaded)
      → Found c t i store o store'
      → Safe c t store o store'
  Found-Safe raises store' f p n l h = tt
  Found-Safe (returns accepted) store' f p n l (d, a, (before, e, s)) =
      (d, p, n, l, a, (i, before, f, e, s))
  Found-Safe (returns suggested) store' f p n l h = h
  Found-Safe (returns rejected) store' f p n l h = h
  Found-Safe (returns invalid) store' f p n l h = h
  Found-Safe (returns no_change) store' f p n l h = h
  Found-Safe (returns needs_verification) store' f p n l h = h
  Found-Safe (returns dry_run) store' f p n l h = h

find_file-Safe :
    (c : RatchetConfig) (t : Trial) (f : Option ℕ) (store : List String)
    → t.file ≡ f
    → t.is_persona ≡ true
    → t.is_investigation ≡ false
    → let r = find_file c t f store in Safe c t store r.0 r.1
unfolding find_file
find_file-Safe c t none store e p n = refl
find_file-Safe c t (some i) store e p n =
    let gs = select_goldens c.min_coverage t.loaded in
    elim (Bool-cases (ltb (length gs) c.min_coverage)) [
      | inl few ↦ rw few refl
      | inr enough ↦
          let r = ratchet_file c t i (get_elem? store i) store in
          rw enough (
            Found-Safe c t i store r.0 r.1 e p n (ground (arith, enough))
              (ratchet_file-Found c t i store (get_elem? store i) refl))
    ]

-- A verification that returns `accepted` was of a concrete mutation of a persona's file that exists,
-- in no dry run, with at least the required number of golden traces selected and all of them
-- replayed without objection, and it has changed that file to the mutated text and no other file.
-- One that returns any other status leaves all files as they were.
pub verify_mutation-Safe :
    (c : RatchetConfig) (t : Trial) (store : List String)
    → let r = verify_mutation c t store in Safe c t store r.0 r.1
unfolding verify_mutation
verify_mutation-Safe c t store = elim (Bool-cases t.is_persona) [
  | inr p ↦ simp p refl
  | inl p ↦ elim (Bool-cases t.is_investigation) [
    | inl n ↦ simp (p, n) refl
    | inr n ↦ simp (p, n) (find_file-Safe c t t.file store refl p n)
  ]
]

-- The loop writes nothing for good: it only suggests, or it is a dry run.
abbrev pub IsHarmless : LoopConfig → Type 0
IsHarmless c = (c.apply ≡ false) ⊎ (c.ratchet.dry_run ≡ true)

Safe-dry :
    (c : RatchetConfig) (t : Trial) (store : List String) (o : Outcome) (store' : List String)
    → c.dry_run ≡ true
    → Safe c t store o store'
    → (o ≡ raises) ⊎ (store' ≡ store)
Safe-dry c t store raises store' d h = inl refl
Safe-dry c t store (returns accepted) store' d h = absurd (cc (d, h.0))
Safe-dry c t store (returns suggested) store' d h = inr h
Safe-dry c t store (returns rejected) store' d h = inr h
Safe-dry c t store (returns invalid) store' d h = inr h
Safe-dry c t store (returns no_change) store' d h = inr h
Safe-dry c t store (returns needs_verification) store' d h = inr h
Safe-dry c t store (returns dry_run) store' d h = inr h

-- One iteration.
iteration : LoopConfig → Trial → List String → Outcome × List String
iteration c t store =
    if c.apply then verify_mutation c.ratchet t store else (returns suggested, store)

iteration-harmless :
    (c : LoopConfig) (t : Trial) (store : List String)
    → IsHarmless c
    → let r = iteration c t store in (r.0 ≡ raises) ⊎ (r.1 ≡ store)
unfolding iteration
iteration-harmless c t store (inl e) = rw e (inr refl)
iteration-harmless c t store (inr d) = elim (Bool-cases c.apply) [
  | inr e ↦ simp e (inr refl)
  | inl e ↦
      let r = verify_mutation c.ratchet t store in
      simp e (Safe-dry c.ratchet t store r.0 r.1 d (verify_mutation-Safe c.ratchet t store))
]

abbrev Results : Type 0
Results = Option (List MutationStatus) × List String

-- The results are those of at most `n` iterations, and the files are as before.
abbrev Untouched : ℕ → List String → Results → Type 0
Untouched n store r = (ss : List MutationStatus) → r.0 ≡ some ss → (r.1 ≡ store) × (length ss ≤ n)

after_outcome-Untouched :
    (n : ℕ) (store : List String) (o : Outcome) (store' : List String)
    (rest : List String → Results)
    → (o ≡ raises) ⊎ (store' ≡ store)
    → Untouched n store' (rest store')
    → Untouched (suc n) store (after_outcome o store' rest)
after_outcome-Untouched n store raises store' rest h u ss e = absurd (cc e)
after_outcome-Untouched n store (returns s) store' rest (inl x) u ss e = absurd (cc x)
after_outcome-Untouched n store (returns s) store' rest (inr x) u ss e =
    elim (Option-cases (rest store').0) [
      | inl f ↦ absurd (ground (arith, e, f))
      | inr (ss', f) ↦
          let (same, few) = u ss' f in
          let whole : s ∷ ss' ≡ ss = some_inj.0 (rw f at e) in
          (
            same ∙ x,
            subst (λ (l : List MutationStatus). length l ≤ suc n) whole (omega (arith, few)),
          )
    ]

ralph_rounds-Untouched :
    (c : LoopConfig) (n : ℕ) (ts : List Trial) (store : List String)
    → IsHarmless c
    → Untouched n store (ralph_rounds c n ts store)
unfolding ralph_rounds iteration
ralph_rounds-Untouched c zero ts store h ss e = (refl, omega (arith, ap length (some_inj.0 e)))
ralph_rounds-Untouched c (suc n) [] store h ss e = (refl, omega (arith, ap length (some_inj.0 e)))
ralph_rounds-Untouched c (suc n) (t ∷ ts) store h ss e =
    let r = iteration c t store in
    after_outcome-Untouched n store r.0 r.1 (ralph_rounds c n ts) (iteration-harmless c t store h)
      (ralph_rounds-Untouched c n ts r.1 h) ss e

-- A loop that only suggests, and a loop in a dry run, leave every file as it was and give at most
-- `maxIterations` results, unless a verification throws.
pub run_ralph_loop-harmless :
    (c : LoopConfig) (ts : List Trial) (store : List String) (ss : List MutationStatus)
    → IsHarmless c
    → (run_ralph_loop c ts store).0 ≡ some ss
    → ((run_ralph_loop c ts store).1 ≡ store) × (length ss ≤ c.max_iterations)
unfolding run_ralph_loop
run_ralph_loop-harmless c ts store ss h e =
    ralph_rounds-Untouched c c.max_iterations ts store h ss e
