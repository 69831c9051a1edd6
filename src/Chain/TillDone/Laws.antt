-- ===== src/Chain/TillDone/Laws.antt =====
-- engine/chain-runner.ts: markTillDone against an index-free description, and the progress that
-- it records on the items of buildTillDone.
use multi_agent_engine.Common.{
  ℕ, zero, suc, ◌+◌, ◌≤◌, ◌<◌, ◌≡◌, refl, sym, ap, ◌∙◌, inl, inr, true, false, some, List, [], ◌∷◌,
  min, ltb, length, length-set, get_elem?, set, arith, subst, ltb→lt, Bool-cases, Option-cases,
}
use multi_agent_engine.Chain.TillDone.{
  TillDoneItem, ChainStep, item_count, mark, mark_at, mark_step, mark_steps, activate_at,
  mark_till_done,
}

-- The first items done, the next one active, the rest as they were.
abbrev pub mark_first : ℕ → List TillDoneItem → List TillDoneItem
mark_first zero [] = []
mark_first zero (x ∷ xs) = record x { active = true } ∷ xs
mark_first (suc n) [] = []
mark_first (suc n) (x ∷ xs) = record x { completed = true; active = false } ∷ mark_first n xs

-- The items that the steps up to an index own.
abbrev pub count_upto : ℕ → List ChainStep → ℕ
count_upto k [] = 0
count_upto zero (s ∷ ss) = item_count s
count_upto (suc k) (s ∷ ss) = item_count s + count_upto k ss

abbrev mark_range : ℕ → ℕ → List TillDoneItem → List TillDoneItem
mark_range zero zero xs = xs
mark_range zero (suc n) [] = []
mark_range zero (suc n) (x ∷ xs) = mark x ∷ mark_range zero n xs
mark_range (suc i) n [] = []
mark_range (suc i) n (x ∷ xs) = x ∷ mark_range i n xs

mark_range-zero : (i : ℕ) (xs : List TillDoneItem) → mark_range i 0 xs ≡ xs
mark_range-zero zero xs = refl
mark_range-zero (suc i) [] = refl
mark_range-zero (suc i) (x ∷ xs) = ap (◌∷◌ x) (mark_range-zero i xs)

mark_range-end : (n : ℕ) (xs : List TillDoneItem) → mark_range (length xs) n xs ≡ xs
mark_range-end zero [] = refl
mark_range-end (suc n) [] = refl
mark_range-end n (x ∷ xs) = ap (◌∷◌ x) (mark_range-end n xs)

get_elem?-some :
    (xs : List TillDoneItem) (i : ℕ)
    → i < length xs
    → (x : TillDoneItem) × (get_elem? xs i ≡ some x)
get_elem?-some [] i h = elim h [ ]
get_elem?-some (x ∷ xs) zero h = (x, refl)
get_elem?-some (x ∷ xs) (suc i) h = get_elem?-some xs i (omega arith)

mark_range-nil : (i n : ℕ) → mark_range i n [] ≡ []
mark_range-nil zero zero = refl
mark_range-nil zero (suc n) = refl
mark_range-nil (suc i) n = refl

mark_range-next :
    (i n : ℕ) (xs : List TillDoneItem)
    → i < length xs
    → mark_range (suc i) n (mark_at (get_elem? xs i) i xs) ≡ mark_range i (suc n) xs
mark_range-next i n [] h = elim h [ ]
mark_range-next zero n (x ∷ xs) h = refl
mark_range-next (suc i) n (x ∷ xs) h =
    let (y, e) = get_elem?-some xs i (omega arith) in
    let ih : mark_range (suc i) n (set xs i (mark y)) ≡ mark_range i (suc n) xs =
      subst (λ o. mark_range (suc i) n (mark_at o i xs) ≡ mark_range i (suc n) xs) e
        (mark_range-next i n xs (omega arith)) in
    rw e (ap (◌∷◌ x) ih)

mark_range-join :
    (n k : ℕ) (xs : List TillDoneItem)
    → mark_range (min n (length xs)) k (mark_range 0 n xs) ≡ mark_range 0 (n + k) xs
mark_range-join zero k xs =
    let at_start : min 0 (length xs) ≡ 0 = omega arith in
    let none_more : 0 + k ≡ k = omega arith in rw (at_start, none_more)
mark_range-join (suc n) k [] = mark_range-nil _ k ∙ sym (mark_range-nil 0 (suc n + k))
mark_range-join (suc n) k (x ∷ xs) =
    let past : min (suc n) (length (x ∷ xs)) ≡ suc (min n (length xs)) = omega arith in
    let more : suc n + k ≡ suc (n + k) = omega arith in
    rw (past, more) (ap (◌∷◌ (mark x)) (mark_range-join n k xs))

length-mark_range : (i n : ℕ) (xs : List TillDoneItem) → length (mark_range i n xs) ≡ length xs
length-mark_range zero zero xs = refl
length-mark_range zero (suc n) [] = refl
length-mark_range zero (suc n) (x ∷ xs) = ap suc (length-mark_range zero n xs)
length-mark_range (suc i) n [] = refl
length-mark_range (suc i) n (x ∷ xs) = ap suc (length-mark_range i n xs)

length-mark_at :
    (i : ℕ) (xs : List TillDoneItem) → length (mark_at (get_elem? xs i) i xs) ≡ length xs
length-mark_at i xs = elim (Option-cases (get_elem? xs i)) [
  | inl e ↦ rw e
  | inr (x, e) ↦ rw e (length-set xs i (mark x))
]

unmarked :
    (i n k : ℕ) (xs : List TillDoneItem) → i ≡ length xs → mark_range i n xs ≡ mark_range i k xs
unmarked i n k xs e = rw e (mark_range-end n xs ∙ sym (mark_range-end k xs))

mark_step_lem :
    (n i : ℕ) (xs : List TillDoneItem)
    → i ≤ length xs
    → mark_step n i xs ≡ (min (i + n) (length xs), mark_range i n xs)
unfolding mark_step
mark_step_lem zero i xs h =
    let here : min (i + 0) (length xs) ≡ i = omega arith in rw (here, mark_range-zero i xs)
mark_step_lem (suc n) i xs h = elim (Bool-cases (ltb i (length xs))) [
  | inl more ↦
      let b : i < length xs = ltb→lt _ _ more in
      let same = length-mark_at i xs in
      let ih = mark_step_lem n (suc i) (mark_at (get_elem? xs i) i xs) (omega (arith, same)) in
      let top : min (suc i + n) (length (mark_at (get_elem? xs i) i xs))
          ≡ min (i + suc n) (length xs) =
        omega (arith, same) in
      simp more (ih ∙ rw (top, mark_range-next i n xs b))
  | inr full ↦
      let at_end : i ≡ length xs = ground arith in
      let ih = mark_step_lem n i xs h in
      let top : min (i + n) (length xs) ≡ min (i + suc n) (length xs) = omega arith in
      simp full (
        ih ∙ rw (top) (ap (λ r. (min (i + suc n) (length xs), r)) (unmarked i n (suc n) xs at_end)))
]

advance :
    (n c : ℕ) (xs : List TillDoneItem)
    → mark_step c (min n (length xs)) (mark_range 0 n xs)
      ≡ (min (n + c) (length xs), mark_range 0 (n + c) xs)
advance n c xs =
    let same = length-mark_range 0 n xs in
    let top : min (min n (length xs) + c) (length (mark_range 0 n xs)) ≡ min (n + c) (length xs) =
      omega (arith, same) in
    mark_step_lem c (min n (length xs)) (mark_range 0 n xs) (omega (arith, same))
    ∙ rw (top, mark_range-join n c xs)

mark_steps_lem :
    (left n : ℕ) (steps : List ChainStep) (xs : List TillDoneItem)
    → mark_steps left steps (min n (length xs)) (mark_range 0 n xs)
      ≡ (min (n + count_upto left steps) (length xs), mark_range 0 (n + count_upto left steps) xs)
unfolding mark_steps
mark_steps_lem left n [] xs = let none_more : n + 0 ≡ n = omega arith in rw none_more
mark_steps_lem zero n (s ∷ ss) xs = advance n (item_count s) xs
mark_steps_lem (suc left) n (s ∷ ss) xs =
    let total : n + item_count s + count_upto left ss ≡ n + (item_count s + count_upto left ss) =
      omega arith in
    rw (advance n (item_count s) xs) (mark_steps_lem left (n + item_count s) ss xs ∙ rw total)

activate_cons :
    (x : TillDoneItem) (i : ℕ) (xs : List TillDoneItem)
    → activate_at (get_elem? xs i) (suc i) (x ∷ xs) ≡ x ∷ activate_at (get_elem? xs i) i xs
activate_cons x i xs = elim (Option-cases (get_elem? xs i)) [ inl e ↦ rw e | inr (y, e) ↦ rw e ]

-- The items that the marked ones leave, the first of them active.
activate_next :
    (n : ℕ) (xs : List TillDoneItem)
    → let marked = mark_range 0 n xs in
      activate_at (get_elem? marked (min n (length xs))) (min n (length xs)) marked
      ≡ mark_first n xs
activate_next zero [] = refl
activate_next zero (x ∷ xs) =
    let at_start : min 0 (length (x ∷ xs)) ≡ 0 = omega arith in rw at_start
activate_next (suc n) [] = refl
activate_next (suc n) (x ∷ xs) =
    let past : min (suc n) (length (x ∷ xs)) ≡ suc (min n (length xs)) = omega arith in
    rw past (
      activate_cons (mark x) (min n (length xs)) (mark_range 0 n xs)
      ∙ ap (◌∷◌ (mark x)) (activate_next n xs))

-- markTillDone completes the items of the steps up to the index, in front of the list, makes the
-- next item active if there is one, and leaves the others; with fewer items than the steps own, it
-- completes them all.
pub mark_till_done-mark_first :
    (items : List TillDoneItem) (step_index : ℕ) (steps : List ChainStep)
    → mark_till_done items step_index steps ≡ mark_first (count_upto step_index steps) items
unfolding mark_till_done
mark_till_done-mark_first items k steps =
    let start : min 0 (length items) ≡ 0 = omega arith in
    let total : 0 + count_upto k steps ≡ count_upto k steps = omega arith in
    let marked : mark_steps k steps 0 items
        ≡ (min (count_upto k steps) (length items), mark_range 0 (count_upto k steps) items) =
      rw start at (rw total at (mark_steps_lem k 0 steps items)) in
    rw marked (activate_next (count_upto k steps) items)
