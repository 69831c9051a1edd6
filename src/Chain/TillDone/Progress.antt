-- ===== src/Chain/TillDone/Progress.antt =====
-- engine/chain-runner.ts: the items of buildTillDone, and how many are done after a step.
use multi_agent_engine.Common.{
  ℕ, zero, suc, ◌+◌, ◌≤◌, ◌≡◌, refl, ap, ◌∙◌, false, Option, none, some, List, [], ◌∷◌, length,
  length-append, All, All-append, if◌then◌else◌, arith,
}
use multi_agent_engine.Chain.TillDone.{
  Check, text, object, TillDoneItem, ChainStep, count_of, item_count, items_of, step_items,
  chain_items, activate_first, build_till_done, mark_till_done,
}
use multi_agent_engine.Chain.TillDone.Laws.{mark_first, count_upto, mark_till_done-mark_first}

-- The items of all steps.
abbrev pub count_all : List ChainStep → ℕ
count_all [] = 0
count_all (s ∷ ss) = item_count s + count_all ss

abbrev pub done_count : List TillDoneItem → ℕ
done_count [] = 0
done_count (x ∷ xs) = (if x.completed then 1 else 0) + done_count xs

abbrev IsOpen : TillDoneItem → Type 0
IsOpen x = x.completed ≡ false

items_of-IsOpen : (cs : List Check) → All IsOpen (items_of cs) × (length (items_of cs) ≡ length cs)
unfolding items_of
items_of-IsOpen [] = (tt, refl)
items_of-IsOpen (text t ∷ cs) = let (o, l) = items_of-IsOpen cs in ((refl, o), ap suc l)
items_of-IsOpen (object t k v ∷ cs) = let (o, l) = items_of-IsOpen cs in ((refl, o), ap suc l)

step_items-IsOpen :
    (s : ChainStep) (c : Option (List Check))
    → s.till_done ≡ c
    → All IsOpen (step_items s) × (length (step_items s) ≡ count_of c)
unfolding step_items
step_items-IsOpen s none e = rw e ((refl, tt), refl)
step_items-IsOpen s (some cs) e = rw e (items_of-IsOpen cs)

chain_items-IsOpen :
    (ss : List ChainStep) → All IsOpen (chain_items ss) × (length (chain_items ss) ≡ count_all ss)
unfolding chain_items
chain_items-IsOpen [] = (tt, refl)
chain_items-IsOpen (s ∷ ss) =
    let (o, l) = step_items-IsOpen s s.till_done refl in
    let (os, ls) = chain_items-IsOpen ss in
    (
      All-append IsOpen _ _ o os,
      length-append (step_items s) (chain_items ss) ∙ omega (arith, l, ls),
    )

activate_first-IsOpen :
    (xs : List TillDoneItem)
    → All IsOpen xs
    → All IsOpen (activate_first xs) × (length (activate_first xs) ≡ length xs)
unfolding activate_first
activate_first-IsOpen [] o = (tt, refl)
activate_first-IsOpen (x ∷ xs) o = (o, refl)

build_till_done-IsOpen :
    (ss : List ChainStep)
    → All IsOpen (build_till_done ss) × (length (build_till_done ss) ≡ count_all ss)
unfolding build_till_done
build_till_done-IsOpen ss =
    let (o, l) = chain_items-IsOpen ss in
    let (o', l') = activate_first-IsOpen (chain_items ss) o in (o', l' ∙ l)

done_count-open : (xs : List TillDoneItem) → All IsOpen xs → done_count xs ≡ 0
done_count-open [] o = refl
done_count-open (x ∷ xs) o = ground (arith, done_count-open xs o.1)

done_count-mark_first :
    (n : ℕ) (xs : List TillDoneItem)
    → All IsOpen xs
    → n ≤ length xs
    → done_count (mark_first n xs) ≡ n
done_count-mark_first zero [] o h = refl
done_count-mark_first zero (x ∷ xs) o h = ground (arith, done_count-open xs o.1)
done_count-mark_first (suc n) [] o h = absurd (omega arith)
done_count-mark_first (suc n) (x ∷ xs) o h =
    omega (arith, done_count-mark_first n xs o.1 (omega arith))

count_upto-le : (k : ℕ) (ss : List ChainStep) → count_upto k ss ≤ count_all ss
count_upto-le k [] = omega arith
count_upto-le zero (s ∷ ss) = omega arith
count_upto-le (suc k) (s ∷ ss) = omega (arith, count_upto-le k ss)

-- Of the items that buildTillDone makes, one for each check and one for each step without checks,
-- markTillDone for a step completes exactly as many as the steps up to it own.
pub done_count-mark_till_done :
    (k : ℕ) (ss : List ChainStep)
    → (length (build_till_done ss) ≡ count_all ss)
      × (done_count (mark_till_done (build_till_done ss) k ss) ≡ count_upto k ss)
done_count-mark_till_done k ss =
    let (o, l) = build_till_done-IsOpen ss in
    (
      l,
      ap done_count (mark_till_done-mark_first (build_till_done ss) k ss)
          ∙ done_count-mark_first (count_upto k ss) (build_till_done ss) o
              (omega (arith, l, count_upto-le k ss)),
    )
