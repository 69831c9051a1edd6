-- ===== src/Replay/Compare/Sets.antt =====
-- engine/replay.ts: sets of texts, and the size of what two of them share.
use multi_agent_engine.Common.{
  suc, ◌≤◌, ◌≡◌, refl, sym, ap, inl, inr, true, false, List, [], ◌∷◌, length, Bool-cases,
  if◌then◌else◌, arith,
}
use multi_agent_engine.Pipeline.{Text}
use multi_agent_engine.SpawnDecision.Paths.{text_eq}
use multi_agent_engine.SpawnDecision.Paths.Covers.{text_eq_refl}
use multi_agent_engine.Replay.Compare.{has, as_set, common}

pub text_eq-≡ : (s t : Text) → text_eq s t ≡ true → s ≡ t
text_eq-≡ [] [] h = refl
text_eq-≡ [] (b ∷ t) h = cc h
text_eq-≡ (a ∷ s) [] h = cc h
text_eq-≡ (a ∷ s) (b ∷ t) h =
    let e : a ≡ b = ground (arith, h) in let r = text_eq-≡ s t (ground (arith, h)) in cc (e, r)

pub text_eq_sym : (s t : Text) → text_eq s t ≡ text_eq t s
text_eq_sym s t = elim (Bool-cases (text_eq s t)) [
  | inl e ↦ let p = text_eq-≡ s t e in rw p refl
  | inr e ↦ elim (Bool-cases (text_eq t s)) [
    | inl f ↦ let p = text_eq-≡ t s f in rw p refl
    | inr f ↦ cc (e, f)
  ]
]

-- No text stands twice in the list.
abbrev pub IsDistinct : List Text → Type 0
IsDistinct [] = Unit
IsDistinct (x ∷ xs) = (has xs x ≡ false) × IsDistinct xs

pub as_set-IsDistinct : (xs : List Text) → IsDistinct (as_set xs)
unfolding as_set
as_set-IsDistinct [] = tt
as_set-IsDistinct (x ∷ xs) = elim (Bool-cases (has (as_set xs) x)) [
  | inl e ↦ rw e (as_set-IsDistinct xs)
  | inr e ↦ rw e (e, as_set-IsDistinct xs)
]

has-≡ : (xs : List Text) (x y : Text) → text_eq x y ≡ true → has xs x ≡ has xs y
has-≡ xs x y h = let p = text_eq-≡ x y h in ap (has xs) p

-- What is shared with a set that has one more element.
common-cons :
    (x : Text) (xs ys : List Text)
    → has xs x ≡ false
    → IsDistinct ys
    → common ys (x ∷ xs) ≡ (if has ys x then suc (common ys xs) else common ys xs)
unfolding common
common-cons x xs [] n d = refl
common-cons x xs (y ∷ ys) n (m, d) =
    let ih = common-cons x xs ys n d in
    let flip = text_eq_sym y x in
    elim (Bool-cases (text_eq x y)) [
      | inl e ↦
          let a = has-≡ xs x y e in
          let b = has-≡ ys x y e in ground (arith, ih, flip, e, a, b, n, m)
      | inr e ↦ ground (arith, ih, flip, e)
    ]

common-nil : (ys : List Text) → common ys [] ≡ 0
unfolding common
common-nil [] = refl
common-nil (y ∷ ys) = common-nil ys

pub common_sym : (xs ys : List Text) → IsDistinct xs → IsDistinct ys → common xs ys ≡ common ys xs
unfolding common
common_sym [] ys d1 d2 = sym (common-nil ys)
common_sym (x ∷ xs) ys (n, d1) d2 =
    let ih = common_sym xs ys d1 d2 in let h = common-cons x xs ys n d2 in ground (arith, ih, h)

pub common-le : (xs ys : List Text) → common xs ys ≤ length xs
unfolding common
common-le [] ys = omega arith
common-le (x ∷ xs) ys = let h = common-le xs ys in ground (arith, h)

pub common_self : (xs : List Text) → IsDistinct xs → common xs xs ≡ length xs
unfolding common
common_self [] d = refl
common_self (x ∷ xs) (n, d) =
    let ih = common_self xs d in
    let h = common-cons x xs xs n d in let r = text_eq_refl x in ground (arith, ih, h, r, n)
