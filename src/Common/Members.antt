-- ===== src/Common/Members.antt =====
-- Membership in lists.
use mathlib.Core.Path.{◌≡◌, refl, sym, subst}
use mathlib.Core.Bool.{Bool, true}
use mathlib.Core.Logic.{◌⊎◌, inl, inr}
use mathlib.Core.List.{List, [], ◌∷◌, ◌++◌, Memᴰ}
use mathlib.Core.List.Memᴰ.{head, tail}
use multi_agent_engine.Common.Tests.{Bool-cases}
use multi_agent_engine.Common.Lists.{All, any}

module _ {ℓ} {A : Type ℓ} {a : A} where
  pub mem-append_left : (xs ys : List A) → Memᴰ a xs → Memᴰ a (xs ++ ys)
  mem-append_left [] ys h = elim h [ ]
  mem-append_left (x ∷ xs) ys (head e) = head e
  mem-append_left (x ∷ xs) ys (tail h) = tail (mem-append_left xs ys h)

  pub mem-append_right : (xs ys : List A) → Memᴰ a ys → Memᴰ a (xs ++ ys)
  mem-append_right [] ys h = h
  mem-append_right (x ∷ xs) ys h = tail (mem-append_right xs ys h)

  pub mem-append_cases : (xs ys : List A) → Memᴰ a (xs ++ ys) → Memᴰ a xs ⊎ Memᴰ a ys
  mem-append_cases [] ys h = inr h
  mem-append_cases (x ∷ xs) ys (head e) = inl (head e)
  mem-append_cases (x ∷ xs) ys (tail h) = elim (mem-append_cases xs ys h) [
    | inl m ↦ inl (tail m)
    | inr m ↦ inr m
  ]

-- What holds of every element holds of a member.
pub All-Memᴰ {ℓ κ} :
    {A : Type ℓ} (P : A → Type κ) (xs : List A) {a : A} → All P xs → Memᴰ a xs → P a
All-Memᴰ P [] h m = elim m [ ]
All-Memᴰ P (x ∷ xs) (h, hs) (head e) = subst P (sym e) h
All-Memᴰ P (x ∷ xs) (h, hs) (tail m) = All-Memᴰ P xs hs m

pub any-Memᴰ {ℓ} :
    {A : Type ℓ} (p : A → Bool) (xs : List A) → any p xs ≡ true → (x : A) × Memᴰ x xs × (p x ≡ true)
any-Memᴰ p [] h = absurd (cc h)
any-Memᴰ p (x ∷ xs) h = elim (Bool-cases (p x)) [
  | inl e ↦ (x, head refl, e)
  | inr e ↦ let (y, m, k) = any-Memᴰ p xs (rw e at h) in (y, tail m, k)
]
