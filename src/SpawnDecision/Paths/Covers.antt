-- ===== src/SpawnDecision/Paths/Covers.antt =====
-- engine/spawn-decision.ts, pathCovers: the paths that an allowed path contains.
use multi_agent_engine.Common.{
  ℕ, suc, ◌-◌, ◌≡◌, refl, sym, ap, subst, ◌⊎◌, inl, inr, true, false, [], ◌∷◌, ◌++◌, any, length,
  length-append, take, arith,
}
use multi_agent_engine.Pipeline.{Text}
use multi_agent_engine.SpawnDecision.Paths.{
  text_eq, begins_with, ends_with, skip, strip_end, is_slash, slash_after, path_covers,
}

pub text_eq_refl : (s : Text) → text_eq s s ≡ true
text_eq_refl [] = refl
text_eq_refl (a ∷ s) = ground (arith, text_eq_refl s)

begins_with-append : (s t : Text) → begins_with (s ++ t) s ≡ true
begins_with-append [] t = begins_with_nil t
  where
    begins_with_nil : (u : Text) → begins_with u [] ≡ true
    begins_with_nil [] = refl
    begins_with_nil (a ∷ u) = refl
begins_with-append (a ∷ s) t = ground (arith, begins_with-append s t)

ends_with-append : (s t : Text) → ends_with (s ++ t) t ≡ true
ends_with-append [] [] = refl
ends_with-append [] (a ∷ t) = ground (arith, text_eq_refl t)
ends_with-append (a ∷ s) t = let h = ends_with-append s t in ground (arith, h)

abbrev pub deep : Text
deep = b'/' ∷ b'*' ∷ b'*' ∷ []

abbrev pub shallow : Text
shallow = b'/' ∷ b'*' ∷ []

abbrev pub without_slashes : Text → Text
without_slashes s = strip_end is_slash s

-- An allowed path that is a forbidden one or stands above it, slashes at the ends apart: it is the same;
-- or a directory above it, where it is no glob; or all that a directory holds, which is the forbidden
-- path or above it; or what stands directly in a directory, the forbidden path among it.
pub data Contains (a f : Text) : Type 0 where
  same : without_slashes a ≡ without_slashes f → Contains a f
  above :
      (rest : Text)
      → ends_with (without_slashes a) deep ≡ false
      → ends_with (without_slashes a) shallow ≡ false
      → without_slashes f ≡ slash_after (without_slashes a) ++ rest
      → Contains a f
  held :
      (dir rest : Text)
      → without_slashes a ≡ dir ++ deep
      → (without_slashes f ≡ without_slashes dir)
        ⊎ (without_slashes f ≡ slash_after (without_slashes dir) ++ rest)
      → Contains a f
  direct :
      (dir name : Text)
      → without_slashes a ≡ dir ++ shallow
      → without_slashes f ≡ slash_after (without_slashes dir) ++ name
      → any is_slash name ≡ false
      → Contains a f

take-append : (s t : Text) → take (length s) (s ++ t) ≡ s
take-append [] t = refl
take-append (a ∷ s) t = ap (λ u. a ∷ u) (take-append s t)

take_front : (s t : Text) (n : ℕ) → length t ≡ n → take (length (s ++ t) - n) (s ++ t) ≡ s
take_front s t n h =
    let e : length (s ++ t) - n ≡ length s = omega (arith, length-append s t, h) in
    rw e (take-append s t)

skip_front : (s t : Text) → skip (suc (length s)) (slash_after s ++ t) ≡ t
skip_front [] t = refl
skip_front (a ∷ s) t = skip_front s t

not_nil : (s : Text) → text_eq (s ++ shallow) [] ≡ false
not_nil [] = refl
not_nil (a ∷ s) = refl

-- A glob of one level is none of all levels.
shallow_only : (s : Text) → ends_with (s ++ shallow) deep ≡ false
shallow_only [] = refl
shallow_only (a ∷ []) = ground arith
shallow_only (a ∷ b ∷ []) = ground (arith, shallow_only (b ∷ []))
shallow_only (a ∷ b ∷ c ∷ s) = ground (arith, not_nil s, shallow_only (b ∷ c ∷ s))

begins_with_directory :
    (dir f rest : Text) → f ≡ slash_after dir ++ rest → begins_with f (slash_after dir) ≡ true
begins_with_directory dir f rest e =
    subst (λ u. begins_with u (slash_after dir) ≡ true) (sym e)
      (begins_with-append (slash_after dir) rest)

pub Contains-covers : (a f : Text) → Contains a f → path_covers a f ≡ true
unfolding path_covers
Contains-covers a f (same e) = let h = text_eq_refl (without_slashes f) in rw e (ground (arith, h))
Contains-covers a f (above rest g h e) =
    let b = begins_with_directory (without_slashes a) (without_slashes f) rest e in
    rw (g, h, b) (ground arith)
Contains-covers a f (held dir rest e h) =
    let g = ends_with-append dir deep in
    let t = take_front dir deep 3 refl in
    rw (e, g, t)
      (elim h [
        | inl k ↦ let r = text_eq_refl (without_slashes dir) in rw k (ground (arith, r))
        | inr k ↦
            let b = begins_with_directory (without_slashes dir) (without_slashes f) rest k in
            rw b (ground arith)
      ])
Contains-covers a f (direct dir name e k s) =
    let g = shallow_only dir in
    let h = ends_with-append dir shallow in
    let t = take_front dir shallow 2 refl in
    let b = begins_with_directory (without_slashes dir) (without_slashes f) name k in
    let q : any is_slash (skip (suc (length (without_slashes dir))) (without_slashes f)) ≡ false =
      rw (k, skip_front (without_slashes dir) name) s in
    rw (e, g, h, t, b, q) (ground arith)
