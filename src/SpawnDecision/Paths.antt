-- ===== src/SpawnDecision/Paths.antt =====
-- Paths of a spawn decision: hasUnsafePath and pathCovers of engine/spawn-decision.ts. Where the code
-- splits a path at runs of separators, the model splits at each one; the empty parts between them are
-- not among the parts it looks for.
pub mod Covers
use multi_agent_engine.Common.{
  ℕ, zero, suc, ◌-◌, Bool, true, false, not, ◌&&◌, ◌||◌, List, [], ◌∷◌, ◌++◌, any, leb, ◌==◌,
  length, take, is_space, if◌then◌else◌,
}
use multi_agent_engine.Pipeline.{Text}

abbrev pub text_eq : Text → Text → Bool
text_eq [] [] = true
text_eq (a ∷ s) (b ∷ t) = a == b && text_eq s t
text_eq _ _ = false

abbrev pub begins_with : Text → Text → Bool
begins_with s [] = true
begins_with [] (b ∷ t) = false
begins_with (a ∷ s) (b ∷ t) = a == b && begins_with s t

abbrev pub ends_with : Text → Text → Bool
ends_with [] t = text_eq [] t
ends_with (a ∷ s) t = text_eq (a ∷ s) t || ends_with s t

abbrev pub skip : ℕ → Text → Text
skip zero s = s
skip (suc n) [] = []
skip (suc n) (a ∷ s) = skip n s

abbrev pub is_nil : Text → Bool
is_nil [] = true
is_nil (a ∷ s) = false

-- The text without the characters at its end, or its beginning, that pass a test.
abbrev pub strip_end : (ℕ → Bool) → Text → Text
strip_end p [] = []
strip_end p (a ∷ s) = let rest = strip_end p s in if p a && is_nil rest then [] else a ∷ rest

abbrev strip_start : (ℕ → Bool) → Text → Text
strip_start p [] = []
strip_start p (a ∷ s) = let rest = strip_start p s in if p a then rest else a ∷ s

abbrev pub trim : Text → Text
trim s = strip_end is_space (strip_start is_space s)

abbrev pub is_separator : ℕ → Bool
is_separator c = c == b'/' || c == b'\\'

abbrev pub is_slash : ℕ → Bool
is_slash c = c == b'/'

abbrev in_front : ℕ → List Text → List Text
in_front c [] = (c ∷ []) ∷ []
in_front c (part ∷ parts) = (c ∷ part) ∷ parts

abbrev pub parts_of : Text → List Text
parts_of [] = [] ∷ []
parts_of (c ∷ s) = let rest = parts_of s in if is_separator c then [] ∷ rest else in_front c rest

abbrev is_letter : ℕ → Bool
is_letter c = (leb b'A' c && leb c b'Z') || (leb b'a' c && leb c b'z')

abbrev has_drive : Text → Bool
has_drive (c ∷ d ∷ e ∷ s) = is_letter c && (d == b':' && is_separator e)
has_drive _ = false

abbrev pub dot_dot : Text
dot_dot = b'.' ∷ b'.' ∷ []

abbrev too_wide : List Text
too_wide =
    (b'.' ∷ [])
    ∷ (b'.' ∷ b'/' ∷ [])
    ∷ (b'*' ∷ [])
    ∷ (b'*' ∷ b'*' ∷ [])
    ∷ (b'*' ∷ b'*' ∷ b'/' ∷ b'*' ∷ [])
    ∷ (b'/' ∷ b'*' ∷ [])
    ∷ []

unfoldable pub has_unsafe_path : Text → Bool
has_unsafe_path value =
    let path = trim value in
    is_nil path
    || (begins_with path (b'/' ∷ [])
        || (has_drive path
            || (any (text_eq dot_dot) (parts_of path) || any (text_eq path) too_wide)))

abbrev pub slash_after : Text → Text
slash_after s = s ++ b'/' ∷ []

-- Without a slash after the prefix and its slash.
abbrev is_direct : Text → Text → Bool
is_direct prefix path = not (any is_slash (skip (suc (length prefix)) path))

abbrev stem : ℕ → Text → Text
stem n s = strip_end is_slash (take (length s - n) s)

unfoldable pub path_covers : Text → Text → Bool
path_covers allowed_path forbidden_path =
    let allowed = strip_end is_slash allowed_path in
    let forbidden = strip_end is_slash forbidden_path in
    text_eq allowed forbidden
    || (if ends_with allowed (b'/' ∷ b'*' ∷ b'*' ∷ [])
        then text_eq forbidden (stem 3 allowed)
          || begins_with forbidden (slash_after (stem 3 allowed))
        else if ends_with allowed (b'/' ∷ b'*' ∷ [])
        then begins_with forbidden (slash_after (stem 2 allowed))
          && is_direct (stem 2 allowed) forbidden
        else begins_with forbidden (slash_after allowed))
