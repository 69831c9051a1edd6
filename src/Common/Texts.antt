-- ===== src/Common/Texts.antt =====
-- Tests on texts, with JavaScript's white space.
use Prim.Native.Nat.{ℕ}
use Prim.Native.Char.{code}
use Prim.Native.String.{String, [], ◌∷◌, len, find}
use mathlib.Core.Bool.{Bool, true, ◌&&◌, ◌||◌}
use multi_agent_engine.Common.Tests.{leb, ◌==◌}

-- The characters that `trim` removes.
abbrev pub is_space : ℕ → Bool
is_space c =
    (leb 9 c && leb c 13)
    || ((c == 32)
        || ((c == 160)
            || ((c == 5760)
                || ((leb 8192 c && leb c 8202)
                    || ((c == 8232)
                        || ((c == 8233)
                            || ((c == 8239)
                                || ((c == 8287) || ((c == 12288) || (c == 65279))))))))))

-- `!s.trim()`
abbrev pub is_blank : String → Bool
is_blank [] = true
is_blank (c ∷ s) = is_space (code c) && is_blank s

-- `s.includes(t)`
abbrev pub includes_text : String → String → Bool
includes_text s t = leb (find s t) (len s)
