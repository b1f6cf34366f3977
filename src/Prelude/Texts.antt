-- ===== src/Prelude/Texts.antt =====
-- Tests on texts.
use Prim.Native.String.{String, [], ◌∷◌}
use mathlib.Core.Bool.{Bool, true, false}

-- `str::is_empty`.
abbrev pub is_empty : String → Bool
is_empty [] = true
is_empty (c ∷ cs) = false
