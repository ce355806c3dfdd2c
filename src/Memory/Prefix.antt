-- ===== src/Memory/Prefix.antt =====
-- Which memories ListMemories of internal/store/memory.go selects.
use jadeenvoy.Prelude.{String, Bool, true, false, ◌&&◌, ◌||◌, ◌==◌}
use Prim.Native.Char.{Char, code}
use Prim.Native.String.{[], ◌∷◌}
use jadeenvoy.Memory.Like.{fold_case}

-- The text begins with the prefix, but for the case of the letters of ASCII.
abbrev pub begins : String → String → Bool
begins [] s = true
begins (c ∷ p) [] = false
begins (c ∷ p) (d ∷ s) = let rest = begins p s in fold_case (code c) == fold_case (code d) && rest

abbrev pub has_wildcard : String → Bool
has_wildcard [] = false
has_wildcard (c ∷ p) = code c == 37 || code c == 95 || has_wildcard p
