-- ===== src/Dialect/Pieces.antt =====
-- A query as the texts between its quotes, of which every second one stands in a literal.
use jadeenvoy.Prelude.{ℕ, ◌+◌, String, Bool, not, List, [], ◌∷◌, if◌then◌else◌, ◌<>◌, ◌==◌, decimal}
use Prim.Native.Char.{Char, code}
use Prim.Native.String.{[], ◌∷◌}

abbrev pub onto_first : Char → List String → List String
onto_first c [] = (c ∷ []) ∷ []
onto_first c (p ∷ ps) = (c ∷ p) ∷ ps

-- The text before the first quote, and the texts from each quote to the next.
abbrev pub split_quotes : String → List String
split_quotes [] = [] ∷ []
split_quotes (c ∷ s) =
    let rest = onto_first c (split_quotes s) in if code c == 39 then [] ∷ rest else rest

-- The question marks of a text replaced by $n, $n+1, …, and how many there are.
abbrev pub numbered : ℕ → String → String
numbered n [] = []
numbered n (c ∷ s) =
    if code c == 63 then "$" <> (decimal n <> numbered (n + 1) s) else c ∷ numbered n s

abbrev pub marks : String → ℕ
marks [] = 0
marks (c ∷ s) = let rest = marks s in if code c == 63 then 1 + rest else rest

-- The texts in a row, those outside of literals numbered on from n.
abbrev pub assembled : ℕ → Bool → List String → String
assembled n inside [] = []
assembled n inside (p ∷ ps) =
    (if inside then p else numbered n p)
    <> assembled (if inside then n else n + marks p) (not inside) ps
