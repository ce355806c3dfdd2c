-- ===== src/Memory/Like.antt =====
-- The operator LIKE of SQLite, which ListMemories of internal/store/memory.go uses: % stands for any
-- text and _ for any character, and the letters of ASCII match in both cases.
use jadeenvoy.Prelude.{ℕ, ◌+◌, String, Bool, true, false, ◌&&◌, ◌||◌, ◌==◌, leb, if◌then◌else◌}
use Prim.Native.Char.{code}
use Prim.Native.String.{[], ◌∷◌}

abbrev pub fold_case : ℕ → ℕ
fold_case n = if leb 65 n && leb n 90 then n + 32 else n

-- Some end of the text passes the test.
unfoldable pub some_end : (String → Bool) → String → Bool
some_end f [] = f []
some_end f (c ∷ s) = f (c ∷ s) || some_end f s

unfoldable pub like : String → String → Bool
unfolding some_end
like [] [] = true
like [] (d ∷ s) = false
like (c ∷ p) [] = code c == 37 && like p []
like (c ∷ p) (d ∷ s) =
    let rest = like p s in
    let any = some_end (like p) (d ∷ s) in
    if code c == 37 then any else (code c == 95 || fold_case (code c) == fold_case (code d)) && rest
