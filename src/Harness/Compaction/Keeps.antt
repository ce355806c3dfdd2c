-- ===== src/Harness/Compaction/Keeps.antt =====
-- What a compaction (internal/harness/compaction.go) leaves of the history.
use jadeenvoy.Prelude.{All, List, [], leb, select, ℕ, ◌<◌, ◌∷◌}

-- The numbers of a list go up.
abbrev pub Increasing : List ℕ → Type 0
Increasing [] = Unit
Increasing (n ∷ ns) = All (λ m. n < m) ns × Increasing ns

abbrev from_on : ℕ → List ℕ → List ℕ
from_on from = select (λ b. leb from b)
