-- ===== src/Diagnostic/Levenshtein.antt =====
-- levenshtein of internal/diagnostic/didyoumean.go: the table of edit distances, two rows at a time.
pub mod Distance
pub mod Edits
use browzer_cli.Prelude.{ℕ, zero, suc, ◌+◌, List, [], ◌∷◌, if◌then◌else◌, ◌==◌, length}
use browzer_cli.Prelude.Text.{Text}
use Prim.Native.Nat.{min}

-- The inner loop: `left` is curr[j-1] and `diag` is prev[j-1]; the lists are what follows in prev
-- and in the second text.
unfoldable pub fill_row : ℕ → ℕ → ℕ → List ℕ → Text → List ℕ
fill_row c diag left (up ∷ prev) (d ∷ rb) =
    let cost : ℕ = if c == d then 0 else 1 in
    let cell : ℕ = min (min (left + 1) (up + 1)) (diag + cost) in cell ∷ fill_row c up cell prev rb
fill_row c diag left _ _ = []

-- One round of the outer loop, from the row `prev` to the row `curr` whose first entry is `i`.
unfoldable pub next_row : ℕ → ℕ → List ℕ → Text → List ℕ
unfolding fill_row
next_row c i [] rb = i ∷ []
next_row c i (diag ∷ prev) rb = i ∷ fill_row c diag i prev rb

unfoldable pub rows : ℕ → Text → List ℕ → Text → List ℕ
unfolding next_row
rows i [] prev rb = prev
rows i (c ∷ ra) prev rb = rows (i + 1) ra (next_row c i prev rb) rb

-- for j := 0; j <= lb; j++ { prev[j] = j }
unfoldable pub first_row : ℕ → Text → List ℕ
first_row j [] = j ∷ []
first_row j (d ∷ rb) = j ∷ first_row (j + 1) rb

abbrev last : List ℕ → ℕ
last [] = 0
last (x ∷ []) = x
last (x ∷ y ∷ xs) = last (y ∷ xs)

unfoldable pub levenshtein : Text → Text → ℕ
unfolding rows first_row
levenshtein [] b = length b
levenshtein (c ∷ a) [] = length (c ∷ a)
levenshtein (c ∷ a) (d ∷ b) = last (rows 1 (c ∷ a) (first_row 0 (d ∷ b)) (d ∷ b))
