-- ===== src/RunFilters/Lines.antt =====
-- What the output filters of internal/commands/runfilters share: lines, and filters that keep or
-- drop whole lines.
use browzer_cli.Prelude.{◌≡◌, refl, List, [], ◌∷◌, ◌++◌, append_assoc, arith, All}
use browzer_cli.Prelude.Text.{Text, newline, split}
use browzer_cli.Prelude.Text.Laws.{Lacks, split-Lacks}

-- bytes.Split(stdout, "\n")
unfoldable pub lines : Text → List Text
unfolding split
lines = split newline

-- out = append(out, raw...); out = append(out, '\n')
unfoldable pub append_line : Text → Text → Text
append_line out raw = out ++ (raw ++ newline ∷ [])

-- Every line with its end.
unfoldable pub unlines : List Text → Text
unlines [] = []
unlines (l ∷ ls) = (l ++ newline ∷ []) ++ unlines ls

pub unlines-append : (xs ys : List Text) → unlines (xs ++ ys) ≡ unlines xs ++ unlines ys
unfolding unlines
unlines-append [] ys = refl
unlines-append (x ∷ xs) ys = simp (unlines-append xs ys, append_assoc)

lines-append : (l s : Text) → Lacks newline l → lines (l ++ newline ∷ s) ≡ l ∷ lines s
unfolding lines
lines-append [] s h = refl
lines-append (c ∷ l) s (hc, h) = ground (arith, lines-append l s h)

-- Splitting whole lines gives them back, with an empty rest.
pub lines-unlines : (ls : List Text) → All (Lacks newline) ls → lines (unlines ls) ≡ ls ++ [] ∷ []
unfolding unlines
lines-unlines [] h = unfold lines in refl
lines-unlines (l ∷ ls) (hl, h) =
    rw (append_assoc, lines-append l (unlines ls) hl, lines-unlines ls h)

pub lines-Lacks : (s : Text) → All (Lacks newline) (lines s)
unfolding lines
lines-Lacks s = split-Lacks newline s
