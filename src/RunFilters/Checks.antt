-- ===== src/RunFilters/Checks.antt =====
-- filterVitest and filterTurbo of internal/commands/runfilters.
mod Samples
use browzer_cli.Prelude.{
  Bool, true, false, not, ◌||◌, List, [], ◌∷◌, ◌++◌, ◌≡◌, refl, sym, ap, ◌∙◌, append_assoc,
  append-nil, if◌then◌else◌, select, Bool-cases, inl, inr, arith,
}
use browzer_cli.Prelude.Text.{Text, codes, newline, text_eq, trim_space, has_prefix}
use browzer_cli.RunFilters.Lines.{lines, append_line, unlines}
use browzer_cli.RunFilters.LineFilter.{LineFilter, filter_idempotent, lines-filter}

-- The loop that both have: a dropped line goes on, the others are appended to `out`.
module _ (dropped : Text → Bool) where
  unfoldable pub keep_loop : Text → List Text → Text
  unfolding append_line
  keep_loop out [] = out
  keep_loop out (raw ∷ ls) = keep_loop (if dropped raw then out else append_line out raw) ls

-- "✓" and "↓"
unfoldable pub drops_vitest : Text → Bool
unfolding text_eq trim_space has_prefix
drops_vitest raw =
    text_eq (trim_space raw) []
    || has_prefix (trim_space raw) (codes "✓")
    || has_prefix (trim_space raw) (codes "↓")

unfoldable pub filter_vitest : Text → Text
unfolding keep_loop drops_vitest lines
filter_vitest stdout = keep_loop drops_vitest [] (lines stdout)

unfoldable pub keep_vitest_line : Text → Bool
unfolding text_eq trim_space has_prefix
keep_vitest_line line =
    let trimmed : Text = trim_space line in
    if text_eq trimmed []
    then false
    else if has_prefix trimmed (codes "✓") || has_prefix trimmed (codes "↓")
    then false
    else true

unfoldable pub drops_turbo : Text → Bool
unfolding text_eq trim_space has_prefix
drops_turbo raw =
    text_eq (trim_space raw) []
    || has_prefix (trim_space raw) (codes "✓")
    || has_prefix (trim_space raw) (codes "•")

unfoldable pub filter_turbo : Text → Text
unfolding keep_loop drops_turbo lines
filter_turbo stdout = keep_loop drops_turbo [] (lines stdout)

keep_loop-select :
    (dropped : Text → Bool) (keep : Text → Bool)
    → ((l : Text) → keep l ≡ not (dropped l))
    → (out : Text) (ls : List Text) → keep_loop dropped out ls ≡ out ++ unlines (select keep ls)
unfolding keep_loop append_line unlines
keep_loop-select dropped keep agree out [] = sym (append-nil out)
keep_loop-select dropped keep agree out (l ∷ ls) = elim (Bool-cases (dropped l)) [
  | inl e ↦ rw (agree l, e) (keep_loop-select dropped keep agree out ls)
  | inr e ↦
      rw (agree l, e)
        (keep_loop-select dropped keep agree (append_line out l) ls
          ∙ append_assoc out (l ++ newline ∷ []) (unlines (select keep ls)))
]

keep_vitest_line-not : (l : Text) → keep_vitest_line l ≡ not (drops_vitest l)
unfolding keep_vitest_line drops_vitest
keep_vitest_line-not l = ground arith

abbrev vitest : LineFilter
vitest = record {
  keep = keep_vitest_line;
  filter = filter_vitest;
  keep-empty = unfold keep_vitest_line text_eq trim_space in refl;
  filter-lines = λ s.
      unfold filter_vitest in
      keep_loop-select drops_vitest keep_vitest_line keep_vitest_line-not [] (lines s);
}

abbrev turbo : LineFilter
turbo = record {
  keep = λ l. not (drops_turbo l);
  filter = filter_turbo;
  keep-empty = unfold drops_turbo text_eq trim_space in refl;
  filter-lines = λ s.
      unfold filter_turbo in
      keep_loop-select drops_turbo (λ l. not (drops_turbo l)) (λ l. refl) [] (lines s);
}

-- The output of filterVitest is the lines that keepVitestLine keeps, each with its end, and
-- filtering it again changes nothing.
pub filter_vitest_lem :
    (s : Text)
    → (filter_vitest s ≡ unlines (select keep_vitest_line (lines s)))
      × (filter_vitest (filter_vitest s) ≡ filter_vitest s)
filter_vitest_lem s = (vitest.filter-lines s, filter_idempotent vitest s)

-- The lines of the output of filterTurbo are those of its input that are not blank and do not start
-- with a tick or a bullet, with an empty rest; filtering it again changes nothing.
pub filter_turbo_lem :
    (s : Text)
    → (lines (filter_turbo s) ≡ select (λ l. not (drops_turbo l)) (lines s) ++ [] ∷ [])
      × (filter_turbo (filter_turbo s) ≡ filter_turbo s)
filter_turbo_lem s = (lines-filter turbo s, filter_idempotent turbo s)
