-- ===== src/RunFilters/Checks/Samples.antt =====
-- Runs of filterVitest and filterTurbo.
use browzer_cli.Prelude.{[], ◌∷◌, ◌++◌, ◌≡◌, refl, select}
use browzer_cli.Prelude.Text.{Text, codes, newline}
use browzer_cli.RunFilters.Lines.{lines, unlines, append_line}
use browzer_cli.RunFilters.Checks.{
  filter_vitest, keep_vitest_line, drops_vitest, filter_vitest_lem, keep_loop,
}

abbrev report : Text
report =
    codes " ✓ adds" ++ newline ∷ codes " × subtracts" ++ newline ∷ newline ∷ codes "Tests 1 failed"

filter_runs :
    filter_vitest report ≡ codes " × subtracts" ++ newline ∷ codes "Tests 1 failed" ++ newline ∷ []
unfolding filter_vitest keep_loop drops_vitest lines append_line
filter_runs = refl

filter_vitest_example :
    (filter_vitest report ≡ unlines (select keep_vitest_line (lines report)))
    × (filter_vitest (filter_vitest report) ≡ filter_vitest report)
filter_vitest_example = filter_vitest_lem report
