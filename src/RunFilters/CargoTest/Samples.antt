-- ===== src/RunFilters/CargoTest/Samples.antt =====
-- Runs of filterCargoTestStandard.
use browzer_cli.Prelude.{List, [], ◌∷◌, ◌≡◌, refl}
use browzer_cli.Prelude.Text.{Text, codes}
use browzer_cli.RunFilters.Lines.{unlines, append_line}
use browzer_cli.RunFilters.CargoTest.{
  filter_cargo_test_standard, filter_cargo_test_standard_lem, cargo_loop, cargo_line, written,
}

abbrev report : List Text
report =
    codes "running 2 tests"
    ∷ codes "test a ... ok"
    ∷ codes "test b ... FAILED"
    ∷ []
    ∷ codes "failures:"
    ∷ []
    ∷ codes "    b"
    ∷ []
    ∷ codes "test result: FAILED. 1 passed; 1 failed"
    ∷ []
    ∷ []

filter_runs :
    filter_cargo_test_standard report
    ≡ unlines (
        codes "test b ... FAILED"
        ∷ codes "failures:"
        ∷ []
        ∷ codes "    b"
        ∷ []
        ∷ codes "test result: FAILED. 1 passed; 1 failed"
        ∷ [])
unfolding filter_cargo_test_standard cargo_loop cargo_line unlines append_line
filter_runs = refl

filter_cargo_test_standard_example :
    (filter_cargo_test_standard report ≡ unlines (written [] report))
    × (filter_cargo_test_standard (written [] report) ≡ unlines (written [] report))
filter_cargo_test_standard_example = filter_cargo_test_standard_lem report
