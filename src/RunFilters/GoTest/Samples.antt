-- ===== src/RunFilters/GoTest/Samples.antt =====
-- A run of filterGoTestNDJSON, with a decoder of a notation of its own: "o<test><text>" and "f<test>".
use browzer_cli.Prelude.{
  ◌==◌, true, Option, none, some, List, [], ◌∷◌, ◌++◌, ◌≡◌, refl, if◌then◌else◌, length, select,
}
use browzer_cli.Prelude.Text.{Text, codes, text_eq, trim_space}
use browzer_cli.RunFilters.Lines.{unlines, append_line}
use browzer_cli.RunFilters.GoTest.{
  GoTestEvent, TestKey, filter_go_test_ndjson, scan_lines, scan_line, scan_event, emit_failures,
  emit_outputs, fail_header, ended, buffered, add_output, key_eq, pass_summary,
}
use browzer_cli.RunFilters.GoTest.Standard.{
  filter_go_test_standard, filter_go_test_standard_lem, keeps, counts_pass,
}
use browzer_cli.RunFilters.GoTest.Keys.{firsts}
use browzer_cli.RunFilters.GoTest.Failures.{
  filter_go_test_ndjson_lem, fails, outputs, others, report, fail_keys,
}

abbrev event_of : Text → Text → Text → GoTestEvent
event_of action test output = record {
  action = action;
  package_name = codes "p";
  test = test;
  output = output;
}

abbrev decode : Text → Option GoTestEvent
decode [] = none
decode (c ∷ []) = none
decode (c ∷ d ∷ s) =
    if c == b'o'
    then some (event_of (codes "output") (d ∷ []) s)
    else if c == b'f'
    then some (event_of (codes "fail") (d ∷ []) s)
    else none

abbrev log : List Text
log = codes "oAstart" ∷ codes "oBboom" ∷ codes "# note" ∷ codes "fB" ∷ codes "oBend" ∷ []

abbrev passing : List Text
passing = codes "oAstart" ∷ codes "# note" ∷ []

abbrev test_b : TestKey
test_b = record { pkg = codes "p"; test = codes "B" }

filter_runs :
    filter_go_test_ndjson decode log
    ≡ unlines (codes "# note" ∷ codes "FAIL B (p)" ∷ codes "boom" ∷ codes "end" ∷ [])
unfolding filter_go_test_ndjson scan_lines scan_line scan_event emit_failures emit_outputs
    fail_header ended buffered add_output key_eq unlines append_line
filter_runs = refl

b_fails : fails decode test_b log ≡ true
unfolding key_eq text_eq trim_space
b_fails = refl

filter_go_test_ndjson_example :
    filter_go_test_ndjson decode log
    ≡ unlines (others decode log)
      ++ report (λ j. outputs decode j log) (firsts (fail_keys decode log))
filter_go_test_ndjson_example = filter_go_test_ndjson_lem decode log test_b b_fails

-- Without a failed test the line that is no event is lost.
note_is_lost : filter_go_test_ndjson decode passing ≡ unlines (codes "ok (1 pass)" ∷ [])
unfolding filter_go_test_ndjson scan_lines scan_line scan_event add_output key_eq unlines
    append_line pass_summary
note_is_lost = refl

abbrev plain : List Text
plain = codes "--- PASS: TestA (0.00s)" ∷ codes "ok  \tp\t0.1s" ∷ [] ∷ []

filter_go_test_standard_example : filter_go_test_standard plain ≡ (
    if length (select keeps plain) == 0
    then pass_summary (length (select counts_pass plain))
    else unlines (select keeps plain))
filter_go_test_standard_example = filter_go_test_standard_lem plain
