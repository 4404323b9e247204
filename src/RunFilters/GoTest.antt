-- ===== src/RunFilters/GoTest.antt =====
-- filterGoTestNDJSON of internal/commands/runfilters/gotest.go; Standard is the filter of a plain
-- run. `decode` is json.Unmarshal into a goTestEvent, with `none` for an error. The set of failed
-- tests is read off their list.
pub mod Keys
pub mod Failures
pub mod Standard
mod Samples
use browzer_cli.Prelude.{
  ℕ, zero, suc, ◌+◌, Bool, true, false, not, ◌&&◌, ◌||◌, Option, none, some, List, [], ◌∷◌, ◌++◌,
  if◌then◌else◌, any, length, ◌==◌,
}
use browzer_cli.Prelude.Text.{Text, codes, newline, text_eq, trim_space, has_suffix}
use browzer_cli.Prelude.Decimal.{decimal}
use browzer_cli.RunFilters.Lines.{append_line}

pub record GoTestEvent : Type 0 where
  pub action : Text
  pub package_name : Text
  pub test : Text
  pub output : Text

pub record TestKey : Type 0 where
  pub pkg : Text
  pub test : Text

unfoldable pub key_eq : TestKey → TestKey → Bool
unfolding text_eq
key_eq a b = text_eq a.pkg b.pkg && text_eq a.test b.test

abbrev pub key_of : GoTestEvent → TestKey
key_of ev = record { pkg = ev.package_name; test = ev.test }

-- outputBuf[key], which is empty for a missing key
unfoldable pub buffered : TestKey → List (TestKey × List Text) → List Text
unfolding key_eq
buffered key [] = []
buffered key ((k, outputs) ∷ buf) = if key_eq k key then outputs else buffered key buf

-- outputBuf[key] = append(outputBuf[key], output)
unfoldable pub add_output : TestKey → Text → List (TestKey × List Text) → List (TestKey × List Text)
unfolding key_eq
add_output key output [] = (key, output ∷ []) ∷ []
add_output key output ((k, outputs) ∷ buf) =
    if key_eq k key
    then (k, outputs ++ output ∷ []) ∷ buf
    else (k, outputs) ∷ add_output key output buf

pub record Scan : Type 0 where
  pub output_buf : List (TestKey × List Text)
  pub failed_keys : List TestKey
  pub out : Text

-- The switch on the action
unfoldable pub scan_event : GoTestEvent → Scan → Scan
unfolding add_output key_eq text_eq
scan_event ev s =
    if text_eq ev.action (codes "output")
    then record s { output_buf = add_output (key_of ev) ev.output s.output_buf }
    else if text_eq ev.action (codes "fail")
    then (if any (λ k. key_eq k (key_of ev)) s.failed_keys
        then s
        else record s { failed_keys = s.failed_keys ++ key_of ev ∷ [] })
    else s

unfoldable pub scan_line : (Text → Option GoTestEvent) → Text → Scan → Scan
unfolding scan_event text_eq trim_space append_line
scan_line decode raw s =
    let trimmed : Text = trim_space raw in
    if text_eq trimmed [] then s else elim (decode trimmed) [
      | none ↦ record s { out = append_line s.out raw }
      | some ev ↦ scan_event ev s
    ]

unfoldable pub scan_lines : (Text → Option GoTestEvent) → List Text → Scan → Scan
unfolding scan_line
scan_lines decode [] s = s
scan_lines decode (raw ∷ ls) s = scan_lines decode ls (scan_line decode raw s)

-- "ok (%d pass)\n"
unfoldable pub pass_summary : ℕ → Text
unfolding decimal
pass_summary n = codes "ok (" ++ decimal n ++ codes " pass)" ++ newline ∷ []

-- "FAIL %s (%s)\n"
unfoldable pub fail_header : TestKey → Text
unfolding text_eq
fail_header key =
    codes "FAIL "
    ++ (if text_eq key.test [] then key.pkg else key.test)
    ++ codes " ("
    ++ key.pkg
    ++ codes ")"
    ++ newline ∷ []

-- An output event's text, ended by a newline.
unfoldable pub ended : Text → Text
unfolding has_suffix
ended line = if has_suffix line (newline ∷ []) then line else line ++ newline ∷ []

unfoldable pub emit_outputs : Text → List Text → Text
unfolding ended
emit_outputs out [] = out
emit_outputs out (line ∷ outputs) = emit_outputs (out ++ ended line) outputs

unfoldable pub emit_failures : Text → List (TestKey × List Text) → List TestKey → Text
unfolding emit_outputs fail_header buffered
emit_failures out buf [] = out
emit_failures out buf (key ∷ keys) =
    emit_failures (emit_outputs (out ++ fail_header key) (buffered key buf)) buf keys

unfoldable pub filter_go_test_ndjson : (Text → Option GoTestEvent) → List Text → Text
unfolding scan_lines emit_failures pass_summary
filter_go_test_ndjson decode ls =
    let s : Scan = scan_lines decode ls (record { output_buf = []; failed_keys = []; out = [] }) in
    if length s.failed_keys == 0
    then pass_summary (length s.output_buf)
    else emit_failures s.out s.output_buf s.failed_keys
