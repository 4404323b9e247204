-- ===== src/RunFilters/GoTest/Failures.antt =====
-- What filterGoTestNDJSON reports of a run: each failed test with its own output.
use browzer_cli.Prelude.{
  Bool, true, false, not, ◌&&◌, ◌||◌, Option, none, some, List, [], ◌∷◌, ◌++◌, ◌≡◌, refl, sym, ap,
  ◌∙◌, subst, append-nil, append_assoc, any, length, if◌then◌else◌, ◌==◌, Bool-cases, Option-cases,
  inl, inr, arith,
}
use browzer_cli.Prelude.Text.{Text, codes, newline, text_eq, trim_space}
use browzer_cli.Prelude.Text.Laws.{text_eq_iff}
use browzer_cli.RunFilters.Lines.{append_line, unlines, unlines-append}
use browzer_cli.RunFilters.GoTest.Keys.{
  key_eq_iff, is_key, is_key-append, firsts, add_key, add_keys, add_keys-firsts, add_keys-append,
  every_key,
}
use browzer_cli.RunFilters.GoTest.{
  GoTestEvent, TestKey, Scan, key_eq, key_of, buffered, add_output, scan_event, scan_line,
  scan_lines, ended, emit_outputs, emit_failures, fail_header, filter_go_test_ndjson,
}

buffered-add_output :
    (key k : TestKey) (output : Text) (buf : List (TestKey × List Text))
    → buffered k (add_output key output buf)
      ≡ buffered k buf ++ (if key_eq key k then output ∷ [] else [])
unfolding buffered add_output key_eq
buffered-add_output key k output [] = refl
buffered-add_output key k output ((j, outputs) ∷ buf) = ground (
  arith,
  text_eq_iff key.pkg k.pkg,
  text_eq_iff key.test k.test,
  text_eq_iff j.pkg k.pkg,
  text_eq_iff j.test k.test,
  text_eq_iff j.pkg key.pkg,
  text_eq_iff j.test key.test,
  append-nil outputs,
  append-nil (buffered k buf),
  buffered-add_output key k output buf,
)

module _ (decode : Text → Option GoTestEvent) where
  -- The event of a line, if it is one.
  abbrev pub event : Text → Option GoTestEvent
  event raw = if text_eq (trim_space raw) [] then none else decode (trim_space raw)

  abbrev pub output_of : TestKey → Text → List Text
  output_of k raw = elim (event raw) [
    | some ev ↦
        if text_eq ev.action (codes "output") && key_eq (key_of ev) k then ev.output ∷ [] else []
    | none ↦ []
  ]

  -- What the test has written, in order.
  abbrev pub outputs : TestKey → List Text → List Text
  outputs k [] = []
  outputs k (raw ∷ ls) = output_of k raw ++ outputs k ls

  scan_line-buffered :
      (k : TestKey) (raw : Text) (s : Scan)
      → buffered k (scan_line decode raw s).output_buf ≡ buffered k s.output_buf ++ output_of k raw
  unfolding scan_line scan_event
  scan_line-buffered k raw s = elim (Bool-cases (text_eq (trim_space raw) [])) [
    | inl e ↦ rw (output_of, event, e) (sym (append-nil (buffered k s.output_buf)))
    | inr e ↦ elim (Option-cases (decode (trim_space raw))) [
      | inl n ↦ rw (output_of, event, e, n) (sym (append-nil (buffered k s.output_buf)))
      | inr (ev, v) ↦
          rw (output_of, event, e, v)
            (ground (
              arith,
              append-nil (buffered k s.output_buf),
              buffered-add_output (key_of ev) k ev.output s.output_buf,
            ))
    ]
  ]

  scan_lines-buffered :
      (k : TestKey) (ls : List Text) (s : Scan)
      → buffered k (scan_lines decode ls s).output_buf ≡ buffered k s.output_buf ++ outputs k ls
  unfolding scan_lines
  scan_lines-buffered k [] s = sym (append-nil (buffered k s.output_buf))
  scan_lines-buffered k (raw ∷ ls) s =
      scan_lines-buffered k ls (scan_line decode raw s)
      ∙ ap (λ xs. xs ++ outputs k ls) (scan_line-buffered k raw s)
      ∙ append_assoc (buffered k s.output_buf) (output_of k raw) (outputs k ls)

  -- The lines that are no events.
  abbrev pub other_of : Text → List Text
  other_of raw =
      if text_eq (trim_space raw) []
      then []
      else elim (decode (trim_space raw)) [ some ev ↦ [] | none ↦ raw ∷ [] ]

  abbrev pub others : List Text → List Text
  others [] = []
  others (raw ∷ ls) = other_of raw ++ others ls

  scan_line-out :
      (raw : Text) (s : Scan) → (scan_line decode raw s).out ≡ s.out ++ unlines (other_of raw)
  unfolding scan_line scan_event unlines append_line
  scan_line-out raw s = elim (Bool-cases (text_eq (trim_space raw) [])) [
    | inl e ↦ rw e (sym (append-nil s.out))
    | inr e ↦ elim (Option-cases (decode (trim_space raw))) [
      | inl n ↦ rw (e, n) (ap (λ t. s.out ++ t) (sym (append-nil (raw ++ newline ∷ []))))
      | inr (ev, v) ↦ rw (e, v) (ground (arith, append-nil s.out))
    ]
  ]

  -- The test has an event "fail".
  abbrev pub fails_on : TestKey → Text → Bool
  fails_on k raw = elim (event raw) [
    | some ev ↦
        not (text_eq ev.action (codes "output"))
        && text_eq ev.action (codes "fail")
        && key_eq (key_of ev) k
    | none ↦ false
  ]

  abbrev pub fails : TestKey → List Text → Bool
  fails k ls = any (fails_on k) ls

  scan_lines-out :
      (ls : List Text) (s : Scan) → (scan_lines decode ls s).out ≡ s.out ++ unlines (others ls)
  unfolding scan_lines unlines
  scan_lines-out [] s = sym (append-nil s.out)
  scan_lines-out (raw ∷ ls) s =
      scan_lines-out ls (scan_line decode raw s)
      ∙ ap (λ t. t ++ unlines (others ls)) (scan_line-out raw s)
      ∙ append_assoc s.out (unlines (other_of raw)) (unlines (others ls))
      ∙ ap (λ t. s.out ++ t) (sym (unlines-append (other_of raw) (others ls)))

module _ (decode : Text → Option GoTestEvent) where
  known_key :
      (keys : List TestKey) (j k : TestKey)
      → is_key keys j ≡ true
      → is_key keys k ≡ (is_key keys k || key_eq j k)
  known_key keys j k h = elim (Bool-cases (key_eq j k)) [
    | inl e ↦
        subst (λ i. is_key keys i ≡ (is_key keys i || key_eq j i)) ((key_eq_iff j k).0 e)
          (rw (h) refl)
    | inr e ↦ rw e (ground arith)
  ]

  scan_line-failed :
      (k : TestKey) (raw : Text) (s : Scan)
      → is_key (scan_line decode raw s).failed_keys k
        ≡ (is_key s.failed_keys k || fails_on decode k raw)
  unfolding scan_line scan_event
  scan_line-failed k raw s = elim (Bool-cases (text_eq (trim_space raw) [])) [
    | inl e ↦ rw e (ground arith)
    | inr e ↦ elim (Option-cases (decode (trim_space raw))) [
      | inl n ↦ rw (e, n) (ground arith)
      | inr (ev, v) ↦
          rw (e, v)
            (ground (
              arith,
              known_key s.failed_keys (key_of ev) k,
              is_key-append s.failed_keys (key_of ev) k,
            ))
    ]
  ]

  scan_lines-failed :
      (k : TestKey) (ls : List Text) (s : Scan)
      → is_key (scan_lines decode ls s).failed_keys k
        ≡ (is_key s.failed_keys k || fails decode k ls)
  unfolding scan_lines
  scan_lines-failed k [] s = ground arith
  scan_lines-failed k (raw ∷ ls) s =
      ground (arith, scan_lines-failed k ls (scan_line decode raw s), scan_line-failed k raw s)

module _ (decode : Text → Option GoTestEvent) where
  -- The keys of the events "fail", in order.
  abbrev pub fail_key : Text → List TestKey
  fail_key raw = elim (event decode raw) [
    | some ev ↦ if text_eq ev.action (codes "fail") then key_of ev ∷ [] else []
    | none ↦ []
  ]

  abbrev pub fail_keys : List Text → List TestKey
  fail_keys [] = []
  fail_keys (raw ∷ ls) = fail_key raw ++ fail_keys ls

  output_is_no_fail :
      (a : Text) → text_eq a (codes "output") ≡ true → text_eq a (codes "fail") ≡ false
  output_is_no_fail a h =
      ap (λ t. text_eq t (codes "fail")) ((text_eq_iff a (codes "output")).0 h)
      ∙ unfold text_eq in refl

  scan_line-keys :
      (raw : Text) (s : Scan)
      → (scan_line decode raw s).failed_keys ≡ add_keys s.failed_keys (fail_key raw)
  unfolding scan_line scan_event add_keys add_key
  scan_line-keys raw s = elim (Bool-cases (text_eq (trim_space raw) [])) [
    | inl e ↦ rw (fail_key, event, e) refl
    | inr e ↦ elim (Option-cases (decode (trim_space raw))) [
      | inl n ↦ rw (fail_key, event, e, n) refl
      | inr (ev, v) ↦ rw (fail_key, event, e, v) (ground (arith, output_is_no_fail ev.action))
    ]
  ]

  scan_lines-keys :
      (ls : List Text) (s : Scan)
      → (scan_lines decode ls s).failed_keys ≡ add_keys s.failed_keys (fail_keys ls)
  unfolding scan_lines add_keys
  scan_lines-keys [] s = refl
  scan_lines-keys (raw ∷ ls) s =
      scan_lines-keys ls (scan_line decode raw s)
      ∙ ap (λ keys. add_keys keys (fail_keys ls)) (scan_line-keys raw s)
      ∙ sym (add_keys-append s.failed_keys (fail_key raw) (fail_keys ls))

-- The lines of a test's output, each with its end.
unfoldable all_ended : List Text → Text
all_ended [] = []
all_ended (line ∷ ls) = ended line ++ all_ended ls

-- Each test's header, and then its output.
unfoldable pub report : (TestKey → List Text) → List TestKey → Text
unfolding all_ended
report output [] = []
report output (key ∷ keys) = fail_header key ++ (all_ended (output key) ++ report output keys)

emit_outputs-append : (out : Text) (ls : List Text) → emit_outputs out ls ≡ out ++ all_ended ls
unfolding emit_outputs all_ended
emit_outputs-append out [] = sym (append-nil out)
emit_outputs-append out (line ∷ ls) =
    emit_outputs-append (out ++ ended line) ls ∙ append_assoc out (ended line) (all_ended ls)

emit_failures-report :
    (output : TestKey → List Text) (buf : List (TestKey × List Text))
    → ((k : TestKey) → buffered k buf ≡ output k)
    → (out : Text) (keys : List TestKey) → emit_failures out buf keys ≡ out ++ report output keys
unfolding emit_failures report
emit_failures-report output buf agree out [] = sym (append-nil out)
emit_failures-report output buf agree out (key ∷ keys) =
    emit_failures-report output buf agree (emit_outputs (out ++ fail_header key) (buffered key buf))
      keys
    ∙ ap (λ t. t ++ report output keys)
        (emit_outputs-append (out ++ fail_header key) (buffered key buf)
          ∙ ap (λ ls. (out ++ fail_header key) ++ all_ended ls) (agree key)
          ∙ append_assoc out (fail_header key) (all_ended (output key)))
    ∙ append_assoc out (fail_header key ++ all_ended (output key)) (report output keys)
    ∙ ap (λ t. out ++ t)
        (append_assoc (fail_header key) (all_ended (output key)) (report output keys))

some_key : (keys : List TestKey) (k : TestKey) → is_key keys k ≡ true → (length keys == 0) ≡ false
some_key [] k h = cc
some_key (i ∷ keys) k h = ground arith

-- When some test has an event "fail", the output of filterGoTestNDJSON is the lines that are no events,
-- and then, for each test with such an event, once and in the order of the first such events, its
-- header and all that its events of output carry, in their order, each ended by a newline.
pub filter_go_test_ndjson_lem :
    (decode : Text → Option GoTestEvent) (ls : List Text) (k : TestKey)
    → fails decode k ls ≡ true
    → filter_go_test_ndjson decode ls
      ≡ unlines (others decode ls)
        ++ report (λ j. outputs decode j ls) (firsts (fail_keys decode ls))
unfolding filter_go_test_ndjson buffered
filter_go_test_ndjson_lem decode ls k h =
    let start : Scan = record { output_buf = []; failed_keys = []; out = [] } in
    let s : Scan = scan_lines decode ls start in
    let keys : s.failed_keys ≡ firsts (fail_keys decode ls) =
      scan_lines-keys decode ls start
      ∙ add_keys-firsts [] (fail_keys decode ls)
      ∙ every_key (firsts (fail_keys decode ls)) in
    rw (some_key s.failed_keys k (scan_lines-failed decode k ls start ∙ h)) (
      emit_failures-report (λ j. outputs decode j ls) s.output_buf
        (λ j. scan_lines-buffered decode j ls start) s.out s.failed_keys
      ∙ ap (λ t. t ++ report (λ j. outputs decode j ls) s.failed_keys)
          (scan_lines-out decode ls start)
      ∙ ap (λ ks. unlines (others decode ls) ++ report (λ j. outputs decode j ls) ks) keys)
