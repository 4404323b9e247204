-- ===== src/RunFilters/GoTest/Standard.antt =====
-- filterGoTestStandard of internal/commands/runfilters/gotest.go.
use browzer_cli.Prelude.{
  ℕ, ◌+◌, ◌≤◌, Bool, not, ◌&&◌, ◌||◌, List, [], ◌∷◌, ◌++◌, ◌≡◌, refl, sym, ap, ◌∙◌, append-nil,
  append_assoc, length, length-append, select, if◌then◌else◌, ◌==◌, Bool-cases, inl, inr, arith,
}
use browzer_cli.Prelude.Text.{Text, codes, newline, text_eq, trim_space, has_prefix, contains}
use browzer_cli.RunFilters.Lines.{append_line, unlines}
use browzer_cli.RunFilters.GoTest.{pass_summary}

pub record Counts : Type 0 where
  pub pass_count : ℕ
  pub fail_count : ℕ
  pub out : Text

abbrev pub blank : Text → Bool
blank raw = text_eq (trim_space raw) []

-- "--- PASS:", "ok " and "ok\t"
abbrev pub passes : Text → Bool
passes raw =
    has_prefix (trim_space raw) (codes "--- PASS:")
    || has_prefix (trim_space raw) (codes "ok ")
    || has_prefix (trim_space raw) (b'o' ∷ b'k' ∷ 9 ∷ [])

abbrev pub no_test_files : Text → Bool
no_test_files raw =
    has_prefix (trim_space raw) (codes "?") && contains (trim_space raw) (codes "[no test files]")

abbrev pub is_fail : Text → Bool
is_fail raw = has_prefix (trim_space raw) (codes "FAIL")

-- One round of the loop, over the answers of its tests.
abbrev pub round : Bool → Bool → Bool → Bool → Text → Counts → Counts
round is_blank is_pass is_none fails raw s =
    if is_blank
    then s
    else if is_pass
    then record s { pass_count = s.pass_count + 1 }
    else if is_none
    then s
    else record s {
      fail_count = if fails then s.fail_count + 1 else s.fail_count;
      out = append_line s.out raw;
    }

unfoldable pub standard_line : Text → Counts → Counts
unfolding text_eq trim_space has_prefix contains append_line
standard_line raw s = round (blank raw) (passes raw) (no_test_files raw) (is_fail raw) raw s

unfoldable pub standard_lines : List Text → Counts → Counts
unfolding standard_line
standard_lines [] s = s
standard_lines (raw ∷ ls) s = standard_lines ls (standard_line raw s)

-- failCount == 0 && len(out) == 0
unfoldable pub standard_result : Counts → Text
unfolding pass_summary
standard_result s =
    if (s.fail_count == 0) && (length s.out == 0) then pass_summary s.pass_count else s.out

unfoldable pub filter_go_test_standard : List Text → Text
unfolding standard_lines standard_result
filter_go_test_standard ls =
    standard_result (standard_lines ls (record { pass_count = 0; fail_count = 0; out = [] }))

abbrev pub counts_pass : Text → Bool
counts_pass raw = not (blank raw) && passes raw

abbrev pub keeps : Text → Bool
keeps raw = not (blank raw) && not (passes raw) && not (no_test_files raw)

abbrev counts_fail : Text → Bool
counts_fail raw = keeps raw && is_fail raw

-- What a round does to the counts, read off the three predicates.
abbrev after : List Text → Counts → Counts
after ls s = record {
  pass_count = s.pass_count + length (select counts_pass ls);
  fail_count = s.fail_count + length (select counts_fail ls);
  out = s.out ++ unlines (select keeps ls);
}

counts_ext :
    (s t : Counts)
    → s.pass_count ≡ t.pass_count
    → s.fail_count ≡ t.fail_count
    → s.out ≡ t.out
    → s ≡ t
counts_ext s t p f o = λ i. record { pass_count = p i; fail_count = f i; out = o i }

module _ (b p n f : Bool) (raw : Text) (s : Counts) (xs : List Text) where
  round-pass_count :
      (round b p n f raw s).pass_count + length xs
      ≡ s.pass_count + length (if not b && p then raw ∷ xs else xs)
  round-pass_count = ground arith

  round-fail_count :
      (round b p n f raw s).fail_count + length xs
      ≡ s.fail_count + length (if (not b && not p && not n) && f then raw ∷ xs else xs)
  round-fail_count = ground arith

  round-out :
      (round b p n f raw s).out ++ unlines xs
      ≡ s.out ++ unlines (if not b && not p && not n then raw ∷ xs else xs)
  unfolding append_line unlines
  round-out = ground (arith, append_assoc s.out (raw ++ newline ∷ []) (unlines xs))

standard_line-after :
    (raw : Text) (ls : List Text) (s : Counts) → after ls (standard_line raw s) ≡ after (raw ∷ ls) s
unfolding standard_line
standard_line-after raw ls s =
    counts_ext (after ls (standard_line raw s)) (after (raw ∷ ls) s)
      (round-pass_count (blank raw) (passes raw) (no_test_files raw) (is_fail raw) raw s
        (select counts_pass ls))
      (round-fail_count (blank raw) (passes raw) (no_test_files raw) (is_fail raw) raw s
        (select counts_fail ls))
      (round-out (blank raw) (passes raw) (no_test_files raw) (is_fail raw) raw s (select keeps ls))

standard_lines-after : (ls : List Text) (s : Counts) → standard_lines ls s ≡ after ls s
unfolding standard_lines unlines
standard_lines-after [] s =
    counts_ext s (after [] s) (omega arith) (omega arith) (sym (append-nil s.out))
standard_lines-after (raw ∷ ls) s =
    standard_lines-after ls (standard_line raw s) ∙ standard_line-after raw ls s

fails-le-kept : (ls : List Text) → length (select counts_fail ls) ≤ length (select keeps ls)
fails-le-kept [] = omega arith
fails-le-kept (raw ∷ ls) = elim (Bool-cases (keeps raw)) [
  | inl e ↦ elim (Bool-cases (is_fail raw)) [
    | inl g ↦ rw (e, g) (omega (arith, fails-le-kept ls))
    | inr g ↦ rw (e, g) (omega (arith, fails-le-kept ls))
  ]
  | inr e ↦ rw e (fails-le-kept ls)
]

-- The output of filterGoTestStandard is the lines of its input that are not blank, do not report a
-- pass and do not report missing test files, each with its end; when no such line is there, it is
-- the summary with the number of the lines that report a pass.
pub filter_go_test_standard_lem :
    (ls : List Text)
    → filter_go_test_standard ls ≡ (
        if length (select keeps ls) == 0
        then pass_summary (length (select counts_pass ls))
        else unlines (select keeps ls))
unfolding filter_go_test_standard standard_result
filter_go_test_standard_lem ls =
    let start : Counts = record { pass_count = 0; fail_count = 0; out = [] } in
    let end : Counts = record {
      pass_count = length (select counts_pass ls);
      fail_count = length (select counts_fail ls);
      out = unlines (select keeps ls);
    } in
    ap standard_result (
      standard_lines-after ls start
      ∙ counts_ext (after ls start) end (omega arith) (omega arith) refl)
    ∙ summary (select keeps ls) (length (select counts_fail ls)) (length (select counts_pass ls))
        (fails-le-kept ls)
  where
    summary :
        (kept : List Text) (fails n : ℕ)
        → fails ≤ length kept
        → (if (fails == 0) && (length (unlines kept) == 0) then pass_summary n else unlines kept)
          ≡ (if length kept == 0 then pass_summary n else unlines kept)
    summary [] fails n h = unfold unlines in ground arith
    summary (l ∷ kept) fails n h =
        unfold unlines in
        ground
          (arith, length-append (l ++ newline ∷ []) (unlines kept), length-append l (newline ∷ []))
