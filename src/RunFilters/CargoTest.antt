-- ===== src/RunFilters/CargoTest.antt =====
-- filterCargoTestStandard of internal/commands/runfilters/cargotest.go.
mod Samples
use browzer_cli.Prelude.{
  Bool, true, false, not, ◌&&◌, ◌||◌, List, [], ◌∷◌, ◌++◌, ◌≡◌, refl, ◌⊎◌, sym, ap, ◌∙◌,
  append_assoc, append-nil, subst, if◌then◌else◌, select, Bool-cases, inl, inr, arith,
}
use browzer_cli.Prelude.Text.{
  Text, codes, newline, text_eq, trim_space, has_prefix, has_suffix, contains,
}
use browzer_cli.Prelude.Text.Laws.{text_eq_iff}
use browzer_cli.RunFilters.Lines.{append_line, unlines}

-- The early returns of the loop, over the answers of its tests: whether the line is kept, and
-- whether the section "failures:" is open after it.
abbrev pub decide : Bool → Bool → Bool → Bool → Bool → Bool × Bool
decide in_failures blank header result failed =
    if blank
    then (in_failures, in_failures)
    else if header
    then (true, true)
    else if in_failures
    then (if result then (true, false) else (true, true))
    else if failed
    then (true, false)
    else if result
    then (true, false)
    else (false, false)

unfoldable pub cargo_line : Bool → Text → Bool × Bool
unfolding trim_space text_eq has_prefix has_suffix contains
cargo_line in_failures raw =
    let trimmed : Text = trim_space raw in
    decide in_failures (text_eq trimmed []) (text_eq trimmed (codes "failures:"))
      (has_prefix trimmed (codes "test result:"))
      (has_suffix trimmed (codes "... FAILED") || contains trimmed (codes "FAILED"))

unfoldable pub cargo_loop : Bool → Text → List Text → Text
unfolding cargo_line append_line
cargo_loop in_failures out [] = out
cargo_loop in_failures out (raw ∷ ls) =
    let (kept, next) = cargo_line in_failures raw in
    cargo_loop next (if kept then append_line out raw else out) ls

unfoldable pub filter_cargo_test_standard : List Text → Text
unfolding cargo_loop
filter_cargo_test_standard ls = cargo_loop false [] ls

-- The lines that are written.
unfoldable pub cargo_kept : Bool → List Text → List Text
unfolding cargo_line
cargo_kept in_failures [] = []
cargo_kept in_failures (raw ∷ ls) =
    let (kept, next) = cargo_line in_failures raw in
    let rest = cargo_kept next ls in if kept then raw ∷ rest else rest

cargo_loop-kept :
    (b : Bool) (out : Text) (ls : List Text)
    → cargo_loop b out ls ≡ out ++ unlines (cargo_kept b ls)
unfolding cargo_loop cargo_kept unlines append_line
cargo_loop-kept b out [] = sym (append-nil out)
cargo_loop-kept b out (l ∷ ls) = elim (Bool-cases (cargo_line b l).0) [
  | inl e ↦ rw e (
      cargo_loop-kept (cargo_line b l).1 (append_line out l) ls
      ∙ append_assoc out (l ++ newline ∷ []) (unlines (cargo_kept (cargo_line b l).1 ls)))
  | inr e ↦ rw e (cargo_loop-kept (cargo_line b l).1 out ls)
]

-- The header of the failures, and the line that ends them.
abbrev pub opens : Text → Bool
unfolding text_eq trim_space
opens l = text_eq (trim_space l) (codes "failures:")

abbrev pub closes : Text → Bool
unfolding has_prefix trim_space
closes l = has_prefix (trim_space l) (codes "test result:")

-- The line reports a failure.
abbrev pub reports_failure : Text → Bool
unfolding has_suffix contains trim_space
reports_failure l =
    has_suffix (trim_space l) (codes "... FAILED") || contains (trim_space l) (codes "FAILED")

-- Of the lines before, the last first: the failures are open behind a header with no end since.
abbrev pub is_open : List Text → Bool
is_open [] = false
is_open (l ∷ before) = opens l || (not (closes l) && is_open before)

abbrev pub is_written : List Text → Text → Bool
is_written before l = is_open before || opens l || closes l || reports_failure l

-- The lines that are to be written, behind those before.
unfoldable pub written : List Text → List Text → List Text
unfolding opens closes reports_failure
written before [] = []
written before (l ∷ ls) =
    let rest = written (l ∷ before) ls in if is_written before l then l ∷ rest else rest

-- A blank line is no header, no end and no report.
blank_line :
    (t : Text)
    → text_eq t [] ≡ true
    → (text_eq t (codes "failures:") ≡ false)
      × (has_prefix t (codes "test result:") ≡ false)
      × ((has_suffix t (codes "... FAILED") || contains t (codes "FAILED")) ≡ false)
unfolding text_eq has_prefix has_suffix contains
blank_line [] h = (refl, refl, refl)
blank_line (c ∷ t) h = cc

-- A header is no end.
header_line :
    (t : Text) → text_eq t (codes "failures:") ≡ true → has_prefix t (codes "test result:") ≡ false
header_line t h =
    ap (λ s. has_prefix s (codes "test result:")) ((text_eq_iff t (codes "failures:")).0 h)
    ∙ unfold has_prefix in refl

decide-written :
    (b blank header result failed : Bool)
    → (blank ≡ true → (header ≡ false) × (result ≡ false) × (failed ≡ false))
    → (header ≡ true → result ≡ false)
    → ((decide b blank header result failed).0 ≡ (b || header || result || failed))
      × ((decide b blank header result failed).1 ≡ (header || (not result && b)))
decide-written b true header result failed h k =
    let parts = h refl in rw (parts.0, parts.1, parts.2) (ground arith)
decide-written b false true result failed h k = rw (k refl) (ground arith)
decide-written b false false result failed h k = ground arith

-- What a line does, by the lines before it.
cargo_line-written :
    (before : List Text) (l : Text)
    → ((cargo_line (is_open before) l).0 ≡ is_written before l)
      × ((cargo_line (is_open before) l).1 ≡ is_open (l ∷ before))
unfolding cargo_line opens closes reports_failure
cargo_line-written before l =
    let t : Text = trim_space l in
    decide-written (is_open before) (text_eq t []) (text_eq t (codes "failures:"))
      (has_prefix t (codes "test result:"))
      (has_suffix t (codes "... FAILED") || contains t (codes "FAILED")) (blank_line t)
      (header_line t)

-- A dropped line leaves the section as it is.
dropped-is_open :
    (before : List Text) (l : Text)
    → is_written before l ≡ false
    → is_open (l ∷ before) ≡ is_open before
dropped-is_open before l h = ground arith

cargo_kept-written :
    (before : List Text) (ls : List Text) → cargo_kept (is_open before) ls ≡ written before ls
unfolding cargo_kept written
cargo_kept-written before [] = refl
cargo_kept-written before (l ∷ ls) =
    let facts = cargo_line-written before l in
    rw (facts.0, facts.1, cargo_kept-written (l ∷ before) ls)

-- What is written is all written again, behind any lines that leave the failures open or closed alike.
written-again :
    (b c : List Text) (ls : List Text)
    → is_open b ≡ is_open c
    → written c (written b ls) ≡ written b ls
unfolding written
written-again b c [] e = refl
written-again b c (l ∷ ls) e = elim (Bool-cases (is_written b l)) [
  | inl w ↦
      let w' : is_written c l ≡ true = ground arith in
      let e' : is_open (l ∷ b) ≡ is_open (l ∷ c) = ground arith in
      rw (w, w') (ap (λ xs. l ∷ xs) (written-again (l ∷ b) (l ∷ c) ls e'))
  | inr w ↦ rw w (written-again (l ∷ b) c ls (dropped-is_open b l w ∙ e))
]

-- filterCargoTestStandard writes exactly these lines of its input, whole and in order: those that,
-- trimmed, are the header "failures:", begin with "test result:", end in "... FAILED" or contain
-- "FAILED"; and all lines,
-- blank ones too, that stand behind such a header with no line that begins with "test result:" in
-- between. Filtering the lines that it wrote again keeps all of them.
pub filter_cargo_test_standard_lem :
    (ls : List Text)
    → (filter_cargo_test_standard ls ≡ unlines (written [] ls))
      × (filter_cargo_test_standard (written [] ls) ≡ unlines (written [] ls))
unfolding filter_cargo_test_standard
filter_cargo_test_standard_lem ls = (
  cargo_loop-kept false [] ls ∙ ap unlines (cargo_kept-written [] ls),
  cargo_loop-kept false [] (written [] ls)
      ∙ ap unlines (cargo_kept-written [] (written [] ls) ∙ written-again [] [] ls refl),
)
