-- ===== src/RunFilters/Git/Samples.antt =====
-- Tests of the git filter on concrete diffs, and its theorems at concrete inputs.
use browzer_cli.Prelude.{◌≤◌, ◌≡◌, refl, true, some, List, [], ◌∷◌, ◌++◌, arith, length, inl, inr}
use browzer_cli.Prelude.Text.{Text, codes}
use browzer_cli.Prelude.Decimal.{decimal}
use browzer_cli.RunFilters.Git.Diff.{
  State, init, run, open_hunk, flushed, collapsed, binary_match, header_match, compressed,
  is_metadata,
}
use browzer_cli.RunFilters.Git.Diff.Bounds.{length-compressed}
use browzer_cli.RunFilters.Git.Diff.Hunks.{hunk_cap}
use browzer_cli.RunFilters.Git.Diff.Counts.{opening, collapse_counts_earlier}

binary_name :
    binary_match (codes "Binary files a/x and y.png and b/x and y.png differ")
    ≡ some (codes "a/x and y.png and b/x")
unfolding binary_match
binary_name = refl

header_name : header_match (codes "diff --git a/x.go b/x.go") ≡ some (codes "x.go")
unfolding header_match
header_name = refl

abbrev new_header : Text
new_header = codes "diff --git a/new.go b/new.go"

abbrev small_diff : List Text
small_diff =
    codes "diff --git a/m.go b/m.go"
    ∷ codes "index 1..2 100644"
    ∷ codes "@@ -1 +1,2 @@"
    ∷ codes " keep"
    ∷ codes "+one"
    ∷ new_header
    ∷ codes "--- /dev/null"
    ∷ codes "@@ -0,0 +1,1 @@"
    ∷ codes "+two"
    ∷ []

-- One line is added to the new file, and the summary says two.
compressed_runs :
    compressed small_diff
    ≡ codes "diff --git a/m.go b/m.go"
      ∷ codes "@@ -1 +1,2 @@"
      ∷ codes " keep"
      ∷ codes "+one"
      ∷ new_header
      ∷ codes "+ new.go (2 lines)"
      ∷ []
unfolding compressed binary_match header_match decimal
compressed_runs = refl

-- The state inside the hunk of a modified file.
abbrev in_modified : State
in_modified = record init { in_hunk = true; current_file = codes "m.go" }

collapse_counts_earlier_example :
    flushed (
      run in_modified
        ((codes "+one" ∷ []) ++ (opening new_header (codes " -0,0 +1 @@") ++ codes "+two" ∷ [])))
    ≡ collapsed b'+' (codes "new.go") 2 ∷ []
unfolding is_metadata binary_match header_match
collapse_counts_earlier_example =
    collapse_counts_earlier in_modified (codes "+one" ∷ []) (codes "+two" ∷ []) new_header
      (codes " -0,0 +1 @@") (codes "new.go") refl refl refl ((codes "one", refl, refl), tt)
      ((codes "two", refl, refl), tt) (omega arith) refl refl

length-compressed_example : length (compressed small_diff) ≤ 9
length-compressed_example = length-compressed small_diff

hunk_cap_example :
    length (run (open_hunk (codes "@@ -1 +1 @@") init) (codes "+a" ∷ codes "-b" ∷ [])).out ≤ 25
unfolding is_metadata
hunk_cap_example =
    hunk_cap (codes "@@ -1 +1 @@") init (codes "+a" ∷ codes "-b" ∷ []) refl refl
      ((b'+', codes "a", refl, inl refl, refl), ((b'-', codes "b", refl, inr (inl refl), refl), tt))
