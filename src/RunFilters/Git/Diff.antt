-- ===== src/RunFilters/Git/Diff.antt =====
-- compressGitDiff of internal/commands/runfilters/git.go: the state of its loop over the lines of a
-- diff, and one round of it. `out` holds the lines that `appendLine` wrote, without their ends.
pub mod Bounds
pub mod Hunks
pub mod Counts
use browzer_cli.Prelude.{
  ℕ, ◌+◌, Bool, true, false, not, ◌&&◌, ◌||◌, Option, none, some, List, [], ◌∷◌, ◌++◌,
  if◌then◌else◌, ltb, leb, ◌==◌, length, drop,
}
use browzer_cli.Prelude.Text.{Text, codes, has_prefix, contains, text_eq}
use browzer_cli.Prelude.Decimal.{decimal}
use browzer_cli.RunFilters.Lines.{lines, unlines}

abbrev pub max_modification_lines : ℕ
max_modification_lines = 20

pub record State : Type 0 where
  pub out : List Text
  pub current_file : Text
  pub in_new_file : Bool
  pub in_deleted_file : Bool
  pub in_hunk : Bool
  pub hunk_add_count : ℕ
  pub hunk_del_count : ℕ
  pub context_in_hunk : ℕ
  pub emitted_mod_lines : ℕ
  pub truncated_summary : Bool
  pub hunk_lines : List Text
  pub pending_collapse : Bool

abbrev pub init : State
init = record {
  out = [];
  current_file = [];
  in_new_file = false;
  in_deleted_file = false;
  in_hunk = false;
  hunk_add_count = 0;
  hunk_del_count = 0;
  context_in_hunk = 0;
  emitted_mod_lines = 0;
  truncated_summary = false;
  hunk_lines = [];
  pending_collapse = false;
}

-- appendLine
abbrev pub append_line : Text → State → State
append_line l s = record s { out = s.out ++ l ∷ [] }

-- "%c %s (%d lines)"
abbrev pub collapsed : ℕ → Text → ℕ → Text
collapsed sign file n = sign ∷ codes " " ++ (file ++ (codes " (" ++ (decimal n ++ codes " lines)")))

-- What flushHunk writes for the hunk that it closes.
unfoldable pub flushed : State → List Text
flushed s =
    if s.in_new_file && (s.hunk_del_count == 0 && ltb 0 s.hunk_add_count)
    then collapsed b'+' s.current_file s.hunk_add_count ∷ []
    else if s.in_deleted_file && (s.hunk_add_count == 0 && ltb 0 s.hunk_del_count)
    then collapsed b'-' s.current_file s.hunk_del_count ∷ []
    else s.hunk_lines

-- flushHunk: without a pending collapse it returns at once, and resets no counter.
unfoldable pub flush_hunk : State → State
unfolding flushed
flush_hunk s = if not s.pending_collapse then s else record s {
  out = s.out ++ flushed s;
  hunk_lines = [];
  hunk_add_count = 0;
  hunk_del_count = 0;
  context_in_hunk = 0;
  in_hunk = false;
  pending_collapse = false;
}

-- (.+): the longest part in front of a rest that passes the test.
unfoldable pub greedy : (Text → Bool) → Text → Option Text
greedy rest_ok [] = none
greedy rest_ok (c ∷ s) = elim (greedy rest_ok s) [
  | some g ↦ some (c ∷ g)
  | none ↦ if rest_ok s then some (c ∷ []) else none
]

-- ".+ differ" after " and "
abbrev differs : Text → Bool
differs [] = false
differs (c ∷ s) = contains s (codes " differ")

-- gitBinaryRe: ^Binary files (.+) and .+ differ
unfoldable pub binary_match : Text → Option Text
unfolding greedy has_prefix contains
binary_match raw =
    if has_prefix raw (codes "Binary files ")
    then greedy (λ s. has_prefix s (codes " and ") && differs (drop 5 s)) (drop 13 raw)
    else none

-- gitDiffHeaderRe: ^diff --git a/(.+) b/
unfoldable pub header_match : Text → Option Text
unfolding greedy has_prefix
header_match raw =
    if has_prefix raw (codes "diff --git a/")
    then greedy (λ s. has_prefix s (codes " b/")) (drop 13 raw)
    else none

-- if len(name) > 2 && name[:2] == "a/" { name = name[2:] }
unfoldable pub short_name : Text → Text
unfolding has_prefix
short_name name = if ltb 2 (length name) && has_prefix name (codes "a/") then drop 2 name else name

unfoldable pub is_metadata : Text → Bool
unfolding has_prefix
is_metadata raw =
    has_prefix raw (codes "--- ")
    || has_prefix raw (codes "+++ ")
    || has_prefix raw (codes "index ")
    || has_prefix raw (codes "new file mode")
    || has_prefix raw (codes "deleted file mode")
    || has_prefix raw (codes "old mode")
    || has_prefix raw (codes "new mode")

-- emitMod
unfoldable pub emit_mod : Text → State → State
emit_mod line s =
    if s.pending_collapse
    then record s { hunk_lines = s.hunk_lines ++ line ∷ [] }
    else if ltb s.emitted_mod_lines max_modification_lines
    then record s { out = s.out ++ line ∷ []; emitted_mod_lines = s.emitted_mod_lines + 1 }
    else if not s.truncated_summary
    then record s {
      out = s.out ++ codes "... (further changes truncated)" ∷ [];
      truncated_summary = true;
    }
    else s

unfoldable pub context_line : Text → State → State
context_line raw s =
    if s.pending_collapse
    then record s { hunk_lines = s.hunk_lines ++ raw ∷ [] }
    else if ltb s.context_in_hunk 3
    then record s { context_in_hunk = s.context_in_hunk + 1; out = s.out ++ raw ∷ [] }
    else s

unfoldable pub other_line : Text → State → State
other_line raw s =
    if s.pending_collapse
    then record s { hunk_lines = s.hunk_lines ++ raw ∷ [] }
    else append_line raw s

-- The switch on the first byte of a line inside a hunk.
unfoldable pub hunk_line : Text → State → State
unfolding emit_mod context_line other_line
hunk_line [] s = context_line [] s
hunk_line (c ∷ l) s =
    if c == b'+'
    then emit_mod (c ∷ l) (record s { hunk_add_count = s.hunk_add_count + 1 })
    else if c == b'-'
    then emit_mod (c ∷ l) (record s { hunk_del_count = s.hunk_del_count + 1 })
    else if c == b' '
    then context_line (c ∷ l) s
    else other_line (c ∷ l) s

-- A line "@@ ...", after flushHunk.
unfoldable pub open_hunk : Text → State → State
open_hunk raw s =
    let t : State = record s {
      in_hunk = true;
      pending_collapse = s.in_new_file || s.in_deleted_file;
      context_in_hunk = 0;
      emitted_mod_lines = 0;
      truncated_summary = false;
    } in
    if t.pending_collapse
    then record t { hunk_lines = t.hunk_lines ++ raw ∷ [] }
    else append_line raw t

-- The rest of a round, when the line is neither a binary notice nor the header of a file.
unfoldable pub plain_line : Text → State → State
unfolding flush_hunk hunk_line open_hunk is_metadata text_eq
plain_line raw s =
    if text_eq raw (codes "--- /dev/null")
    then record s { in_new_file = true; in_deleted_file = false }
    else if text_eq raw (codes "+++ /dev/null")
    then record s { in_new_file = false; in_deleted_file = true }
    else if is_metadata raw
    then s
    else if has_prefix raw (codes "@@")
    then open_hunk raw (flush_hunk s)
    else if not s.in_hunk
    then append_line raw s
    else hunk_line raw s

-- A line "diff --git a/<file> b/...", after flushHunk.
abbrev pub open_file : Text → Text → State → State
open_file raw file s = append_line raw (record s {
  current_file = file;
  in_new_file = false;
  in_deleted_file = false;
  in_hunk = false;
})

-- One round of the loop.
unfoldable pub step : State → Text → State
unfolding flush_hunk plain_line short_name
step s raw = elim (binary_match raw) [
  | some name ↦ append_line (codes "Bin: " ++ short_name name) (flush_hunk s)
  | none ↦ elim (header_match raw) [
    | some file ↦ open_file raw file (flush_hunk s)
    | none ↦ plain_line raw s
  ]
]

unfoldable pub run : State → List Text → State
unfolding step
run s [] = s
run s (raw ∷ rest) = run (step s raw) rest

-- lines[:len(lines)-1] when the last one is empty
unfoldable pub drop_last_empty : List Text → List Text
drop_last_empty [] = []
drop_last_empty ([] ∷ []) = []
drop_last_empty (l ∷ []) = l ∷ []
drop_last_empty (l ∷ k ∷ ls) = l ∷ drop_last_empty (k ∷ ls)

-- The lines that the loop writes, the last flush included.
unfoldable pub compressed : List Text → List Text
unfolding run flush_hunk
compressed ls = (flush_hunk (run init ls)).out

unfoldable pub compress_git_diff : Text → Text
unfolding compressed drop_last_empty lines unlines
compress_git_diff stdout =
    let ls : List Text = drop_last_empty (lines stdout) in
    if leb (length ls) 30 then stdout else unlines (compressed ls)
