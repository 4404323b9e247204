-- ===== src/RunFilters/Git/Diff/Counts.antt =====
-- The number of lines that the collapse of a new file announces.
use browzer_cli.Prelude.{
  ℕ, ◌+◌, ◌<◌, ◌≡◌, refl, true, false, none, some, List, [], ◌∷◌, ◌++◌, arith, length, inl, All,
}
use browzer_cli.Prelude.Text.{Text, codes}
use browzer_cli.RunFilters.Git.Diff.{
  State, flushed, flush_hunk, hunk_line, open_hunk, step, run, binary_match, header_match,
  open_file, is_metadata, collapsed,
}
use browzer_cli.RunFilters.Git.Diff.Hunks.{body-step}

-- A line that a hunk adds.
abbrev pub IsAdded : Text → Type 0
IsAdded raw = (l : Text) × (raw ≡ b'+' ∷ l) × (is_metadata (b'+' ∷ l) ≡ false)

-- What added lines do to the state: they are counted, and nothing else about the file changes.
record Adds (n : ℕ) (s t : State) : Type 0 where
  counted : t.hunk_add_count ≡ s.hunk_add_count + n
  removed : t.hunk_del_count ≡ s.hunk_del_count
  inside : t.in_hunk ≡ s.in_hunk
  pending : t.pending_collapse ≡ s.pending_collapse
  new : t.in_new_file ≡ s.in_new_file
  file : t.current_file ≡ s.current_file

step-Adds : (s : State) (raw : Text) → IsAdded raw → s.in_hunk ≡ true → Adds 1 s (step s raw)
step-Adds s raw (l, e, plain) inside =
    rw (e, body-step b'+' l (inl refl) s plain inside)
      (unfold hunk_line in
        (record {
          counted = ground arith;
          removed = ground arith;
          inside = ground arith;
          pending = ground arith;
          new = ground arith;
          file = ground arith;
        }))

run-Adds :
    (s : State) (ls : List Text) → All IsAdded ls → s.in_hunk ≡ true → Adds (length ls) s (run s ls)
unfolding run
run-Adds s [] h inside = record {
  counted = omega arith;
  removed = refl;
  inside = refl;
  pending = refl;
  new = refl;
  file = refl;
}
run-Adds s (raw ∷ ls) (h, hs) inside =
    let one = step-Adds s raw h inside in
    let more = run-Adds (step s raw) ls hs (cc) in
    record {
      counted = omega (arith, one.counted, more.counted);
      removed = cc;
      inside = cc;
      pending = cc;
      new = cc;
      file = cc;
    }

run-append : (s : State) (xs ys : List Text) → run s (xs ++ ys) ≡ run (run s xs) ys
unfolding run
run-append s [] ys = refl
run-append s (x ∷ xs) ys = run-append (step s x) xs ys

step-dev_null :
    (s : State)
    → step s (codes "--- /dev/null") ≡ record s { in_new_file = true; in_deleted_file = false }
unfolding step binary_match header_match
step-dev_null s = refl

step-hunk :
    (s : State) (hunk : Text)
    → step s (b'@' ∷ b'@' ∷ hunk) ≡ open_hunk (b'@' ∷ b'@' ∷ hunk) (flush_hunk s)
unfolding step binary_match header_match
step-hunk s hunk = refl

step-header :
    (s : State) (header file : Text)
    → s.pending_collapse ≡ false
    → binary_match header ≡ none
    → header_match header ≡ some file
    → step s header ≡ open_file header file s
step-header s header file idle plain names = unfold step in rw (plain, names, step) (ground arith)

-- The section of a new file: its header, the line about /dev/null, and the header of its hunk.
abbrev pub opening : Text → Text → List Text
opening header hunk = header ∷ codes "--- /dev/null" ∷ (b'@' ∷ b'@' ∷ hunk) ∷ []

-- After that section's first three lines the counts are those of the hunk before.
record Opened (file : Text) (s t : State) : Type 0 where
  added : t.hunk_add_count ≡ s.hunk_add_count
  removed : t.hunk_del_count ≡ s.hunk_del_count
  inside : t.in_hunk ≡ true
  pending : t.pending_collapse ≡ true
  new : t.in_new_file ≡ true
  named : t.current_file ≡ file

run-Opened :
    (s : State) (header hunk file : Text)
    → s.pending_collapse ≡ false
    → binary_match header ≡ none
    → header_match header ≡ some file
    → Opened file s (run s (opening header hunk))
unfolding run
run-Opened s header hunk file idle plain names =
    rw (step-header s header file idle plain names, step-dev_null, step-hunk)
      (unfold flush_hunk open_hunk in
        (record {
          added = ground arith;
          removed = ground arith;
          inside = ground arith;
          pending = ground arith;
          new = ground arith;
          named = ground arith;
        }))

-- A new file's section behind a hunk of a modified file is announced with the lines that both added
-- together: flushHunk keeps the counters of a hunk that is not collapsed.
pub collapse_counts_earlier :
    (s : State) (adds news : List Text) (header hunk file : Text)
    → s.in_hunk ≡ true
    → s.pending_collapse ≡ false
    → s.hunk_del_count ≡ 0
    → All IsAdded adds
    → All IsAdded news
    → 0 < length news
    → binary_match header ≡ none
    → header_match header ≡ some file
    → flushed (run s (adds ++ (opening header hunk ++ news)))
      ≡ collapsed b'+' file (s.hunk_add_count + length adds + length news) ∷ []
unfolding flushed
collapse_counts_earlier s adds news header hunk file inside idle none_removed h k some_new plain
      names =
    let a = run-Adds s adds h inside in
    let t = run s adds in
    let o = run-Opened t header hunk file (cc a.pending) plain names in
    let u = run t (opening header hunk) in
    let b = run-Adds u news k o.inside in
    let e : (run u news).hunk_add_count ≡ s.hunk_add_count + length adds + length news =
      omega (arith, a.counted, o.added, b.counted) in
    rw (run-append s adds (opening header hunk ++ news), run-append t (opening header hunk) news)
      (ground (arith, e, a.removed, o.removed, b.removed, o.new, b.new, o.named, b.file))
