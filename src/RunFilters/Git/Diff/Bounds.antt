-- ===== src/RunFilters/Git/Diff/Bounds.antt =====
-- What compressing a diff can and cannot do to its length.
use browzer_cli.Prelude.{
  ℕ, ◌+◌, ◌≤◌, ◌≡◌, refl, true, false, List, [], ◌∷◌, ◌++◌, arith, ◌==◌, length, length-append,
  if_intro, Option-cases, inl, inr,
}
use browzer_cli.Prelude.Text.{Text, codes}
use browzer_cli.RunFilters.Git.Diff.{
  State, init, flushed, flush_hunk, emit_mod, context_line, other_line, hunk_line, open_hunk,
  plain_line, step, run, compressed, binary_match, header_match, append_line, short_name, open_file,
}

-- At most `n` lines are written or held back, and a pending collapse holds back its hunk's header.
record Fits (n : ℕ) (s : State) : Type 0 where
  weight : length s.out + length s.hunk_lines ≤ n
  header : s.pending_collapse ≡ true → 1 ≤ length s.hunk_lines
  idle : s.pending_collapse ≡ false → s.hunk_lines ≡ []

module _ {n : ℕ} {s : State} (v : Fits n s) where
  flush_hunk-Fits : Fits n (flush_hunk s) × ((flush_hunk s).pending_collapse ≡ false)
  unfolding flush_hunk flushed
  flush_hunk-Fits = ground (arith, length-append s.out (flushed s), v.header, v.idle)

  module _ (raw : Text) where
    append_line-Fits : Fits (n + 1) (append_line raw s)
    append_line-Fits = ground (arith, length-append s.out (raw ∷ []))

    emit_mod-Fits : Fits (n + 1) (emit_mod raw s)
    unfolding emit_mod
    emit_mod-Fits = ground (
      arith,
      length-append s.out (raw ∷ []),
      length-append s.hunk_lines (raw ∷ []),
      length-append s.out (codes "... (further changes truncated)" ∷ []),
      v.header,
      v.idle,
    )

    keep_line-Fits : Fits (n + 1) (context_line raw s) × Fits (n + 1) (other_line raw s)
    unfolding context_line other_line
    keep_line-Fits = ground (
      arith,
      length-append s.out (raw ∷ []),
      length-append s.hunk_lines (raw ∷ []),
      v.header,
      v.idle,
    )

    open_hunk-Fits : s.pending_collapse ≡ false → Fits (n + 1) (open_hunk raw s)
    unfolding open_hunk
    open_hunk-Fits shut = ground (
      arith,
      length-append s.out (raw ∷ []),
      length-append s.hunk_lines (raw ∷ []),
      v.header,
      v.idle,
    )

  Fits-mono : Fits (n + 1) s
  Fits-mono = record { weight = omega arith; header = v.header; idle = v.idle }

hunk_line-Fits : {n : ℕ} {s : State} (raw : Text) → Fits n s → Fits (n + 1) (hunk_line raw s)
unfolding hunk_line
hunk_line-Fits [] v = (keep_line-Fits v []).0
hunk_line-Fits {n} {s} (c ∷ l) v =
    let added : State = record s { hunk_add_count = s.hunk_add_count + 1 } in
    let removed : State = record s { hunk_del_count = s.hunk_del_count + 1 } in
    let va : Fits n added = record { weight = v.weight; header = v.header; idle = v.idle } in
    let vr : Fits n removed = record { weight = v.weight; header = v.header; idle = v.idle } in
    if_intro (Fits (n + 1)) (c == b'+') (emit_mod-Fits va (c ∷ l)) (
      if_intro (Fits (n + 1)) (c == b'-') (emit_mod-Fits vr (c ∷ l)) (
        if_intro (Fits (n + 1)) (c == b' ') (keep_line-Fits v (c ∷ l)).0
          (keep_line-Fits v (c ∷ l)).1))

plain_line-Fits : {n : ℕ} {s : State} (raw : Text) → Fits n s → Fits (n + 1) (plain_line raw s)
unfolding plain_line
plain_line-Fits {n} {s} raw v =
    let new : Fits (n + 1) (record s { in_new_file = true; in_deleted_file = false }) = record {
      weight = (Fits-mono v).weight;
      header = v.header;
      idle = v.idle;
    } in
    let deleted : Fits (n + 1) (record s { in_new_file = false; in_deleted_file = true }) = record {
      weight = (Fits-mono v).weight;
      header = v.header;
      idle = v.idle;
    } in
    let (closed, shut) = flush_hunk-Fits v in
    if_intro (Fits (n + 1)) _ new (
      if_intro (Fits (n + 1)) _ deleted (
        if_intro (Fits (n + 1)) _ (Fits-mono v) (
          if_intro (Fits (n + 1)) _ (open_hunk-Fits closed raw shut)
            (if_intro (Fits (n + 1)) _ (append_line-Fits v raw) (hunk_line-Fits raw v)))))

-- One round writes or holds back one line more, at most.
step-Fits : {n : ℕ} {s : State} (raw : Text) → Fits n s → Fits (n + 1) (step s raw)
unfolding step
step-Fits {n} {s} raw v =
    let (closed, shut) = flush_hunk-Fits v in
    elim (Option-cases (binary_match raw)) [
      | inr (name, e) ↦ rw (e, step) (append_line-Fits closed (codes "Bin: " ++ short_name name))
      | inl e ↦
          rw (e, step)
            (elim (Option-cases (header_match raw)) [
              | inr (file, e') ↦ rw e' (opened file closed)
              | inl e' ↦ rw e' (plain_line-Fits raw v)
            ])
    ]
  where
    opened : (file : Text) {t : State} → Fits n t → Fits (n + 1) (open_file raw file t)
    opened file {t} w = ground (arith, length-append t.out (raw ∷ []), w.header, w.idle)

run-Fits : (ls : List Text) (n : ℕ) (s : State) → Fits n s → Fits (n + length ls) (run s ls)
unfolding run
run-Fits [] n s v = record { weight = omega arith; header = v.header; idle = v.idle }
run-Fits (raw ∷ rest) n s v =
    let w = run-Fits rest (n + 1) (step s raw) (step-Fits raw v) in
    record { weight = omega (arith, w.weight); header = w.header; idle = w.idle }

-- Compressing a diff never makes it longer: at most as many lines are written as were read,
-- collapse summaries, truncation notices and binary notices included.
pub length-compressed : (ls : List Text) → length (compressed ls) ≤ length ls
unfolding compressed
length-compressed ls =
    let v : Fits 0 init = record { weight = omega arith; header = λ h. cc; idle = λ h. refl } in
    let (closed, shut) = flush_hunk-Fits (run-Fits ls 0 init v) in omega (arith, closed.weight)
