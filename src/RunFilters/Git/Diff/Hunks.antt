-- ===== src/RunFilters/Git/Diff/Hunks.antt =====
-- What a hunk leaves in the compressed diff, and the counts that a collapse announces.
use browzer_cli.Prelude.{
  ℕ, ◌+◌, ◌-◌, ◌≤◌, ◌≡◌, refl, true, false, none, List, [], ◌∷◌, arith, if◌then◌else◌, length,
  length-append, Bool-cases, inl, inr, All, ◌⊎◌, ap,
}
use browzer_cli.Prelude.Text.{Text, codes, has_prefix, text_eq}
use browzer_cli.Prelude.Text.Laws.{text_eq_iff}
use browzer_cli.RunFilters.Git.Diff.{
  State, hunk_line, open_hunk, plain_line, step, run, binary_match, header_match,
  max_modification_lines, is_metadata,
}

-- A changed or a context line that the loop does not take for metadata of the file.
abbrev pub IsBody : Text → Type 0
IsBody raw =
    (c : ℕ) × (l : Text) × (raw ≡ c ∷ l)
    × ((c ≡ b'+') ⊎ ((c ≡ b'-') ⊎ (c ≡ b' ')))
    × (is_metadata (c ∷ l) ≡ false)

-- The two lines about /dev/null are metadata too.
dev_null-is_metadata :
    (raw : Text)
    → is_metadata raw ≡ false
    → (text_eq raw (codes "--- /dev/null") ≡ false) × (text_eq raw (codes "+++ /dev/null") ≡ false)
unfolding is_metadata
dev_null-is_metadata raw h =
    (differs (codes "--- /dev/null") refl, differs (codes "+++ /dev/null") refl)
  where
    differs : (t : Text) → is_metadata t ≡ true → text_eq raw t ≡ false
    differs t m = elim (Bool-cases (text_eq raw t)) [
      | inl e ↦ cc (ap is_metadata ((text_eq_iff raw t).0 e))
      | inr e ↦ e
    ]

module _ (c : ℕ) (l : Text) (mark : (c ≡ b'+') ⊎ ((c ≡ b'-') ⊎ (c ≡ b' '))) where
  body-binary_match : binary_match (c ∷ l) ≡ none
  unfolding binary_match
  body-binary_match = ground arith

  body-header_match : header_match (c ∷ l) ≡ none
  unfolding header_match
  body-header_match = ground arith

  body-not_hunk : has_prefix (c ∷ l) (codes "@@") ≡ false
  unfolding has_prefix
  body-not_hunk = ground arith

  body-plain_line :
      (s : State)
      → is_metadata (c ∷ l) ≡ false
      → s.in_hunk ≡ true
      → plain_line (c ∷ l) s ≡ hunk_line (c ∷ l) s
  body-plain_line s plain inside =
      let (d, d') = dev_null-is_metadata (c ∷ l) plain in
      unfold plain_line in ground (arith, d, d', body-not_hunk)

  pub body-step :
      (s : State)
      → is_metadata (c ∷ l) ≡ false
      → s.in_hunk ≡ true
      → step s (c ∷ l) ≡ hunk_line (c ∷ l) s
  unfolding step
  body-step s plain inside =
      rw (body-binary_match, body-header_match, step) (body-plain_line s plain inside)

-- The lines that an open hunk may still write: changes, context, and one truncation notice.
abbrev budget : State → ℕ
budget s =
    (max_modification_lines - s.emitted_mod_lines)
    + (3 - s.context_in_hunk)
    + (if s.truncated_summary then 0 else 1)

-- A hunk that is written as it comes, inside its budget.
record IsOpen (n : ℕ) (s : State) : Type 0 where
  inside : s.in_hunk ≡ true
  written : s.pending_collapse ≡ false
  room : length s.out + budget s ≤ n

hunk_line-IsOpen :
    (n : ℕ) (s : State) (raw : Text) → IsBody raw → IsOpen n s → IsOpen n (step s raw)
hunk_line-IsOpen n s raw (c, l, e, mark, plain) v =
    rw (e, body-step c l mark s plain v.inside)
      (unfold hunk_line in
        ground (
          arith,
          length-append s.out ((c ∷ l) ∷ []),
          v.inside,
          v.written,
          v.room,
          length-append s.out (codes "... (further changes truncated)" ∷ []),
        ))

run-IsOpen :
    (body : List Text) (n : ℕ) (s : State)
    → All IsBody body
    → IsOpen n s
    → length (run s body).out ≤ n
unfolding run
run-IsOpen [] n s _ v = omega (arith, v.room)
run-IsOpen (raw ∷ rest) n s (h, hs) v =
    run-IsOpen rest n (step s raw) hs (hunk_line-IsOpen n s raw h v)

-- However many changed and context lines a hunk has, at most 25 lines of it are written: its header,
-- 20 changed lines, 3 context lines and one notice. The file must be neither new nor deleted.
pub hunk_cap :
    (header : Text) (s : State) (body : List Text)
    → s.in_new_file ≡ false
    → s.in_deleted_file ≡ false
    → All IsBody body
    → length (run (open_hunk header s) body).out ≤ length s.out + 25
hunk_cap header s body new deleted h = run-IsOpen body (length s.out + 25) (open_hunk header s) h (
    unfold open_hunk in
    (record {
      inside = ground arith;
      written = ground arith;
      room = ground (arith, length-append s.out (header ∷ []));
    }))
