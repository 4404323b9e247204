-- ===== src/Tracker/Unsent/Flush.antt =====
-- Marking the ids that were read: no row is marked that was recorded in between.
use browzer_cli.Prelude.{
  ℕ, zero, suc, ◌≤◌, Bool, true, false, ◌||◌, List, [], ◌∷◌, ◌++◌, ◌≡◌, refl, sym, ap, ap₂, ◌∙◌,
  arith, All, any, select, select-append, length, length-drop-le, take, drop, ◌==◌, ==_iff,
  Bool-cases, inl, inr,
}
use browzer_cli.Tracker.{Row}
use browzer_cli.Tracker.Unsent.{
  is_unsent, row_ids, update_row, update_chunk, mark_chunks, mark_flushed,
}

abbrev pub is_id : List ℕ → ℕ → Bool
is_id ids i = any (λ j. j == i) ids

is_id-parts :
    (k : ℕ) (ids : List ℕ) (i : ℕ) → (is_id (take k ids) i || is_id (drop k ids) i) ≡ is_id ids i
is_id-parts zero ids i = refl
is_id-parts (suc k) [] i = refl
is_id-parts (suc k) (j ∷ ids) i = ground (arith, is_id-parts k ids i)

update_row-parts :
    (k : ℕ) (ids : List ℕ) (r : Row)
    → update_row (drop k ids) (update_row (take k ids) r) ≡ update_row ids r
update_row-parts k ids r = ground (arith, is_id-parts k ids r.id)

update_chunk-parts :
    (k : ℕ) (ids : List ℕ) (rows : List Row)
    → update_chunk (drop k ids) (update_chunk (take k ids) rows) ≡ update_chunk ids rows
unfolding update_chunk
update_chunk-parts k ids [] = refl
update_chunk-parts k ids (r ∷ rows) =
    ap₂ (λ (x : Row) (xs : List Row). x ∷ xs) (update_row-parts k ids r)
      (update_chunk-parts k ids rows)

update_chunk-none :
    (ids : List ℕ) (rows : List Row)
    → All (λ (r : Row). is_id ids r.id ≡ false) rows
    → update_chunk ids rows ≡ rows
unfolding update_chunk
update_chunk-none ids [] h = refl
update_chunk-none ids (r ∷ rows) (e, h) = rw (e, update_chunk-none ids rows h) refl

update_chunk-nil : (rows : List Row) → update_chunk [] rows ≡ rows
unfolding update_chunk
update_chunk-nil [] = refl
update_chunk-nil (r ∷ rows) = ap (λ xs. r ∷ xs) (update_chunk-nil rows)

mark_chunks-update :
    (fuel : ℕ) (ids : List ℕ) (rows : List Row)
    → length ids ≤ fuel
    → mark_chunks fuel [] ids rows ≡ (update_chunk ids rows, false)
unfolding mark_chunks
mark_chunks-update zero [] rows h = ap (λ x. (x, false)) (sym (update_chunk-nil rows))
mark_chunks-update zero (i ∷ ids) rows h = absurd (omega arith)
mark_chunks-update (suc fuel) [] rows h = ap (λ x. (x, false)) (sym (update_chunk-nil rows))
mark_chunks-update (suc fuel) (i ∷ ids) rows h =
    mark_chunks-update fuel (drop 500 (i ∷ ids)) (update_chunk (take 500 (i ∷ ids)) rows)
      (omega (arith, length-drop-le 499 ids))
    ∙ ap (λ x. (x, false)) (update_chunk-parts 500 (i ∷ ids) rows)

-- The row is flushed, or its id is in the list.
abbrev Covered : List ℕ → Row → Type 0
Covered ids r = (r.flushed || is_id ids r.id) ≡ true

unsent-Covered :
    (ids : List ℕ) (rows : List Row)
    → ((i : ℕ) → is_id (row_ids (select is_unsent rows)) i ≡ true → is_id ids i ≡ true)
    → All (Covered ids) rows
unsent-Covered ids [] h = tt
unsent-Covered ids (r ∷ rows) h = elim (Bool-cases r.flushed) [
  | inl e ↦ (rw e refl, unsent-Covered ids rows (λ i k. h i (rw e k)))
  | inr e ↦ (
    rw (e, h r.id (rw e (ground (arith, ==_iff r.id r.id)))) refl,
    unsent-Covered ids rows (λ i k. h i (rw (e, k) (ground arith))),
  )
]

Covered-select :
    (ids : List ℕ) (rows : List Row)
    → All (Covered ids) rows
    → select is_unsent (update_chunk ids rows) ≡ []
unfolding update_chunk
Covered-select ids [] h = refl
Covered-select ids (r ∷ rows) (e, h) = ground (arith, Covered-select ids rows h)

update_chunk-append :
    (ids : List ℕ) (xs ys : List Row)
    → update_chunk ids (xs ++ ys) ≡ update_chunk ids xs ++ update_chunk ids ys
unfolding update_chunk
update_chunk-append ids [] ys = refl
update_chunk-append ids (x ∷ xs) ys = rw (update_chunk-append ids xs ys) refl

-- MarkFlushed, called with the ids that UnsentBuckets returned and refused nothing by the database,
-- reports no error; afterwards the unsent rows are those that were recorded since UnsentBuckets
-- read the table, in order. Rows recorded since have ids that are not among the ones returned.
pub flush_loses_nothing :
    (rows more : List Row)
    → All (λ (r : Row). is_id (row_ids (select is_unsent rows)) r.id ≡ false) more
    → (after : List Row) × (mark_flushed [] (row_ids (select is_unsent rows)) (rows ++ more)
        ≡ (after, false))
      × (select is_unsent after ≡ select is_unsent more)
unfolding mark_flushed
flush_loses_nothing rows more h =
    let ids : List ℕ = row_ids (select is_unsent rows) in
    (
      update_chunk ids (rows ++ more),
      mark_chunks-update (length ids) ids (rows ++ more) (omega arith),
      ap (select is_unsent) (update_chunk-append ids rows more)
          ∙ select-append is_unsent (update_chunk ids rows) (update_chunk ids more)
          ∙ ap₂ (λ (xs ys : List Row). xs ++ ys)
              (Covered-select ids rows (unsent-Covered ids rows (λ i k. k)))
              (ap (select is_unsent) (update_chunk-none ids more h)),
    )
