-- ===== src/Tracker/Unsent/Totals.antt =====
-- The buckets carry the sums of the unsent rows.
use browzer_cli.Prelude.{
  ℕ, ◌≤◌, some, List, [], ◌∷◌, ◌≡◌, refl, sym, ap, ◌∙◌, arith, All, select, length, Bool-cases, inl,
  inr, take,
}
use browzer_cli.Prelude.Text.{Text}
use browzer_cli.Tracker.{Row, Bucket}
use browzer_cli.Tracker.Unsent.{
  add64, day_of, same_key, new_bucket, count_row, add_row, aggregate_rows, is_unsent, row_ids,
  unsent_buckets,
}

add64_left : (a b c : ℕ) → add64 (add64 a b) c ≡ add64 b (add64 a c)
unfolding add64
add64_left a b c = omega arith

add64_swap : (a b c : ℕ) → add64 (add64 a b) c ≡ add64 a (add64 b c)
unfolding add64
add64_swap a b c = omega arith

-- The sum of a column.
unfoldable pub total {ℓ} : {A : Type ℓ} → (A → ℕ) → List A → ℕ
total f [] = 0
total f (x ∷ xs) = add64 (f x) (total f xs)

-- A column of the buckets that adds up a column of the rows.
abbrev Adds : (Bucket → ℕ) → (Row → ℕ) → Type 0
Adds g f =
    ((r : Row) (b : Bucket) → g (count_row r b) ≡ add64 (g b) (f r))
    × ((day : Text) (r : Row) → g (new_bucket day r) ≡ 0)

module _ (g : Bucket → ℕ) (f : Row → ℕ) (adds : Adds g f) where
  total-add_row :
      (day : Text) (r : Row) (agg : List Bucket)
      → total g (add_row day r agg) ≡ add64 (f r) (total g agg)
  unfolding add_row total
  total-add_row day r [] =
      rw (adds.0 r (new_bucket day r), adds.1 day r) (unfold add64 in omega arith)
  total-add_row day r (b ∷ agg) = elim (Bool-cases (same_key day r b)) [
    | inl e ↦ rw (e, adds.0 r b) (add64_left (g b) (f r) (total g agg))
    | inr e ↦
        rw (e, total-add_row day r agg)
          (sym (add64_left (f r) (g b) (total g agg)) ∙ add64_swap (f r) (g b) (total g agg))
  ]

total-bound {ℓ} : {A : Type ℓ} (f : A → ℕ) (xs : List A) → total f xs ≤ 18446744073709551615
unfolding total add64
total-bound f [] = omega arith
total-bound f (x ∷ xs) = omega arith

add64_zero : (a : ℕ) → a ≤ 18446744073709551615 → a ≡ add64 0 a
unfolding add64
add64_zero a h = omega arith

abbrev pub HasDay : Row → Type 0
HasDay r = 10 ≤ length r.ts

day_of-HasDay : (r : Row) → HasDay r → day_of r.ts ≡ some (take 10 r.ts)
unfolding day_of
day_of-HasDay r h = ground arith

abbrev Grouped : List Row → List Bucket → List Bucket → Type 0
Grouped rows agg out =
    (aggregate_rows rows agg ≡ some out)
    × ((g : Bucket → ℕ) (f : Row → ℕ) → Adds g f → total g out ≡ add64 (total f rows) (total g agg))

aggregate_rows-Grouped :
    (rows : List Row) (agg : List Bucket)
    → All HasDay rows
    → (out : List Bucket) × Grouped rows agg out
unfolding aggregate_rows total
aggregate_rows-Grouped [] agg h =
    (agg, (refl, λ g f adds. add64_zero (total g agg) (total-bound g agg)))
aggregate_rows-Grouped (r ∷ rows) agg (hr, h) =
    let (out, (ok, sums)) = aggregate_rows-Grouped rows (add_row (take 10 r.ts) r agg) h in
    (
      out,
      (
        rw (aggregate_rows, day_of-HasDay r hr) ok,
        λ g f adds.
            sums g f adds
            ∙ ap (add64 (total f rows)) (total-add_row g f adds (take 10 r.ts) r agg)
            ∙ sym (add64_left (f r) (total f rows) (total g agg)),
      ),
    )

abbrev counted : Adds (λ b. b.n) (λ r. 1)
counted = ((λ r b. unfold count_row in refl), (λ day r. refl))

abbrev inputs : Adds (λ b. b.input_bytes) (λ r. r.input_bytes)
inputs = ((λ r b. unfold count_row in refl), (λ day r. refl))

abbrev outputs : Adds (λ b. b.output_bytes) (λ r. r.output_bytes)
outputs = ((λ r b. unfold count_row in refl), (λ day r. refl))

abbrev savings : Adds (λ b. b.saved_tokens) (λ r. r.saved_tokens)
savings = ((λ r b. unfold count_row in refl), (λ day r. refl))

-- The columns of the buckets add up to those of the rows, as int64 values.
abbrev pub SameTotals : List Bucket → List Row → Type 0
SameTotals agg rows =
    (total (λ b. b.n) agg ≡ total (λ (r : Row). 1) rows)
    × (total (λ b. b.input_bytes) agg ≡ total (λ r. r.input_bytes) rows)
    × (total (λ b. b.output_bytes) agg ≡ total (λ r. r.output_bytes) rows)
    × (total (λ b. b.saved_tokens) agg ≡ total (λ r. r.saved_tokens) rows)

-- When every unsent row has a time stamp of ten bytes at least, UnsentBuckets succeeds: it returns
-- the ids of the unsent rows, in order, and buckets whose counts and whose sums of input bytes, of
-- output bytes and of saved tokens add up, as int64 values, to those of the unsent rows.
pub unsent_buckets_total :
    (rows : List Row)
    → All HasDay (select is_unsent rows)
    → (agg : List Bucket) × (unsent_buckets rows ≡ some (agg, row_ids (select is_unsent rows)))
      × SameTotals agg (select is_unsent rows)
unfolding total unsent_buckets
unsent_buckets_total rows h =
    let (out, (ok, sums)) = aggregate_rows-Grouped (select is_unsent rows) [] h in
    (
      out,
      rw (unsent_buckets, ok) refl,
      (
        sums (λ b. b.n) (λ r. 1) counted ∙ closed (λ r. 1),
        sums (λ b. b.input_bytes) (λ r. r.input_bytes) inputs ∙ closed (λ r. r.input_bytes),
        sums (λ b. b.output_bytes) (λ r. r.output_bytes) outputs ∙ closed (λ r. r.output_bytes),
        sums (λ b. b.saved_tokens) (λ r. r.saved_tokens) savings ∙ closed (λ r. r.saved_tokens),
      ),
    )
  where
    closed :
        (f : Row → ℕ) → add64 (total f (select is_unsent rows)) 0 ≡ total f (select is_unsent rows)
    closed f = unfold add64 in omega (arith, total-bound f (select is_unsent rows))
