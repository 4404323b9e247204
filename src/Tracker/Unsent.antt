-- ===== src/Tracker/Unsent.antt =====
-- UnsentBuckets and MarkFlushed of internal/tracker/tracker.go. The buckets stand in the order in
-- which their keys first occur; Go returns them in the order in which it walks its map.
pub mod Totals
pub mod Flush
mod Samples
use browzer_cli.Prelude.{
  ℕ, zero, suc, ◌+◌, ◌%◌, Bool, true, false, not, ◌&&◌, Option, none, some, List, [], ◌∷◌, map,
  if◌then◌else◌, ltb, ◌==◌, length, take, drop, select, any,
}
use browzer_cli.Prelude.Text.{Text, text_eq}
use browzer_cli.Tracker.{Row, Bucket}

-- Addition of int64 values
unfoldable pub add64 : ℕ → ℕ → ℕ
add64 a b = (a + b) % 18446744073709551616

abbrev option_eq : Option Text → Option Text → Bool
option_eq none none = true
option_eq (some s) (some t) = text_eq s t
option_eq _ _ = false

-- ts[:10], which panics on a shorter text
unfoldable pub day_of : Text → Option Text
day_of ts = if ltb (length ts) 10 then none else some (take 10 ts)

-- The key of the row is that of the bucket.
unfoldable pub same_key : Text → Row → Bucket → Bool
unfolding text_eq
same_key day r b =
    text_eq b.day day
    && text_eq b.source r.source
    && option_eq b.filter_level r.filter_level
    && option_eq b.model r.model
    && option_eq b.estimation_method r.estimation_method

abbrev pub new_bucket : Text → Row → Bucket
new_bucket day r = record {
  day = day;
  source = r.source;
  filter_level = r.filter_level;
  model = r.model;
  n = 0;
  input_bytes = 0;
  output_bytes = 0;
  saved_tokens = 0;
  estimation_method = r.estimation_method;
}

-- b.N++ and the three sums
unfoldable pub count_row : Row → Bucket → Bucket
unfolding add64
count_row r b = record b {
  n = add64 b.n 1;
  input_bytes = add64 b.input_bytes r.input_bytes;
  output_bytes = add64 b.output_bytes r.output_bytes;
  saved_tokens = add64 b.saved_tokens r.saved_tokens;
}

unfoldable pub add_row : Text → Row → List Bucket → List Bucket
unfolding same_key count_row
add_row day r [] = count_row r (new_bucket day r) ∷ []
add_row day r (b ∷ agg) = if same_key day r b then count_row r b ∷ agg else b ∷ add_row day r agg

unfoldable pub aggregate_rows : List Row → List Bucket → Option (List Bucket)
unfolding add_row day_of
aggregate_rows [] agg = some agg
aggregate_rows (r ∷ rows) agg = elim (day_of r.ts) [
  | some day ↦ aggregate_rows rows (add_row day r agg)
  | none ↦ none
]

-- WHERE flushed_at IS NULL
abbrev pub is_unsent : Row → Bool
is_unsent r = not r.flushed

abbrev pub row_ids : List Row → List ℕ
row_ids = map (λ (r : Row). r.id)

unfoldable pub unsent_buckets : List Row → Option (List Bucket × List ℕ)
unfolding aggregate_rows
unsent_buckets rows = elim (aggregate_rows (select is_unsent rows) []) [
  | some agg ↦ some (agg, row_ids (select is_unsent rows))
  | none ↦ none
]

-- UPDATE events SET flushed_at = ... WHERE id IN (chunk)
abbrev pub update_row : List ℕ → Row → Row
update_row chunk r = if any (λ i. i == r.id) chunk then record r { flushed = true } else r

unfoldable pub update_chunk : List ℕ → List Row → List Row
update_chunk chunk = map (update_row chunk)

-- The loop of MarkFlushed. `fails` says of each further update whether the database refuses it:
-- then the loop ends with an error, which is the `true` of the result. One round takes an id at
-- least, so that the number of the ids is enough fuel.
unfoldable pub mark_chunks : ℕ → List Bool → List ℕ → List Row → List Row × Bool
unfolding update_chunk
mark_chunks zero fails ids rows = (rows, false)
mark_chunks (suc fuel) fails [] rows = (rows, false)
mark_chunks (suc fuel) (true ∷ fails) (i ∷ ids) rows = (rows, true)
mark_chunks (suc fuel) (false ∷ fails) (i ∷ ids) rows =
    mark_chunks fuel fails (drop 500 (i ∷ ids)) (update_chunk (take 500 (i ∷ ids)) rows)
mark_chunks (suc fuel) [] (i ∷ ids) rows =
    mark_chunks fuel [] (drop 500 (i ∷ ids)) (update_chunk (take 500 (i ∷ ids)) rows)

unfoldable pub mark_flushed : List Bool → List ℕ → List Row → List Row × Bool
unfolding mark_chunks
mark_flushed fails ids rows = mark_chunks (length ids) fails ids rows
