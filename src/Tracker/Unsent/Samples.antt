-- ===== src/Tracker/Unsent/Samples.antt =====
-- Runs of UnsentBuckets and MarkFlushed.
use browzer_cli.Prelude.{
  ℕ, Bool, true, false, Option, none, some, List, [], ◌∷◌, ◌++◌, ◌≡◌, refl, arith, select,
}
use browzer_cli.Prelude.Text.{Text, codes}
use browzer_cli.Tracker.{Row, Bucket}
use browzer_cli.Tracker.Unsent.{
  is_unsent, row_ids, unsent_buckets, mark_flushed, aggregate_rows, day_of, add_row, same_key,
  count_row, add64,
}
use browzer_cli.Tracker.Unsent.Totals.{unsent_buckets_total, SameTotals}
use browzer_cli.Tracker.Unsent.Flush.{flush_loses_nothing}

abbrev row : ℕ → ℕ → Option Text → Bool → Row
row id saved model flushed = record {
  id = id;
  ts = codes "2026-04-20T10:00:00Z";
  source = codes "hook-read";
  filter_level = some (codes "minimal");
  model = model;
  input_bytes = 900;
  output_bytes = 300;
  saved_tokens = saved;
  estimation_method = none;
  flushed = flushed;
}

abbrev rows : List Row
rows =
    row 1 40 none true ∷ row 2 50 none false ∷ row 3 60 (some []) false ∷ row 4 70 none false ∷ []

abbrev later : List Row
later = row 5 80 none false ∷ []

abbrev bucket : ℕ → ℕ → ℕ → ℕ → Option Text → Bucket
bucket n input output saved model = record {
  day = codes "2026-04-20";
  source = codes "hook-read";
  filter_level = some (codes "minimal");
  model = model;
  n = n;
  input_bytes = input;
  output_bytes = output;
  saved_tokens = saved;
  estimation_method = none;
}

-- An unknown model and an empty one are two keys.
unsent_buckets_runs :
    unsent_buckets rows
    ≡ some (bucket 2 1800 600 120 none ∷ bucket 1 900 300 60 (some []) ∷ [], 2 ∷ 3 ∷ 4 ∷ [])
unfolding unsent_buckets aggregate_rows day_of add_row same_key count_row add64
unsent_buckets_runs = refl

unsent_buckets_total_example :
    (agg : List Bucket) × (unsent_buckets rows ≡ some (agg, row_ids (select is_unsent rows)))
    × SameTotals agg (select is_unsent rows)
unsent_buckets_total_example =
    unsent_buckets_total rows (omega arith, (omega arith, (omega arith, tt)))

flush_loses_nothing_example :
    (after : List Row) × (mark_flushed [] (row_ids (select is_unsent rows)) (rows ++ later)
      ≡ (after, false))
    × (select is_unsent after ≡ later)
flush_loses_nothing_example = flush_loses_nothing rows later (refl, tt)
