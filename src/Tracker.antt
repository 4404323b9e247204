-- ===== src/Tracker.antt =====
-- The local store of usage events, internal/tracker/tracker.go, as the list of its rows.
pub mod Unsent
use browzer_cli.Prelude.{ℕ, Bool, Option, List}
use browzer_cli.Prelude.Text.{Text}

-- A row of the table events, as far as the queries here read it. The three sums are int64 values
-- as numbers below 2^64; `flushed` says that flushed_at is set.
pub record Row : Type 0 where
  pub id : ℕ
  pub ts : Text
  pub source : Text
  pub filter_level : Option Text
  pub model : Option Text
  pub input_bytes : ℕ
  pub output_bytes : ℕ
  pub saved_tokens : ℕ
  pub estimation_method : Option Text
  pub flushed : Bool

pub record Bucket : Type 0 where
  pub day : Text
  pub source : Text
  pub filter_level : Option Text
  pub model : Option Text
  pub n : ℕ
  pub input_bytes : ℕ
  pub output_bytes : ℕ
  pub saved_tokens : ℕ
  pub estimation_method : Option Text
