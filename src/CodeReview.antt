-- ===== src/CodeReview.antt =====
-- internal/codereview/aggregate.go: the findings of the review members, and their consolidation.
pub mod Defaults
pub mod Aggregate
pub mod Load
pub mod Members
mod Samples
use browzer_cli.Prelude.{ℕ, Bool, Option, List}
use browzer_cli.Prelude.Text.{Text}
use browzer_cli.Prelude.Int.{ℤ}

pub record Finding : Type 0 where
  pub id : Text
  pub domain : Text
  pub severity : Text
  pub category : Text
  pub file : Text
  pub line : Option ℤ
  pub description : Text
  pub suggested_fix : Text
  pub assigned_skill : Option Text
  pub status : Text
  pub cross_lane_overlap : Bool
  pub merged_from : List Text

pub record MemberFile : Type 0 where
  pub member_name : Text
  pub findings : List Finding

pub record SeverityCounts : Type 0 where
  pub high : ℕ
  pub medium : ℕ
  pub low : ℕ

-- The fields that are always empty arrays or null are left out.
pub record AggregateResult : Type 0 where
  pub dispatch_mode : Text
  pub review_tier : Text
  pub mandatory_members : List Text
  pub severity_counts : SeverityCounts
  pub findings : List Finding
