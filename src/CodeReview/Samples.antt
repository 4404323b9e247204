-- ===== src/CodeReview/Samples.antt =====
-- Tests of the consolidation, and its theorems at concrete inputs.
use browzer_cli.Prelude.{◌≡◌, ◌↔◌, refl, true, false, none, some, List, [], ◌∷◌, map}
use browzer_cli.Prelude.Text.{Text, codes}
use browzer_cli.Prelude.Int.{pos}
use browzer_cli.Prelude.Sort.{sort, IsSorted}
use browzer_cli.CodeReview.{Finding, MemberFile}
use browzer_cli.CodeReview.Defaults.{fill_finding_defaults}
use browzer_cli.CodeReview.Aggregate.{Group, aggregate}
use browzer_cli.CodeReview.Aggregate.Preserves.{body, filled, aggregate_preserves}
use browzer_cli.CodeReview.Aggregate.Ids.{IsNumbered, aggregate_ids}
use browzer_cli.CodeReview.Load.{
  DirEntry, member_of, unreadable, good, by_name, parse_error, decoded, failed, loaded,
  load_member_files,
}
use browzer_cli.CodeReview.Members.{IsMemberFile, load_member_files_lem}

abbrev blank : Finding
blank = record {
  id = [];
  domain = [];
  severity = codes "High";
  category = [];
  file = codes "a.go";
  line = some (pos 3);
  description = [];
  suggested_fix = [];
  assigned_skill = none;
  status = [];
  cross_lane_overlap = false;
  merged_from = [];
}

abbrev same_order : List Group → List Group
same_order gs = gs

abbrev two_members : List MemberFile
two_members =
    (record { member_name = codes "qa"; findings = blank ∷ [] })
    ∷ (record { member_name = codes "senior-engineer"; findings = blank ∷ [] })
    ∷ []

overlap_runs :
    map {B = Text × List Text}
      (λ (f : Finding). (f.id, f.merged_from))
      (aggregate same_order two_members).findings
    ≡ (codes "F-001", codes "SR-1" ∷ []) ∷ (codes "F-002", codes "QA-1" ∷ []) ∷ []
unfolding aggregate
overlap_runs = refl

aggregate_preserves_example :
    map body (aggregate same_order two_members).findings ≡ map body (filled two_members)
aggregate_preserves_example = aggregate_preserves same_order two_members

abbrev first_of_two : Finding
first_of_two = record (fill_finding_defaults blank (codes "qa")) {
  id = codes "F-001";
  merged_from = codes "SR-1" ∷ [];
  cross_lane_overlap = true;
}

aggregate_ids_example : IsNumbered 1 first_of_two.id
unfolding aggregate
aggregate_ids_example =
    (aggregate_ids same_order two_members 0 0 first_of_two first_of_two refl refl).0

abbrev listing : List DirEntry
listing =
    (record { is_dir = false; name = codes "CODE_REVIEW.sr.json"; content = decoded (blank ∷ []) })
    ∷ (record { is_dir = false; name = codes "CODE_REVIEW.json"; content = parse_error })
    ∷ (record { is_dir = false; name = codes "CODE_REVIEW.qa.json"; content = parse_error })
    ∷ []

load_runs :
    load_member_files false (some listing)
    ≡ loaded
        ((record { member_name = codes "sr"; findings = blank ∷ [] }) ∷ [])
        (codes "CODE_REVIEW.qa.json" ∷ [])
unfolding load_member_files
load_runs = refl

load_member_files_example :
    (load_member_files true none ≡ unreadable)
    × (load_member_files true (some listing) ≡ failed [])
    × IsSorted by_name (sort by_name (good listing))
    × ((e : DirEntry) (m : Text) → (member_of e ≡ some m) ↔ IsMemberFile e m)
unfolding member_of
load_member_files_example = load_member_files_lem true listing
