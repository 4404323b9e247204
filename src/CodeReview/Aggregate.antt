-- ===== src/CodeReview/Aggregate.antt =====
-- Aggregate of internal/codereview/aggregate.go. `visit` is the order in which Go walks the map of
-- groups, which the language leaves open.
pub mod Preserves
pub mod Ids
use browzer_cli.Prelude.{
  ℕ, zero, suc, ◌+◌, Bool, true, false, not, ◌&&◌, ◌||◌, Option, none, some, List, [], ◌∷◌, ◌++◌,
  map, if◌then◌else◌, ltb, leb, length, get_elem?, select, any, take,
}
use browzer_cli.Prelude.Text.{Text, codes, text_eq, text_lt, lower, upper}
use browzer_cli.Prelude.Int.{ℤ, pos, int_eq}
use browzer_cli.Prelude.Decimal.{decimal, decimal3}
use browzer_cli.Prelude.Sort.{sort}
use browzer_cli.CodeReview.{Finding, MemberFile, SeverityCounts, AggregateResult}
use browzer_cli.CodeReview.Defaults.{fill_finding_defaults}

-- uppercase first 4 runes, replacing what is no capital and no digit with X
abbrev prefix_rune : ℕ → ℕ
prefix_rune r = if (leb b'A' r && leb r b'Z') || (leb b'0' r && leb r b'9') then r else b'X'

abbrev or_gen : Text → Text
or_gen [] = codes "GEN"
or_gen (c ∷ s) = c ∷ s

unfoldable pub member_prefix : Text → Text
unfolding lower upper text_eq
member_prefix domain =
    let name : Text = lower domain in
    if text_eq name (codes "senior-engineer") || text_eq name (codes "sr")
    then codes "SR"
    else if text_eq name (codes "software-architect") || text_eq name (codes "arch")
    then codes "ARCH"
    else if text_eq name (codes "qa")
    then codes "QA"
    else if text_eq name (codes "regression-tester") || text_eq name (codes "reg")
    then codes "REG"
    else or_gen (map prefix_rune (take 4 (upper domain)))

pub record TaggedFinding : Type 0 where
  pub member_id : Text
  pub member_name : Text
  pub f : Finding

-- fmt.Sprintf("%s-%d", prefix, i+1)
unfoldable pub member_id : Text → ℕ → Text
unfolding decimal
member_id prefix i = prefix ++ (codes "-" ++ decimal (i + 1))

unfoldable pub tag_finding : Text → ℕ → Finding → TaggedFinding
unfolding member_id member_prefix fill_finding_defaults
tag_finding member_name i f =
    let id : Text = member_id (member_prefix member_name) i in
    record {
      member_id = id;
      member_name = member_name;
      f = record (fill_finding_defaults f member_name) { id = id };
    }

unfoldable pub tag_findings : Text → ℕ → List Finding → List TaggedFinding
unfolding tag_finding
tag_findings member_name i [] = []
tag_findings member_name i (f ∷ fs) =
    tag_finding member_name i f ∷ tag_findings member_name (i + 1) fs

unfoldable pub tag_members : List MemberFile → List TaggedFinding
unfolding tag_findings
tag_members [] = []
tag_members (m ∷ ms) = tag_findings m.member_name 0 m.findings ++ tag_members ms

-- A key of the map of groups, with the indices under it.
pub record Group : Type 0 where
  pub file : Text
  pub line : ℤ
  pub indices : List ℕ

unfoldable pub line_or_zero : Finding → ℤ
line_or_zero f = elim f.line [ none ↦ pos 0 | some l ↦ l ]

-- groups[k] = append(groups[k], i)
unfoldable pub add_index : Text → ℤ → ℕ → List Group → List Group
unfolding text_eq int_eq
add_index file line i [] = (record { file = file; line = line; indices = i ∷ [] }) ∷ []
add_index file line i (g ∷ gs) =
    if text_eq g.file file && int_eq g.line line
    then (record g { indices = g.indices ++ i ∷ [] }) ∷ gs
    else g ∷ add_index file line i gs

unfoldable pub group_findings : ℕ → List TaggedFinding → List Group → List Group
unfolding add_index line_or_zero
group_findings i [] gs = gs
group_findings i (t ∷ ts) gs =
    group_findings (i + 1) ts (add_index t.f.file (line_or_zero t.f) i gs)

-- The items at the indices.
unfoldable pub pick : List Text → List ℕ → List Text
pick xs [] = []
pick xs (i ∷ is) = elim (get_elem? xs i) [ some x ↦ x ∷ pick xs is | none ↦ pick xs is ]

-- The keys of a map[string]struct{} filled from the names.
unfoldable pub member_set : List Text → List Text
unfolding text_eq
member_set [] = []
member_set (x ∷ xs) = let rest = member_set xs in if any (text_eq x) rest then rest else x ∷ rest

abbrev update {ℓ} : {A : Type ℓ} → ℕ → (A → A) → List A → List A
update i g [] = []
update zero g (x ∷ xs) = g x ∷ xs
update (suc i) g (x ∷ xs) = x ∷ update i g xs

abbrev mark : List Text → TaggedFinding → TaggedFinding
mark ids t = record t {
  f = record t.f {
    merged_from = select (λ id. not (text_eq id t.member_id)) ids;
    cross_lane_overlap = true;
  };
}

unfoldable pub mark_indices : List Text → List ℕ → List TaggedFinding → List TaggedFinding
unfolding text_eq
mark_indices ids [] tagged = tagged
mark_indices ids (i ∷ is) tagged = mark_indices ids is (update i (mark ids) tagged)

abbrev names : List TaggedFinding → List Text
names = map (λ (t : TaggedFinding). t.member_name)

abbrev member_ids : List TaggedFinding → List Text
member_ids = map (λ (t : TaggedFinding). t.member_id)

-- One round of the loop over the groups.
unfoldable pub mark_group : Group → List TaggedFinding → List TaggedFinding
unfolding mark_indices pick member_set sort text_lt
mark_group g tagged =
    if ltb (length g.indices) 2
    then tagged
    else if ltb (length (member_set (pick (names tagged) g.indices))) 2
    then tagged
    else mark_indices (sort text_lt (pick (member_ids tagged) g.indices)) g.indices tagged

unfoldable pub mark_groups : List Group → List TaggedFinding → List TaggedFinding
unfolding mark_group
mark_groups [] tagged = tagged
mark_groups (g ∷ gs) tagged = mark_groups gs (mark_group g tagged)

-- "F-%03d"
unfoldable pub global_id : ℕ → Text
unfolding decimal3
global_id n = codes "F-" ++ decimal3 n

unfoldable pub assign_ids : ℕ → List TaggedFinding → List Finding
unfolding global_id
assign_ids i [] = []
assign_ids i (t ∷ ts) = (record t.f { id = global_id (i + 1) }) ∷ assign_ids (i + 1) ts

unfoldable pub count_severity : Finding → SeverityCounts → SeverityCounts
unfolding text_eq lower
count_severity f counts =
    let severity : Text = lower f.severity in
    if text_eq severity (codes "high")
    then record counts { high = counts.high + 1 }
    else if text_eq severity (codes "medium")
    then record counts { medium = counts.medium + 1 }
    else if text_eq severity (codes "low")
    then record counts { low = counts.low + 1 }
    else counts

unfoldable pub count_severities : List Finding → SeverityCounts → SeverityCounts
unfolding count_severity
count_severities [] counts = counts
count_severities (f ∷ fs) counts = count_severities fs (count_severity f counts)

-- The findings with their overlaps marked, before the global ids.
unfoldable pub marked : (List Group → List Group) → List MemberFile → List TaggedFinding
unfolding tag_members group_findings mark_groups
marked visit members =
    let tagged : List TaggedFinding = tag_members members in
    mark_groups (visit (group_findings 0 tagged [])) tagged

unfoldable pub aggregate : (List Group → List Group) → List MemberFile → AggregateResult
unfolding marked assign_ids count_severities
aggregate visit members =
    let findings : List Finding = assign_ids 0 (marked visit members) in
    record {
      dispatch_mode = codes "parallel-with-consolidator";
      review_tier = codes "recommended";
      mandatory_members = map (λ (m : MemberFile). m.member_name) members;
      severity_counts = count_severities findings (record { high = 0; medium = 0; low = 0 });
      findings = findings;
    }
