-- ===== src/CodeReview/Aggregate/Preserves.antt =====
-- No finding is dropped or changed, and the counts are those of the findings.
use browzer_cli.Prelude.{
  ℕ, zero, suc, ◌+◌, ◌≡◌, refl, ap, ◌∙◌, Bool, false, List, [], ◌∷◌, ◌++◌, map, arith,
  if◌then◌else◌, length, select,
}
use browzer_cli.Prelude.Text.{Text, codes, text_eq, text_lt, lower}
use browzer_cli.Prelude.Text.Laws.{text_eq_iff}
use browzer_cli.Prelude.Sort.{sort}
use browzer_cli.CodeReview.{Finding, MemberFile, SeverityCounts}
use browzer_cli.CodeReview.Defaults.{fill_finding_defaults}
use browzer_cli.CodeReview.Aggregate.{
  TaggedFinding, Group, tag_findings, tag_members, mark, update, mark_indices, mark_group,
  mark_groups, pick, member_ids, assign_ids, marked, aggregate, count_severity, count_severities,
}
use mathlib.Core.List.{map-append}

-- A finding without its id and its overlap.
abbrev pub body : Finding → Finding
body f = record f { id = []; merged_from = []; cross_lane_overlap = false }

-- The findings of the members, in order, each with its defaults filled in.
abbrev pub filled : List MemberFile → List Finding
filled [] = []
filled (m ∷ ms) = map (λ f. fill_finding_defaults f m.member_name) m.findings ++ filled ms

abbrev tagged_body : TaggedFinding → Finding
tagged_body t = body t.f

update-body :
    (ids : List Text) (i : ℕ) (ts : List TaggedFinding)
    → map tagged_body (update i (mark ids) ts) ≡ map tagged_body ts
update-body ids i [] = refl
update-body ids zero (t ∷ ts) = refl
update-body ids (suc i) (t ∷ ts) = ap (λ r. tagged_body t ∷ r) (update-body ids i ts)

mark_indices-body :
    (ids : List Text) (is : List ℕ) (ts : List TaggedFinding)
    → map tagged_body (mark_indices ids is ts) ≡ map tagged_body ts
unfolding mark_indices
mark_indices-body ids [] ts = refl
mark_indices-body ids (i ∷ is) ts =
    mark_indices-body ids is (update i (mark ids) ts) ∙ update-body ids i ts

mark_group-body :
    (g : Group) (ts : List TaggedFinding) → map tagged_body (mark_group g ts) ≡ map tagged_body ts
unfolding mark_group
mark_group-body g ts =
    let ids = sort text_lt (pick (member_ids ts) g.indices) in
    ground (arith, mark_indices-body ids g.indices ts)

mark_groups-body :
    (gs : List Group) (ts : List TaggedFinding)
    → map tagged_body (mark_groups gs ts) ≡ map tagged_body ts
unfolding mark_groups
mark_groups-body [] ts = refl
mark_groups-body (g ∷ gs) ts = mark_groups-body gs (mark_group g ts) ∙ mark_group-body g ts

assign_ids-body :
    (i : ℕ) (ts : List TaggedFinding) → map body (assign_ids i ts) ≡ map tagged_body ts
unfolding assign_ids
assign_ids-body i [] = refl
assign_ids-body i (t ∷ ts) = ap (λ r. tagged_body t ∷ r) (assign_ids-body (i + 1) ts)

tag_findings-body :
    (name : Text) (i : ℕ) (fs : List Finding)
    → map tagged_body (tag_findings name i fs)
      ≡ map body (map (λ f. fill_finding_defaults f name) fs)
unfolding tag_findings
tag_findings-body name i [] = refl
tag_findings-body name i (f ∷ fs) =
    ap (λ r. body (fill_finding_defaults f name) ∷ r) (tag_findings-body name (i + 1) fs)

tag_members-body : (ms : List MemberFile) → map tagged_body (tag_members ms) ≡ map body (filled ms)
unfolding tag_members
tag_members-body [] = refl
tag_members-body (m ∷ ms) =
    rw (map-append, map-append, tag_findings-body m.member_name 0 m.findings, tag_members-body ms)

-- Every finding of every member is in the result, once and in order, and apart from the ids and the
-- overlap marks it says what the member said, with the defaults filled in.
pub aggregate_preserves :
    (visit : List Group → List Group) (members : List MemberFile)
    → map body (aggregate visit members).findings ≡ map body (filled members)
unfolding aggregate marked
aggregate_preserves visit members =
    assign_ids-body 0 _
    ∙ mark_groups-body (visit _) (tag_members members)
    ∙ tag_members-body members

abbrev pub has_severity : Text → Finding → Bool
has_severity level f = text_eq (lower f.severity) level

-- The findings of a level, in any case of letters.
abbrev pub of_level : Text → List Finding → ℕ
of_level level fs = length (select (has_severity level) fs)

abbrev one_if : Bool → ℕ
one_if b = if b then 1 else 0

-- One finding counts for its own level only.
count_severity-level :
    (f : Finding) (c : SeverityCounts)
    → ((count_severity f c).high ≡ c.high + one_if (has_severity (codes "high") f))
      × ((count_severity f c).medium ≡ c.medium + one_if (has_severity (codes "medium") f))
      × ((count_severity f c).low ≡ c.low + one_if (has_severity (codes "low") f))
unfolding count_severity
count_severity-level f c =
    let s = lower f.severity in
    ground (
      arith,
      text_eq_iff s (codes "high"),
      text_eq_iff s (codes "medium"),
      text_eq_iff s (codes "low"),
    )

count_severities-of_level :
    (fs : List Finding) (c : SeverityCounts)
    → ((count_severities fs c).high ≡ c.high + of_level (codes "high") fs)
      × ((count_severities fs c).medium ≡ c.medium + of_level (codes "medium") fs)
      × ((count_severities fs c).low ≡ c.low + of_level (codes "low") fs)
unfolding count_severities
count_severities-of_level [] c = omega arith
count_severities-of_level (f ∷ fs) c =
    let (high, medium, low) = count_severities-of_level fs (count_severity f c) in
    let (high', medium', low') = count_severity-level f c in
    (high ∙ ground (arith, high'), medium ∙ ground (arith, medium'), low ∙ ground (arith, low'))

-- The three counts are the numbers of findings of their levels in the result.
pub aggregate_counts :
    (visit : List Group → List Group) (members : List MemberFile)
    → ((aggregate visit members).severity_counts.high
        ≡ of_level (codes "high") (aggregate visit members).findings)
      × ((aggregate visit members).severity_counts.medium
          ≡ of_level (codes "medium") (aggregate visit members).findings)
      × ((aggregate visit members).severity_counts.low
          ≡ of_level (codes "low") (aggregate visit members).findings)
unfolding aggregate
aggregate_counts visit members =
    let counts =
      count_severities-of_level (assign_ids 0 (marked visit members))
        (record { high = 0; medium = 0; low = 0 }) in
    omega (arith, counts)
