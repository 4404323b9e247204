-- ===== src/CodeReview/Aggregate/Ids.antt =====
-- The ids of the consolidated findings, and the per-member ids behind `mergedFrom`.
use browzer_cli.Prelude.{
  ℕ, zero, suc, ◌+◌, ◌≡◌, sym, ap, ◌∙◌, subst, Bool, true, false, some, List, [], ◌∷◌, ◌++◌, map,
  arith, get_elem?, ◌≤◌, length, refl,
}
use browzer_cli.Prelude.Text.{Text, codes, text_eq}
use browzer_cli.Prelude.Text.Laws.{text_eq_iff, text_eq_refl}
use browzer_cli.Prelude.Decimal.{
  decimal3, value, value-decimal3, length-decimal3, IsDigits, decimal3-IsDigits, decimal3-injective,
}
use browzer_cli.Prelude.Int.{ℤ, pos, negsuc, int_eq}
use browzer_cli.CodeReview.{Finding, MemberFile}
use browzer_cli.CodeReview.Aggregate.{
  TaggedFinding, Group, mark, member_id, add_index, tag_finding, global_id, assign_ids, marked,
  aggregate, member_prefix, line_or_zero, tag_members, group_findings, mark_groups, tag_findings,
}

global_id-injective : (m n : ℕ) → global_id m ≡ global_id n → m ≡ n
global_id-injective m n e = decimal3-injective m n (unfold global_id in cc)

assign_ids-global_id :
    (i k : ℕ) (ts : List TaggedFinding) (f : Finding)
    → get_elem? (assign_ids i ts) k ≡ some f
    → f.id ≡ global_id (i + k + 1)
unfolding assign_ids
assign_ids-global_id i k [] f h = cc
assign_ids-global_id i zero (t ∷ ts) f h = ground arith
assign_ids-global_id i (suc k) (t ∷ ts) f h =
    let e : i + 1 + k + 1 ≡ i + suc k + 1 = omega arith in
    assign_ids-global_id (i + 1) k ts f h ∙ ap global_id e

-- The id is "F-" and the digits of the number, three at least.
abbrev pub IsNumbered : ℕ → Text → Type 0
IsNumbered n id =
    (digits : Text) × (id ≡ codes "F-" ++ digits)
    × (value 0 digits ≡ n)
    × (3 ≤ length digits)
    × IsDigits digits

global_id-IsNumbered : (n : ℕ) → IsNumbered n (global_id n)
unfolding global_id
global_id-IsNumbered n =
    (decimal3 n, refl, value-decimal3 n, length-decimal3 n, decimal3-IsDigits n)

-- The id of the k-th finding of the result, counted from 1, is "F-" and then at least three digits that
-- spell k, and no two findings share an id.
pub aggregate_ids :
    (visit : List Group → List Group) (members : List MemberFile) (j k : ℕ) (f g : Finding)
    → get_elem? (aggregate visit members).findings j ≡ some f
    → get_elem? (aggregate visit members).findings k ≡ some g
    → IsNumbered (j + 1) f.id × (f.id ≡ g.id → j ≡ k)
unfolding aggregate
aggregate_ids visit members j k f g hj hk =
    let ej : 0 + j + 1 ≡ j + 1 = omega arith in
    let ek : 0 + k + 1 ≡ k + 1 = omega arith in
    let first : f.id ≡ global_id (j + 1) =
      assign_ids-global_id 0 j (marked visit members) f hj ∙ ap global_id ej in
    let second : g.id ≡ global_id (k + 1) =
      assign_ids-global_id 0 k (marked visit members) g hk ∙ ap global_id ek in
    (
      subst (IsNumbered (j + 1)) (sym first) (global_id-IsNumbered (j + 1)),
      λ same. omega (arith, global_id-injective (j + 1) (k + 1) (sym first ∙ same ∙ second)),
    )

int_eq_refl : (a : ℤ) → int_eq a a ≡ true
unfolding int_eq
int_eq_refl (pos n) = ground arith
int_eq_refl (negsuc n) = ground arith

pair-group :
    (t u : TaggedFinding)
    → t.f.file ≡ u.f.file
    → line_or_zero t.f ≡ line_or_zero u.f
    → group_findings 0 (t ∷ u ∷ []) []
      ≡ (record { file = t.f.file; line = line_or_zero t.f; indices = 0 ∷ 1 ∷ [] }) ∷ []
pair-group t u same_file same_line =
    let files : text_eq t.f.file u.f.file ≡ true = (text_eq_iff t.f.file u.f.file).1 same_file in
    let lines : int_eq (line_or_zero t.f) (line_or_zero u.f) ≡ true =
      subst (λ l. int_eq (line_or_zero t.f) l ≡ true) same_line (int_eq_refl (line_or_zero t.f)) in
    unfold group_findings add_index in rw (files, lines)

-- Two findings of one group, from two members, with one per-member id.
pair-mark :
    (t u : TaggedFinding)
    → t.member_id ≡ u.member_id
    → text_eq t.member_name u.member_name ≡ false
    → t.f.file ≡ u.f.file
    → line_or_zero t.f ≡ line_or_zero u.f
    → mark_groups (group_findings 0 (t ∷ u ∷ []) []) (t ∷ u ∷ [])
      ≡ mark (t.member_id ∷ t.member_id ∷ []) t ∷ mark (t.member_id ∷ t.member_id ∷ []) u ∷ []
pair-mark t u same_id other same_file same_line =
    rw (pair-group t u same_file same_line) (unfold mark_groups in ground (arith, same_id, other))

-- Two members whose names give one prefix, and whose first findings stand on one line: both findings
-- are marked as an overlap, and neither names the other, since both have one per-member id.
pub same_prefix_hides_siblings :
    (a b : Text) (f g : Finding)
    → text_eq a b ≡ false
    → member_prefix a ≡ member_prefix b
    → f.file ≡ g.file
    → line_or_zero f ≡ line_or_zero g
    → map {B = Bool × List Text}
        (λ (x : Finding). (x.cross_lane_overlap, x.merged_from))
        (aggregate
          (λ gs. gs)
          ((record { member_name = a; findings = f ∷ [] })
            ∷ (record { member_name = b; findings = g ∷ [] })
            ∷ [])).findings
      ≡ (true, []) ∷ (true, []) ∷ []
same_prefix_hides_siblings a b f g other prefix file line =
    unfold aggregate marked assign_ids tag_members tag_findings tag_finding in
    rw (pair-mark t u same_id other same_file same_line)
      (ground (arith, same_id, text_eq_refl t.member_id))
  where
    t : TaggedFinding
    t = tag_finding a 0 f

    u : TaggedFinding
    u = tag_finding b 0 g

    same_id : t.member_id ≡ u.member_id
    same_id = unfold tag_finding in ap (λ p. member_id p 0) prefix

    same_file : t.f.file ≡ u.f.file
    same_file = unfold tag_finding in file

    same_line : line_or_zero t.f ≡ line_or_zero u.f
    same_line = unfold tag_finding line_or_zero in line
