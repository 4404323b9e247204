-- ===== src/CodeReview/Members.antt =====
-- Which entries of the directory are files of members, and what LoadMemberFiles makes of them.
use browzer_cli.Prelude.{
  ℕ, ◌-◌, Bool, true, false, not, ◌&&◌, ◌||◌, Option, none, some, List, [], ◌∷◌, ◌++◌, ◌≡◌, ◌≢◌,
  ◌↔◌, ◌⊎◌, inl, inr, refl, sym, ap, ◌∙◌, arith, if◌then◌else◌, length, length-append, take, ◌==◌,
  Bool-cases,
}
use browzer_cli.Prelude.Text.{Text, codes, text_eq, has_prefix, has_suffix}
use browzer_cli.Prelude.Text.Laws.{
  text_eq_iff, has_prefix-append, has_prefix_inv, has_suffix-append, has_suffix_inv, text_lt_asym,
  text_lt_step,
}
use browzer_cli.Prelude.Sort.{sort, IsSorted, sort-IsSorted}
use browzer_cli.CodeReview.Load.{
  DirEntry, trim_prefix, trim_suffix, unless_empty, member_of, unreadable, failed, loaded, by_name,
  good, bad, is_empty, load_loop-outcome, load_member_files,
}

abbrev head : Text
head = codes "CODE_REVIEW."

abbrev tail : Text
tail = codes ".json"

-- An entry that is a file with a name of a member.
abbrev pub IsMemberFile : DirEntry → Text → Type 0
IsMemberFile e m =
    (e.is_dir ≡ false) × (e.name ≡ codes "CODE_REVIEW." ++ (m ++ codes ".json")) × (m ≢ [])

take-append : (m s : Text) → take (length m) (m ++ s) ≡ m
take-append [] s = refl
take-append (c ∷ m) s = ap (λ t. c ∷ t) (take-append m s)

trim_suffix-append : (m : Text) → trim_suffix (m ++ tail) tail ≡ m
trim_suffix-append m =
    let e : length (m ++ tail) - 5 ≡ length m = omega (arith, length-append m tail) in
    rw (has_suffix-append m tail) (ap (λ n. take n (m ++ tail)) e ∙ take-append m tail)

-- Two ways to split a text: one of the first parts begins with the other.
overlap :
    (p r q s : Text)
    → p ++ r ≡ q ++ s
    → ((t : Text) × (q ≡ p ++ t) × (r ≡ t ++ s)) ⊎ ((t : Text) × (p ≡ q ++ t) × (s ≡ t ++ r))
overlap [] r q s e = inl (q, refl, e)
overlap (c ∷ p) r [] s e = inr (c ∷ p, refl, sym e)
overlap (c ∷ p) r (d ∷ q) s e =
    let same : c ≡ d = cc e in
    let rest : p ++ r ≡ q ++ s = cc e in
    elim (overlap p r q s rest) [ inl (t, a, b) ↦ inl (t, cc, b) | inr (t, a, b) ↦ inr (t, cc, b) ]

behind_dot : Text → Text
behind_dot [] = []
behind_dot (c ∷ s) = let rest = behind_dot s in if c == b'.' then s else rest

cons-ne-nil : (c : ℕ) (s : Text) → c ∷ s ≢ []
cons-ne-nil c s = λ e. cc e

nonempty-append : (q : Text) (c : ℕ) (s : Text) → q ++ c ∷ s ≢ []
nonempty-append [] c s = cons-ne-nil c s
nonempty-append (d ∷ q) c s = cons-ne-nil d (q ++ c ∷ s)

something_behind : (q : Text) (d : ℕ) (x : Text) → behind_dot (q ++ b'.' ∷ d ∷ x) ≢ []
unfolding behind_dot
something_behind [] d x = cons-ne-nil d x
something_behind (c ∷ q) d x = elim (Bool-cases (c == b'.')) [
  | inl e ↦ rw e (nonempty-append q b'.' (d ∷ x))
  | inr e ↦ rw e (something_behind q d x)
]

-- The dot of the head and that of the tail are one only in CODE_REVIEW.json.
one_dot :
    (q t r : Text)
    → head ≡ q ++ t
    → tail ≡ t ++ r
    → (head ++ r ≡ codes "CODE_REVIEW.json") ⊎ (r ≡ tail)
one_dot q [] r e f = inr (sym f)
one_dot q (c ∷ []) r e f = inl (ap (λ x. head ++ x) (sym (let g : codes "json" ≡ r = cc f in g)))
one_dot q (c ∷ d ∷ t) r e f =
    let dot : b'.' ≡ c = cc f in
    absurd (
      something_behind q d t (
        ap (λ x. behind_dot (q ++ x ∷ d ∷ t)) dot
        ∙ sym (ap behind_dot e)
        ∙ unfold behind_dot in refl))

-- The guards of an entry, as tests.
abbrev guarded : Bool → Bool → Bool → Bool → Option Text → Option Text
guarded dir a b c x = if dir then none else if not a || not b then none else if c then none else x

passes :
    (dir a b c : Bool) (x : Option Text)
    → dir ≡ false
    → a ≡ true
    → b ≡ true
    → c ≡ false
    → guarded dir a b c x ≡ x
passes dir a b c x h i j k = ground arith

passed :
    (dir a b c : Bool) (x : Option Text) (m : Text)
    → guarded dir a b c x ≡ some m
    → (dir ≡ false) × (a ≡ true) × (b ≡ true) × (c ≡ false)
passed dir a b c x m h = ground arith

name_parts :
    (name : Text)
    → has_prefix name head ≡ true
    → has_suffix name tail ≡ true
    → text_eq name (codes "CODE_REVIEW.json") ≡ false
    → (m : Text) × (name ≡ head ++ (m ++ tail))
name_parts name a b c =
    let (r, e) = has_prefix_inv name head a in
    let (q, f) = has_suffix_inv name tail b in
    elim (overlap head r q tail (sym e ∙ f)) [
      | inl (t, g, h) ↦ (t, e ∙ ap (λ x. head ++ x) h)
      | inr (t, g, h) ↦ elim (one_dot q t r g h) [
        | inl k ↦ absurd (
            true_and_false (text_eq name (codes "CODE_REVIEW.json"))
              ((text_eq_iff name (codes "CODE_REVIEW.json")).1 (e ∙ k)) c)
        | inr k ↦ ([], e ∙ ap (λ x. head ++ x) k)
      ]
    ]
  where
    true_and_false : (b : Bool) → b ≡ true → b ≢ false
    true_and_false b h = λ k. cc

not_summary : (m : Text) → text_eq (head ++ (m ++ tail)) (codes "CODE_REVIEW.json") ≡ false
not_summary m = elim (Bool-cases (text_eq (head ++ (m ++ tail)) (codes "CODE_REVIEW.json"))) [
  | inl e ↦
      let same = ap length ((text_eq_iff (head ++ (m ++ tail)) (codes "CODE_REVIEW.json")).0 e) in
      absurd (omega (arith, same, length-append m tail))
  | inr e ↦ e
]

-- What the guards leave of a file with such a name.
member_of-name :
    (e : DirEntry) (m : Text)
    → e.is_dir ≡ false
    → e.name ≡ head ++ (m ++ tail)
    → member_of e ≡ unless_empty m
unfolding member_of
member_of-name e m d n =
    let p : has_prefix e.name head ≡ true =
      ap (λ x. has_prefix x head) n ∙ has_prefix-append head (m ++ tail) in
    let s : has_suffix e.name tail ≡ true =
      ap (λ x. has_suffix x tail) n ∙ has_suffix-append (head ++ m) tail in
    let j : text_eq e.name (codes "CODE_REVIEW.json") ≡ false =
      ap (λ x. text_eq x (codes "CODE_REVIEW.json")) n ∙ not_summary m in
    let t : trim_prefix e.name head ≡ m ++ tail =
      ap (λ x. trim_prefix x head) n
      ∙ ap (λ b. if b then m ++ tail else head ++ (m ++ tail))
          (has_prefix-append head (m ++ tail)) in
    passes e.is_dir (has_prefix e.name head) (has_suffix e.name tail)
      (text_eq e.name (codes "CODE_REVIEW.json")) _ d p s j
    ∙ ap (λ x. unless_empty (trim_suffix x tail)) t
    ∙ ap unless_empty (trim_suffix-append m)

unless_empty_iff : (m n : Text) → (unless_empty m ≡ some n) ↔ ((m ≡ n) × (n ≢ []))
unless_empty_iff [] n = (λ h. cc, λ h. absurd (h.1 (sym h.0)))
unless_empty_iff (c ∷ s) n =
    (λ h. (cc h, λ k. cons-ne-nil c s (let e : c ∷ s ≡ n = cc h in e ∙ k)), λ h. ap some h.0)

-- An entry is the file of a member exactly if it has such a name.
member_of_iff : (e : DirEntry) (m : Text) → (member_of e ≡ some m) ↔ IsMemberFile e m
member_of_iff e m = (
  λ h.
      let tests =
        passed e.is_dir (has_prefix e.name head) (has_suffix e.name tail)
          (text_eq e.name (codes "CODE_REVIEW.json"))
          (unless_empty (trim_suffix (trim_prefix e.name head) tail)) m (unfold member_of in h) in
      let (n, name) = name_parts e.name tests.1 tests.2 tests.3 in
      let found = (unless_empty_iff n m).0 (sym (member_of-name e n tests.0 name) ∙ h) in
      (tests.0, name ∙ ap (λ x. head ++ (x ++ tail)) found.0, found.1),
  λ h. member_of-name e m h.0 h.1 ∙ (unless_empty_iff m m).1 (refl, h.2),
)

-- A directory that cannot be read is an error in both modes. Of one that can be read, loading without
-- strict mode returns the decoded member files, sorted by member, and the names of all others, and
-- never fails; in strict mode it fails exactly when some member file cannot be decoded, and else
-- returns the same. An entry is the file of a member exactly if it is no directory and its name is
-- that of the member, which is not empty, between "CODE_REVIEW." and ".json".
pub load_member_files_lem :
    (strict : Bool) (entries : List DirEntry)
    → (load_member_files strict none ≡ unreadable)
      × (load_member_files strict (some entries) ≡ (
          if strict && not (is_empty (bad entries))
          then failed []
          else loaded (sort by_name (good entries)) (bad entries)))
      × IsSorted by_name (sort by_name (good entries))
      × ((e : DirEntry) (m : Text) → (member_of e ≡ some m) ↔ IsMemberFile e m)
unfolding load_member_files
load_member_files_lem strict entries = (
  refl,
  load_loop-outcome strict entries [] [],
  sort-IsSorted by_name (λ x y. text_lt_asym x.member_name y.member_name)
      (λ x y z. text_lt_step x.member_name y.member_name z.member_name) (good entries),
  member_of_iff,
)
