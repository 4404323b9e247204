-- ===== src/CodeReview/Load.antt =====
-- LoadMemberFiles of internal/codereview/aggregate.go. What reading a file and decoding its JSON gave
-- stands in the directory entry; a directory that cannot be read has no listing.
use browzer_cli.Prelude.{
  ◌-◌, ◌≡◌, Bool, true, false, not, ◌&&◌, ◌||◌, Option, none, some, List, [], ◌∷◌, ◌++◌, arith,
  if◌then◌else◌, length, take, drop, append-nil, append_assoc, inl, inr, Option-cases,
}
use browzer_cli.Prelude.Text.{Text, codes, text_eq, text_lt, has_prefix, has_suffix}
use browzer_cli.Prelude.Sort.{sort}
use browzer_cli.CodeReview.{Finding, MemberFile}

pub data Content : Type 0 where
  read_error parse_error missing_findings invalid_findings : Content
  decoded : List Finding → Content

pub record DirEntry : Type 0 where
  pub is_dir : Bool
  pub name : Text
  pub content : Content

-- strings.TrimPrefix, strings.TrimSuffix
abbrev pub trim_prefix : Text → Text → Text
trim_prefix s p = if has_prefix s p then drop (length p) s else s

abbrev pub trim_suffix : Text → Text → Text
trim_suffix s p = if has_suffix s p then take (length s - length p) s else s

abbrev pub unless_empty : Text → Option Text
unless_empty [] = none
unless_empty (c ∷ s) = some (c ∷ s)

-- The member whose file an entry is, if the loop does not pass over the entry.
unfoldable pub member_of : DirEntry → Option Text
unfolding has_prefix has_suffix text_eq
member_of e =
    if e.is_dir
    then none
    else if not (has_prefix e.name (codes "CODE_REVIEW."))
        || not (has_suffix e.name (codes ".json"))
    then none
    else if text_eq e.name (codes "CODE_REVIEW.json")
    then none
    else unless_empty (trim_suffix (trim_prefix e.name (codes "CODE_REVIEW.")) (codes ".json"))

-- The directory cannot be read; a member file cannot be loaded, with the names skipped so far; or the
-- members and the skipped names.
pub data Loaded : Type 0 where
  unreadable : Loaded
  failed : List Text → Loaded
  loaded : List MemberFile → List Text → Loaded

abbrev findings_of : Content → Option (List Finding)
findings_of (decoded fs) = some fs
findings_of read_error = none
findings_of parse_error = none
findings_of missing_findings = none
findings_of invalid_findings = none

abbrev pub by_name : MemberFile → MemberFile → Bool
by_name a b = text_lt a.member_name b.member_name

unfoldable pub load_loop : Bool → List DirEntry → List MemberFile → List Text → Loaded
unfolding member_of sort text_lt
load_loop strict [] members skipped = loaded (sort by_name members) skipped
load_loop strict (e ∷ entries) members skipped = elim (member_of e) [
  | none ↦ load_loop strict entries members skipped
  | some member ↦ elim (findings_of e.content) [
    | some fs ↦
        load_loop strict entries (members ++ (record { member_name = member; findings = fs }) ∷ [])
          skipped
    | none ↦ elim strict [
      | true ↦ failed skipped
      | false ↦ load_loop strict entries members (skipped ++ e.name ∷ [])
    ]
  ]
]

unfoldable pub load_member_files : Bool → Option (List DirEntry) → Loaded
unfolding load_loop
load_member_files strict none = unreadable
load_member_files strict (some entries) = load_loop strict entries [] []

-- The member files that could be decoded.
abbrev pub good : List DirEntry → List MemberFile
good [] = []
good (e ∷ es) = elim (member_of e) [
  | none ↦ good es
  | some member ↦ elim (findings_of e.content) [
    | some fs ↦ (record { member_name = member; findings = fs }) ∷ good es
    | none ↦ good es
  ]
]

-- The member files that could not.
abbrev pub bad : List DirEntry → List Text
bad [] = []
bad (e ∷ es) = elim (member_of e) [
  | none ↦ bad es
  | some member ↦ elim (findings_of e.content) [ some fs ↦ bad es | none ↦ e.name ∷ bad es ]
]

abbrev pub is_empty : List Text → Bool
is_empty [] = true
is_empty (x ∷ xs) = false

module _ (strict : Bool) where
  -- What the loop returns from a given point on.
  abbrev pub outcome : List DirEntry → List MemberFile → List Text → Loaded
  outcome entries members skipped =
      if strict && not (is_empty (bad entries))
      then failed skipped
      else loaded (sort by_name (members ++ good entries)) (skipped ++ bad entries)

  pub load_loop-outcome :
      (entries : List DirEntry) (members : List MemberFile) (skipped : List Text)
      → load_loop strict entries members skipped ≡ outcome entries members skipped
  unfolding load_loop
  load_loop-outcome [] members skipped = ground (arith, append-nil members, append-nil skipped)
  load_loop-outcome (e ∷ entries) members skipped = elim (Option-cases (member_of e)) [
    | inl n ↦ ground (arith, n, load_loop-outcome entries members skipped)
    | inr (m, p) ↦ elim (Option-cases (findings_of e.content)) [
      | inl n ↦ ground (
        arith,
        p,
        n,
        load_loop-outcome entries members (skipped ++ e.name ∷ []),
        append_assoc skipped (e.name ∷ []) (bad entries),
      )
      | inr (fs, q) ↦
          let one : MemberFile = record { member_name = m; findings = fs } in
          ground (
            arith,
            p,
            q,
            load_loop-outcome entries (members ++ one ∷ []) skipped,
            append_assoc members (one ∷ []) (good entries),
          )
    ]
  ]
