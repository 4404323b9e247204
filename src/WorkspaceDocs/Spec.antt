-- ===== src/WorkspaceDocs/Spec.antt =====
-- internal/commands/workspace_docs_spec.go: what --add, --remove and --replace take, and what they
-- select. `open_file` is the reading of a file: none when it does not open, or its lines and
-- whether reading failed behind them. Paths are those of a system with forward slashes.
pub mod Safety
pub mod Literal
use browzer_cli.Prelude.{
  ℕ, Bool, true, false, not, ◌&&◌, ◌||◌, Option, none, some, List, [], ◌∷◌, ◌++◌, map,
  if◌then◌else◌, any, drop, ◌==◌,
}
use browzer_cli.Prelude.Text.{Text, codes, text_eq, trim_space, has_prefix, contains, split}
use browzer_cli.Prelude.Text.Glob.{path_match}
use browzer_cli.Prelude.Assoc.{lookup, insert}
use browzer_cli.WorkspaceDocs.Items.{DocPickerItem, has_local}

pub data SpecScope : Type 0 where
  scope_add scope_remove scope_replace : SpecScope

-- map[string]bool: its entries are all true.
abbrev pub Matched : Type 0
Matched = List (Text × Bool)

-- m[path]
abbrev pub is_matched : Matched → Text → Bool
is_matched m path = elim (lookup path m) [ some b ↦ b | none ↦ false ]

pub record SpecResolver : Type 0 where
  pub resolve : List DocPickerItem → Matched × List Text
  pub raw : Text
  pub sentinel : Text

-- The errors, with what their messages quote.
pub data SpecError : Type 0 where
  empty_spec : SpecError
  sentinel_not_allowed : Text → List Text → SpecError
  double_star : SpecError
  invalid_glob : Text → SpecError
  empty_list : Text → SpecError
  open_error : Text → SpecError
  read_error : Text → SpecError
  no_paths : Text → SpecError

pub data Parsed {ℓ} (A : Type ℓ) : Type ℓ where
  ok : A → Parsed A
  error : SpecError → Parsed A

-- matchSentinel, with the empty text where there is none
unfoldable pub match_sentinel : Text → SpecScope → Text
unfolding text_eq
match_sentinel s scope_add = if text_eq s (codes "new") then codes "new" else []
match_sentinel s scope_replace =
    if text_eq s (codes "all") || text_eq s (codes "none") then s else []
match_sentinel s scope_remove = []

unfoldable pub is_any_sentinel : Text → Bool
unfolding text_eq
is_any_sentinel s = text_eq s (codes "new") || text_eq s (codes "all") || text_eq s (codes "none")

abbrev pub valid_sentinels : SpecScope → List Text
valid_sentinels scope_add = codes "new" ∷ []
valid_sentinels scope_replace = codes "all" ∷ codes "none" ∷ []
valid_sentinels scope_remove = []

-- The paths of the items that pass a test, as the loops of the resolvers collect them.
unfoldable pub match_items : (DocPickerItem → Bool) → List DocPickerItem → Matched → Matched
unfolding insert
match_items p [] m = m
match_items p (it ∷ items) m =
    match_items p items (if p it then insert it.relative_path true m else m)

unfoldable pub sentinel_test : Text → DocPickerItem → Bool
unfolding text_eq has_local
sentinel_test sentinel it =
    if text_eq sentinel (codes "new")
    then has_local it && not it.indexed
    else if text_eq sentinel (codes "all")
    then has_local it
    else false

unfoldable pub new_sentinel_resolver : Text → Text → SpecResolver
unfolding match_items sentinel_test
new_sentinel_resolver raw sentinel = record {
  resolve = λ items. (match_items (sentinel_test sentinel) items [], []);
  raw = raw;
  sentinel = sentinel;
}

-- The loop over the paths of newLiteralResolver; `index` tells which paths the items have.
unfoldable pub match_paths :
    List DocPickerItem → List Text → Matched → List Text → Matched × List Text
unfolding insert text_eq
match_paths items [] m unresolved = (m, unresolved)
match_paths items (p ∷ paths) m unresolved =
    if any (λ (it : DocPickerItem). text_eq it.relative_path p) items
    then match_paths items paths (insert p true m) unresolved
    else match_paths items paths m (unresolved ++ p ∷ [])

unfoldable pub new_literal_resolver : Text → List Text → SpecResolver
unfolding match_paths
new_literal_resolver raw paths = record {
  resolve = λ items. match_paths items paths [] [];
  raw = raw;
  sentinel = [];
}

unfoldable pub glob_test : Text → DocPickerItem → Bool
unfolding path_match
glob_test pattern it = elim (path_match pattern it.relative_path) [ some b ↦ b | none ↦ false ]

unfoldable pub new_glob_resolver : Text → SpecResolver
unfolding match_items glob_test
new_glob_resolver pattern = record {
  resolve = λ items. (match_items (glob_test pattern) items [], []);
  raw = pattern;
  sentinel = [];
}

-- What is left of the lines of a spec file.
unfoldable pub spec_lines : List Text → List Text
unfolding trim_space text_eq has_prefix
spec_lines [] = []
spec_lines (l ∷ ls) =
    let rest = spec_lines ls in
    let line : Text = trim_space l in
    if text_eq line [] || has_prefix line (codes "#") then rest else line ∷ rest

unfoldable pub read_spec_file : (Text → Option (List Text × Bool)) → Text → Parsed (List Text)
unfolding spec_lines
read_spec_file open_file path = elim (open_file path) [
  | none ↦ error (open_error path)
  | some (ls, bad) ↦
      if bad
      then error (read_error path)
      else elim (spec_lines ls) [ [] ↦ error (no_paths path) | p ∷ ps ↦ ok (p ∷ ps) ]
]

-- strings.ContainsAny(s, "*?[")
abbrev pub is_glob : Text → Bool
is_glob s = any (λ c. c == b'*' || c == b'?' || c == b'[') s

-- The loop over the parts of a comma list.
unfoldable pub trimmed_parts : List Text → List Text
unfolding trim_space text_eq
trimmed_parts [] = []
trimmed_parts (part ∷ parts) =
    let rest = trimmed_parts parts in
    let p : Text = trim_space part in if not (text_eq p []) then p ∷ rest else rest

unfoldable pub parse_list : Text → Parsed SpecResolver
unfolding trimmed_parts split new_literal_resolver
parse_list s = elim (trimmed_parts (split b',' s)) [
  | [] ↦ error (empty_list s)
  | p ∷ ps ↦ ok (new_literal_resolver s (p ∷ ps))
]

unfoldable pub parse_glob : Text → Parsed SpecResolver
unfolding contains path_match new_glob_resolver
parse_glob s =
    if contains s (codes "**") then error double_star else elim (path_match s (codes "probe")) [
      | none ↦ error (invalid_glob s)
      | some b ↦ ok (new_glob_resolver s)
    ]

unfoldable pub parse_file : (Text → Option (List Text × Bool)) → Text → Parsed SpecResolver
unfolding read_spec_file new_literal_resolver
parse_file open_file s = elim (read_spec_file open_file (drop 1 s)) [
  | error e ↦ error e
  | ok paths ↦ ok (new_literal_resolver s paths)
]

-- parseSpec behind the trimming
unfoldable pub parse_trimmed :
    (Text → Option (List Text × Bool)) → Text → SpecScope → Parsed SpecResolver
unfolding match_sentinel is_any_sentinel new_sentinel_resolver parse_file parse_glob parse_list
    text_eq has_prefix
parse_trimmed open_file s scope =
    if text_eq s []
    then error empty_spec
    else if not (text_eq (match_sentinel s scope) [])
    then ok (new_sentinel_resolver s (match_sentinel s scope))
    else if is_any_sentinel s
    then error (sentinel_not_allowed s (valid_sentinels scope))
    else if has_prefix s (codes "@")
    then parse_file open_file s
    else if is_glob s
    then parse_glob s
    else parse_list s

unfoldable pub parse_spec :
    (Text → Option (List Text × Bool)) → Text → SpecScope → Parsed SpecResolver
unfolding parse_trimmed trim_space
parse_spec open_file s scope = parse_trimmed open_file (trim_space s) scope

pub record ApplyResult : Type 0 where
  pub unresolved_add : List Text
  pub unresolved_remove : List Text
  pub unresolved_replace : List Text

-- out[i].Selected = out[i].Indexed
abbrev pub select_indexed : DocPickerItem → DocPickerItem
select_indexed it = record it { selected = it.indexed }

abbrev pub select_matched : Matched → DocPickerItem → DocPickerItem
select_matched m it = record it { selected = is_matched m it.relative_path }

abbrev pub select_added : Matched → DocPickerItem → DocPickerItem
select_added m it = if is_matched m it.relative_path then record it { selected = true } else it

abbrev pub deselect_removed : Matched → DocPickerItem → DocPickerItem
deselect_removed m it =
    if is_matched m it.relative_path
    then (if not it.indexed then it else record it { selected = false })
    else it

-- The paths that are to be removed and are not indexed.
unfoldable pub not_indexed : Matched → List DocPickerItem → List Text
unfolding lookup
not_indexed m [] = []
not_indexed m (it ∷ items) =
    let rest = not_indexed m items in
    if is_matched m it.relative_path && not it.indexed then it.relative_path ∷ rest else rest

abbrev pub no_unresolved : ApplyResult
no_unresolved = record { unresolved_add = []; unresolved_remove = []; unresolved_replace = [] }

unfoldable pub apply_add :
    Option SpecResolver → ApplyResult × List DocPickerItem → ApplyResult × List DocPickerItem
unfolding lookup
apply_add none (res, out) = (res, out)
apply_add (some spec) (res, out) =
    let (matched, unresolved) = spec.resolve out in
    (record res { unresolved_add = unresolved }, map (select_added matched) out)

unfoldable pub apply_remove :
    Option SpecResolver → ApplyResult × List DocPickerItem → ApplyResult × List DocPickerItem
unfolding lookup not_indexed
apply_remove none (res, out) = (res, out)
apply_remove (some spec) (res, out) =
    let (matched, unresolved) = spec.resolve out in
    (
      record res {
        unresolved_remove = res.unresolved_remove ++ unresolved ++ not_indexed matched out;
      },
      map (deselect_removed matched) out,
    )

unfoldable pub apply_specs_to_items :
    List DocPickerItem
    → Option SpecResolver
    → Option SpecResolver
    → Option SpecResolver
    → ApplyResult × List DocPickerItem
unfolding apply_add apply_remove lookup
apply_specs_to_items items add remove (some spec) =
    let (matched, unresolved) = spec.resolve items in
    (record no_unresolved { unresolved_replace = unresolved }, map (select_matched matched) items)
apply_specs_to_items items add remove none =
    apply_remove remove (apply_add add (no_unresolved, map select_indexed items))
