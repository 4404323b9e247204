-- ===== src/Cache/Docs/Partition.antt =====
-- What ends up in which part of the difference.
use browzer_cli.Prelude.{
  Bool, true, false, not, none, some, List, [], ◌∷◌, ◌++◌, any, select, select-All, subst, ◌≡◌,
  refl, sym, ap, arith, append-nil, append_assoc, map, ◌∙◌, Bool-cases, inl, inr, ◌&&◌, ◌||◌, All,
}
use browzer_cli.Prelude.Text.{Text, text_eq}
use browzer_cli.Prelude.Text.Laws.{text_eq_iff, text_eq_refl}
use browzer_cli.Prelude.Assoc.{lookup, insert, lookup-insert}
use browzer_cli.Cache.Docs.{
  CachedDoc, DocsCache, DocFile, DeletedDoc, Diff, add_file, scan_current, scan_previous, diff_docs,
  is_in,
}

-- How a file stands to the entry that the cache has for its path.
module _ (files : List (Text × CachedDoc)) where
  abbrev pub is_added : DocFile → Bool
  is_added f = elim (lookup f.relative_path files) [ some _ ↦ false | none ↦ true ]

  abbrev pub is_modified : DocFile → Bool
  is_modified f = elim (lookup f.relative_path files) [
    | some e ↦ not (text_eq e.sha256 f.sha256)
    | none ↦ false
  ]

  abbrev pub is_unchanged : DocFile → Bool
  is_unchanged f = elim (lookup f.relative_path files) [
    | some e ↦ text_eq e.sha256 f.sha256
    | none ↦ false
  ]

abbrev pub has_path : Text → List DocFile → Bool
has_path path = any (λ f. text_eq f.relative_path path)

abbrev pub deletion : Text × CachedDoc → DeletedDoc
deletion (path, entry) = record { relative_path = path; document_id = entry.document_id }

module _ (files : List (Text × CachedDoc)) where
  -- The difference that a scan has made of `d`.
  abbrev scanned : List DocFile → Diff → Diff
  scanned current d = record {
    added = d.added ++ select (is_added files) current;
    modified = d.modified ++ select (is_modified files) current;
    unchanged = d.unchanged ++ select (is_unchanged files) current;
    deleted = d.deleted;
  }

  add_file-scanned :
      (f : DocFile) (current : List DocFile) (d : Diff)
      → scanned current (add_file files f d) ≡ scanned (f ∷ current) d
  unfolding add_file
  add_file-scanned f current d = ground (
    arith,
    append_assoc d.added (f ∷ []) (select (is_added files) current),
    append_assoc d.modified (f ∷ []) (select (is_modified files) current),
    append_assoc d.unchanged (f ∷ []) (select (is_unchanged files) current),
  )

  scan_current-Diff :
      (current : List DocFile) (seen : List (Text × Unit {0})) (d : Diff)
      → (scan_current files current seen d).1 ≡ scanned current d
  unfolding scan_current
  scan_current-Diff [] seen d = simp append-nil
  scan_current-Diff (f ∷ current) seen d =
      scan_current-Diff current (insert f.relative_path tt seen) (add_file files f d)
      ∙ add_file-scanned f current d

  scan_current-seen :
      (current : List DocFile) (seen : List (Text × Unit {0})) (d : Diff) (p : Text)
      → is_in p (scan_current files current seen d).0 ≡ (has_path p current || is_in p seen)
  unfolding scan_current
  scan_current-seen [] seen d p = refl
  scan_current-seen (f ∷ current) seen d p = ground (
    arith,
    scan_current-seen current (insert f.relative_path tt seen) (add_file files f d) p,
    lookup-insert f.relative_path p tt seen,
  )

scan_previous-select :
    (files : List (Text × CachedDoc)) (seen : List (Text × Unit {0})) (deleted : List DeletedDoc)
    → scan_previous files seen deleted
      ≡ deleted ++ map deletion (select (λ e. not (is_in e.0 seen)) files)
unfolding scan_previous
scan_previous-select [] seen deleted = sym (append-nil deleted)
scan_previous-select ((path, entry) ∷ files) seen deleted = elim (Bool-cases (is_in path seen)) [
  | inl e ↦ rw (e, scan_previous-select files seen deleted)
  | inr e ↦
      rw (e, scan_previous-select files seen (deleted ++ deletion (path, entry) ∷ []))
        (rw append_assoc)
]

select-ext {ℓ} :
    {A : Type ℓ} (p q : A → Bool) (xs : List A) → ((x : A) → p x ≡ q x) → select p xs ≡ select q xs
select-ext p q [] h = refl
select-ext p q (x ∷ xs) h = ground (arith, h x, select-ext p q xs h)

-- Each current file goes, in order, to the part that its path and hash in the cache call for, and the
-- deletions are the cached paths that no current file has.
pub diff_docs_partition :
    (current : List DocFile) (prev : DocsCache)
    → diff_docs current prev ≡ record {
      added = select (is_added prev.files) current;
      modified = select (is_modified prev.files) current;
      unchanged = select (is_unchanged prev.files) current;
      deleted = map deletion (select (λ e. not (has_path e.0 current)) prev.files);
    }
unfolding diff_docs
diff_docs_partition current prev =
    let start : Diff = record { added = []; modified = []; unchanged = []; deleted = [] } in
    let seen = (scan_current prev.files current [] start).0 in
    let same : (e : Text × CachedDoc) → not (is_in e.0 seen) ≡ not (has_path e.0 current) =
      λ e. ground (arith, scan_current-seen prev.files current [] start e.0) in
    rw (scan_current-Diff prev.files current [] start, scan_previous-select)
      (ap
        (λ stale. record {
          added = select (is_added prev.files) current;
          modified = select (is_modified prev.files) current;
          unchanged = select (is_unchanged prev.files) current;
          deleted = map deletion stale;
        })
        (select-ext _ _ prev.files same))

select-nil {ℓ} :
    {A : Type ℓ} (p : A → Bool) (xs : List A) → All (λ x. p x ≡ false) xs → select p xs ≡ []
select-nil p [] h = refl
select-nil p (x ∷ xs) (e, h) = rw (e, select-nil p xs h)

All-map {ℓ κ ι} :
    {A : Type ℓ} {P : A → Type κ} {Q : A → Type ι}
    → ((x : A) → P x → Q x)
    → (xs : List A) → All P xs
    → All Q xs
All-map f [] h = tt
All-map f (x ∷ xs) (h, hs) = (f x h, All-map f xs hs)

-- The cache has the file's path, with the file's hash.
abbrev pub IsRecorded : List (Text × CachedDoc) → DocFile → Type 0
IsRecorded files f =
    (e : CachedDoc) × (lookup f.relative_path files ≡ some e) × (e.sha256 ≡ f.sha256)

-- Where the cache records every current file and nothing else, a sync has nothing to upload and
-- nothing to delete: all files are unchanged.
pub diff_docs_settled :
    (current : List DocFile) (prev : DocsCache)
    → All (IsRecorded prev.files) current
    → All (λ e. has_path e.0 current ≡ true) prev.files
    → diff_docs current prev
      ≡ record { added = []; modified = []; unchanged = current; deleted = [] }
diff_docs_settled current prev recorded alive =
    let known : All (λ f. is_unchanged prev.files f ≡ true) current =
      All-map (λ f (e, found, same). ground (arith, text_eq_iff e.sha256 f.sha256)) current
        recorded in
    let old : All (λ f. is_added prev.files f ≡ false) current =
      All-map (λ f (e, found, same). ground (arith, found)) current recorded in
    let same : All (λ f. is_modified prev.files f ≡ false) current =
      All-map (λ f (e, found, same). ground (arith, text_eq_iff e.sha256 f.sha256)) current
        recorded in
    let kept : All (λ (e : Text × CachedDoc). not (has_path e.0 current) ≡ false) prev.files =
      All-map (λ e h. ap not h) prev.files alive in
    rw (
      diff_docs_partition current prev,
      select-All _ current known,
      select-nil _ current old,
      select-nil _ current same,
      select-nil _ prev.files kept,
    )

-- Is a path a key of the cache?
abbrev pub is_cached : List (Text × CachedDoc) → Text → Bool
is_cached files path = any (λ e. text_eq e.0 path) files

lookup-is_cached :
    (files : List (Text × CachedDoc)) (f : DocFile)
    → is_added files f ≡ not (is_cached files f.relative_path)
unfolding lookup
lookup-is_cached [] f = refl
lookup-is_cached ((j, v) ∷ files) f = ground (arith, lookup-is_cached files f)

has_path-added :
    (files : List (Text × CachedDoc)) (path : Text) (current : List DocFile)
    → has_path path (select (is_added files) current)
      ≡ (has_path path current && not (is_cached files path))
has_path-added files path [] = refl
has_path-added files path (f ∷ current) = elim (Bool-cases (text_eq f.relative_path path)) [
  | inl e ↦
      subst
        (λ p.
          has_path p (select (is_added files) (f ∷ current))
          ≡ (has_path p (f ∷ current) && not (is_cached files p)))
        ((text_eq_iff f.relative_path path).0 e)
        (ground (
          arith,
          text_eq_refl f.relative_path,
          lookup-is_cached files f,
          has_path-added files f.relative_path current,
        ))
  | inr e ↦ ground (arith, has_path-added files path current)
]

deleted_path :
    (current : List DocFile) (path : Text) (files : List (Text × CachedDoc))
    → any
        (λ x. text_eq x.relative_path path)
        (map deletion (select (λ e. not (has_path e.0 current)) files))
      ≡ (is_cached files path && not (has_path path current))
deleted_path current path [] = refl
deleted_path current path ((j, v) ∷ files) = elim (Bool-cases (text_eq j path)) [
  | inl e ↦
      subst
        (λ p.
          any (λ x. text_eq x.relative_path p)
            (map deletion (select (λ e. not (has_path e.0 current)) ((j, v) ∷ files)))
          ≡ (is_cached ((j, v) ∷ files) p && not (has_path p current)))
        ((text_eq_iff j path).0 e) (ground (arith, text_eq_refl j, deleted_path current j files))
  | inr e ↦ ground (arith, deleted_path current path files)
]

-- The paths that the server holds once the difference is applied to what the cache lists.
abbrev pub applied : DocsCache → Diff → Text → Bool
applied prev d path =
    (is_cached prev.files path && not (any (λ x. text_eq x.relative_path path) d.deleted))
    || has_path path d.added

-- Uploading what is added and deleting what is deleted leaves the server with exactly the paths of
-- the current files.
pub diff_docs_complete :
    (current : List DocFile) (prev : DocsCache) (path : Text)
    → applied prev (diff_docs current prev) path ≡ has_path path current
diff_docs_complete current prev path =
    rw (diff_docs_partition current prev)
      (ground (arith, has_path-added prev.files path current, deleted_path current path prev.files))
