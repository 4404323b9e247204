-- ===== src/WorkspaceDocs/Items/Merge.antt =====
-- The merged list has an item for each path of either side, made of what both sides say of it.
use browzer_cli.Prelude.{
  Bool, true, false, Option, none, some, List, [], ◌∷◌, ◌≡◌, refl, sym, ap, subst, ◌∙◌, arith,
  if◌then◌else◌, select, Bool-cases, Option-cases, inl, inr,
}
use browzer_cli.Prelude.Text.{Text, text_eq}
use browzer_cli.Prelude.Text.Laws.{text_eq_iff, text_eq_refl, text_lt_asym, text_lt_step}
use browzer_cli.Prelude.Assoc.{lookup, insert, lookup-insert}
use browzer_cli.Prelude.Sort.{IsSorted, sort-IsSorted}
use browzer_cli.Cache.Docs.{DocFile}
use browzer_cli.WorkspaceDocs.Items.Rows.{
  has_path, at_most_one, add_local-IsMap, add_server-IsMap, values-select, sort-at_most_one,
}
use browzer_cli.WorkspaceDocs.Items.{
  DocPickerItem, IndexedDocument, local_item, index_item, new_item, found_or_new, add_local,
  add_server, path_less, values, merge_doc_items,
}

-- The last file, and the last document, of a path.
abbrev pub last_local : Text → List DocFile → Option DocFile
last_local p [] = none
last_local p (f ∷ fs) = elim (last_local p fs) [
  | some g ↦ some g
  | none ↦ if text_eq f.relative_path p then some f else none
]

abbrev pub last_server : Text → List IndexedDocument → Option IndexedDocument
last_server p [] = none
last_server p (d ∷ ds) = elim (last_server p ds) [
  | some e ↦ some e
  | none ↦ if text_eq d.relative_path p then some d else none
]

-- What the file, or else `before`, makes of the item, and what the document then adds.
abbrev pub with_local : Option DocFile → Option DocPickerItem → Option DocPickerItem
with_local none before = before
with_local (some f) before = some (local_item f)

abbrev pub with_server : Text → Option IndexedDocument → Option DocPickerItem → Option DocPickerItem
with_server p none before = before
with_server p (some d) before = some (index_item d (found_or_new p before))

lookup-add_local :
    (p : Text) (fs : List DocFile) (m : List (Text × DocPickerItem))
    → lookup p (add_local fs m) ≡ with_local (last_local p fs) (lookup p m)
unfolding add_local
lookup-add_local p [] m = refl
lookup-add_local p (f ∷ fs) m = ground (
  arith,
  lookup-add_local p fs (insert f.relative_path (local_item f) m),
  lookup-insert f.relative_path p (local_item f) m,
)

index_item-index_item :
    (d e : IndexedDocument) (it : DocPickerItem) → index_item d (index_item e it) ≡ index_item d it
unfolding index_item
index_item-index_item d e it = refl

abbrev or_this : Bool → IndexedDocument → Option IndexedDocument → Option IndexedDocument
or_this b d (some e) = some e
or_this b d none = if b then some d else none

with_server-same :
    (q : Text) (d : IndexedDocument) (o : Option IndexedDocument) (before : Option DocPickerItem)
    → with_server q o (some (index_item d (found_or_new q before)))
      ≡ with_server q (or_this true d o) before
unfolding index_item
with_server-same q d none before = refl
with_server-same q d (some e) before = refl

with_server-other :
    (q : Text) (d : IndexedDocument) (o : Option IndexedDocument) (before : Option DocPickerItem)
    → with_server q o before ≡ with_server q (or_this false d o) before
with_server-other q d none before = refl
with_server-other q d (some e) before = refl

lookup-add_server :
    (p : Text) (ds : List IndexedDocument) (m : List (Text × DocPickerItem))
    → lookup p (add_server ds m) ≡ with_server p (last_server p ds) (lookup p m)
unfolding add_server
lookup-add_server p [] m = refl
lookup-add_server p (d ∷ ds) m =
    let q : Text = d.relative_path in
    let it : DocPickerItem = index_item d (found_or_new q (lookup q m)) in
    lookup-add_server p ds (insert q it m)
    ∙ ap (with_server p (last_server p ds)) (lookup-insert q p it m)
    ∙ elim (Bool-cases (text_eq q p)) [
      | inl e ↦
          subst
            (λ x.
              with_server x (last_server x ds) (if text_eq q x then some it else lookup x m)
              ≡ with_server x (or_this (text_eq q x) d (last_server x ds)) (lookup x m))
            ((text_eq_iff q p).0 e)
            (rw (text_eq_refl q) (with_server-same q d (last_server q ds) (lookup q m)))
      | inr e ↦
          ap (λ b. with_server p (last_server p ds) (if b then some it else lookup p m)) e
          ∙ with_server-other p d (last_server p ds) (lookup p m)
          ∙ ap (λ b. with_server p (or_this b d (last_server p ds)) (lookup p m)) (sym e)
    ]

-- The item of a path, field by field, by its last local file and its last server document.
abbrev pub described : Text → Option DocFile → Option IndexedDocument → Option DocPickerItem
described p none none = none
described p (some f) none = some (record {
  relative_path = p;
  local_hash = f.sha256;
  local_size = f.size;
  local_abs = f.absolute_path;
  server_document_id = [];
  server_chunk_count = 0;
  server_size_bytes = 0;
  server_status = [];
  indexed = false;
  selected = false;
})
described p none (some d) = some (record {
  relative_path = p;
  local_hash = [];
  local_size = 0;
  local_abs = [];
  server_document_id = d.document_id;
  server_chunk_count = d.chunk_count;
  server_size_bytes = d.size_bytes;
  server_status = d.status;
  indexed = true;
  selected = true;
})
described p (some f) (some d) = some (record {
  relative_path = p;
  local_hash = f.sha256;
  local_size = f.size;
  local_abs = f.absolute_path;
  server_document_id = d.document_id;
  server_chunk_count = d.chunk_count;
  server_size_bytes = d.size_bytes;
  server_status = d.status;
  indexed = true;
  selected = true;
})

last_local-path :
    (p : Text) (fs : List DocFile) (f : DocFile) → last_local p fs ≡ some f → f.relative_path ≡ p
last_local-path p [] f h = cc
last_local-path p (x ∷ fs) f h = elim (Option-cases (last_local p fs)) [
  | inl n ↦ ground (arith, n, text_eq_iff x.relative_path p)
  | inr (g, e) ↦ ground (arith, e, last_local-path p fs f)
]

with_server-described :
    (p : Text) (l : Option DocFile) (s : Option IndexedDocument)
    → ((f : DocFile) → l ≡ some f → f.relative_path ≡ p)
    → with_server p s (with_local l none) ≡ described p l s
unfolding local_item index_item new_item
with_server-described p none none h = refl
with_server-described p none (some d) h = refl
with_server-described p (some f) none h = ground (arith, h f refl)
with_server-described p (some f) (some d) h = ground (arith, h f refl)

-- mergeDocItems returns its items in the order of their paths. A path that occurs on either side has
-- exactly one of them, and no other path has one: it has the hash, the size and the place of the last
-- local file of the path and the id, the chunks, the size and the status of the last server document
-- of the path, where there is such a one, and it is indexed and selected if the server has it.
pub merge_doc_items_lem :
    (local : List DocFile) (server : List IndexedDocument)
    → IsSorted path_less (merge_doc_items local server)
      × ((p : Text)
          → select (has_path p) (merge_doc_items local server)
            ≡ at_most_one (described p (last_local p local) (last_server p server)))
unfolding merge_doc_items
merge_doc_items_lem local server =
    let m : List (Text × DocPickerItem) = add_server server (add_local local []) in
    (
      sort-IsSorted path_less (λ x y. text_lt_asym x.relative_path y.relative_path)
          (λ x y z. text_lt_step x.relative_path y.relative_path z.relative_path) (values m),
      λ p.
          sort-at_most_one (has_path p) (described p (last_local p local) (last_server p server))
            (values m)
            (values-select p m (add_server-IsMap server _ (add_local-IsMap local [] tt))
              ∙ ap at_most_one (
                  lookup-add_server p server (add_local local [])
                  ∙ ap (with_server p (last_server p server)) (lookup-add_local p local [])
                  ∙ with_server-described p (last_local p local) (last_server p server)
                      (last_local-path p local))),
    )
