-- ===== src/WorkspaceDocs/Sync/Plan.antt =====
-- What a sync plans for the documents.
use browzer_cli.Prelude.{Bool, not, ◌&&◌, List, [], ◌∷◌, ◌≡◌, refl, ◌∙◌, select, map, All, arith}
use browzer_cli.Prelude.Text.{Text}
use browzer_cli.Prelude.Assoc.{lookup, insert}
use browzer_cli.Prelude.Sort.{sort-every}
use browzer_cli.Cache.Docs.{CachedDoc, DocFile}
use browzer_cli.WorkspaceDocs.Items.{
  DocPickerItem, IndexedDocument, has_local, local_item, index_item, found_or_new, add_local,
  add_server, values, path_less, merge_doc_items,
}
use browzer_cli.WorkspaceDocs.Items.Delta.{
  deletes, inserts, re_uploads, keeps, is_cached, compute_doc_delta_lists,
}
use browzer_cli.WorkspaceDocs.Sync.{SyncWorld, sync_selected, plan_of}

-- A merged item is selected if the service has it.
abbrev IsMerged : DocPickerItem → Type 0
IsMerged it = it.selected ≡ it.indexed

abbrev AllMerged : List (Text × DocPickerItem) → Type 0
AllMerged = All (λ (e : Text × DocPickerItem). IsMerged e.1)

insert-AllMerged :
    (k : Text) (it : DocPickerItem) (m : List (Text × DocPickerItem))
    → IsMerged it
    → AllMerged m
    → AllMerged (insert k it m)
unfolding insert
insert-AllMerged k it [] h hs = (h, tt)
insert-AllMerged k it ((j, it') ∷ m) h (h', hs) = ground (arith, insert-AllMerged k it m h hs)

add_local-AllMerged :
    (fs : List DocFile) (m : List (Text × DocPickerItem)) → AllMerged m → AllMerged (add_local fs m)
unfolding add_local local_item
add_local-AllMerged [] m h = h
add_local-AllMerged (f ∷ fs) m h =
    add_local-AllMerged fs (insert f.relative_path (local_item f) m)
      (insert-AllMerged f.relative_path (local_item f) m refl h)

add_server-AllMerged :
    (ds : List IndexedDocument) (m : List (Text × DocPickerItem))
    → AllMerged m
    → AllMerged (add_server ds m)
unfolding add_server index_item
add_server-AllMerged [] m h = h
add_server-AllMerged (d ∷ ds) m h = add_server-AllMerged ds _ (
    insert-AllMerged d.relative_path
      (index_item d (found_or_new d.relative_path (lookup d.relative_path m))) m refl h)

values-All : (m : List (Text × DocPickerItem)) → AllMerged m → All IsMerged (values m)
values-All [] h = tt
values-All ((k, it) ∷ m) (h, hs) = (h, values-All m hs)

merge_doc_items-IsMerged :
    (local : List DocFile) (server : List IndexedDocument)
    → All IsMerged (merge_doc_items local server)
unfolding merge_doc_items
merge_doc_items-IsMerged local server =
    sort-every path_less IsMerged (values (add_server server (add_local local [])))
      (values-All _ (add_server-AllMerged server _ (add_local-AllMerged local [] tt)))

abbrev pub is_new : DocPickerItem → Bool
is_new it = not it.indexed && has_local it

abbrev pub is_gone : DocPickerItem → Bool
is_gone it = it.indexed && not (has_local it)

module _ (files : List (Text × CachedDoc)) where
  abbrev pub is_changed : DocPickerItem → Bool
  is_changed it = it.indexed && has_local it && not (is_cached files it)

  abbrev pub is_unchanged : DocPickerItem → Bool
  is_unchanged it = it.indexed && has_local it && is_cached files it

-- Selecting after the sync's choice is selecting by another test before it.
select-sync_selected :
    (p q : DocPickerItem → Bool) (items : List DocPickerItem)
    → ((it : DocPickerItem) → IsMerged it → p (sync_selected it) ≡ q it)
    → All IsMerged items
    → select p (map sync_selected items) ≡ map sync_selected (select q items)
select-sync_selected p q [] h hs = refl
select-sync_selected p q (it ∷ items) h (m, hs) =
    ground (arith, h it m, select-sync_selected p q items h hs)

inserts-is_new : (it : DocPickerItem) → IsMerged it → inserts (sync_selected it) ≡ is_new it
unfolding sync_selected has_local
inserts-is_new it m = ground arith

deletes-is_gone : (it : DocPickerItem) → IsMerged it → deletes (sync_selected it) ≡ is_gone it
unfolding sync_selected has_local
deletes-is_gone it m = ground arith

re_uploads-is_changed :
    (files : List (Text × CachedDoc)) (it : DocPickerItem)
    → IsMerged it
    → re_uploads files (sync_selected it) ≡ is_changed files it
unfolding sync_selected has_local
re_uploads-is_changed files it m = ground arith

keeps-is_unchanged :
    (files : List (Text × CachedDoc)) (it : DocPickerItem)
    → IsMerged it
    → keeps files (sync_selected it) ≡ is_unchanged files it
unfolding sync_selected has_local
keeps-is_unchanged files it m = ground arith

-- A sync plans to insert the local items that the service lacks, to upload again the local items
-- that it has and whose cached hash differs or is missing, to delete the items that it has and that
-- are gone locally, and to keep the other local items that it has; nothing else is in its plan.
pub plan_of_lem :
    (w : SyncWorld) (server : List IndexedDocument) (local : List DocFile)
    → let items = merge_doc_items local server in
      let files = w.docs.docs_cache.files in
      plan_of w server local ≡ record {
        to_insert = map sync_selected (select is_new items);
        to_re_upload = map sync_selected (select (is_changed files) items);
        to_delete = map sync_selected (select is_gone items);
        to_keep = map sync_selected (select (is_unchanged files) items);
      }
unfolding plan_of
plan_of_lem w server local =
    let items : List DocPickerItem = merge_doc_items local server in
    let files : List (Text × CachedDoc) = w.docs.docs_cache.files in
    let merged : All IsMerged items = merge_doc_items-IsMerged local server in
    (compute_doc_delta_lists (map sync_selected items) w.docs.docs_cache).0
    ∙ cc (
      select-sync_selected inserts is_new items inserts-is_new merged,
      select-sync_selected (re_uploads files) (is_changed files) items (re_uploads-is_changed files)
          merged,
      select-sync_selected deletes is_gone items deletes-is_gone merged,
      select-sync_selected (keeps files) (is_unchanged files) items (keeps-is_unchanged files)
          merged,
    )
