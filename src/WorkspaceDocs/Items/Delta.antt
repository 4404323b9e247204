-- ===== src/WorkspaceDocs/Items/Delta.antt =====
-- computeDocDelta puts every item into the list that its state calls for.
use browzer_cli.Prelude.{
  ◌+◌, Bool, false, not, ◌&&◌, ◌||◌, none, some, List, [], ◌∷◌, ◌++◌, ◌≡◌, ◌∙◌, select, length,
  append-nil, append_assoc, arith,
}
use browzer_cli.Prelude.Text.{Text, text_eq}
use browzer_cli.Prelude.Assoc.{lookup}
use browzer_cli.Cache.Docs.{CachedDoc, DocsCache}
use browzer_cli.WorkspaceDocs.Items.{
  DocPickerItem, DocDeltaPlan, has_local, add_item, delta_loop, empty_plan, compute_doc_delta,
}

abbrev pub deletes : DocPickerItem → Bool
deletes it = it.indexed && not it.selected

abbrev pub inserts : DocPickerItem → Bool
inserts it = it.selected && not it.indexed && has_local it

-- The item is selected and indexed, and the cache has its file with another hash or not at all.
module _ (files : List (Text × CachedDoc)) where
  abbrev pub is_cached : DocPickerItem → Bool
  is_cached it = elim (lookup it.relative_path files) [
    | some cached ↦ text_eq cached.sha256 it.local_hash
    | none ↦ false
  ]

  abbrev pub re_uploads : DocPickerItem → Bool
  re_uploads it = it.selected && it.indexed && has_local it && not (is_cached it)

  abbrev pub keeps : DocPickerItem → Bool
  keeps it = it.selected && it.indexed && (not (has_local it) || is_cached it)

  abbrev pub is_left_out : DocPickerItem → Bool
  is_left_out it = not it.indexed && (not it.selected || not (has_local it))

  -- The plan behind the items, from a plan so far.
  abbrev planned : List DocPickerItem → DocDeltaPlan → DocDeltaPlan
  planned items plan = record {
    to_insert = plan.to_insert ++ select inserts items;
    to_re_upload = plan.to_re_upload ++ select re_uploads items;
    to_delete = plan.to_delete ++ select deletes items;
    to_keep = plan.to_keep ++ select keeps items;
  }

  add_item-planned :
      (it : DocPickerItem) (items : List DocPickerItem) (plan : DocDeltaPlan)
      → planned items (add_item files it plan) ≡ planned (it ∷ items) plan
  unfolding add_item
  add_item-planned it items plan = ground (
    arith,
    append_assoc plan.to_insert (it ∷ []) (select inserts items),
    append_assoc plan.to_re_upload (it ∷ []) (select re_uploads items),
    append_assoc plan.to_delete (it ∷ []) (select deletes items),
    append_assoc plan.to_keep (it ∷ []) (select keeps items),
  )

  delta_loop-planned :
      (items : List DocPickerItem) (plan : DocDeltaPlan)
      → delta_loop files items plan ≡ planned items plan
  unfolding delta_loop
  delta_loop-planned [] plan = simp append-nil
  delta_loop-planned (it ∷ items) plan =
      delta_loop-planned items (add_item files it plan) ∙ add_item-planned it items plan

  one_list :
      (items : List DocPickerItem)
      → length (select inserts items)
          + length (select re_uploads items)
          + length (select deletes items)
          + length (select keeps items)
          + length (select is_left_out items)
        ≡ length items
  one_list [] = omega arith
  one_list (it ∷ items) = ground (arith, one_list items)

-- computeDocDelta lists for insertion the selected local items that the server lacks, for upload
-- the selected local items that it has with another hash than the cached one, for deletion the
-- items that it has and that are not selected, and keeps the other selected items that it has, each
-- list in the order of the items. With the items that the server lacks and that are not selected
-- or not local, these lists have as many items as there are.
pub compute_doc_delta_lists :
    (items : List DocPickerItem) (docs_cache : DocsCache)
    → let files = docs_cache.files in
      (compute_doc_delta items docs_cache ≡ record {
        to_insert = select inserts items;
        to_re_upload = select (re_uploads files) items;
        to_delete = select deletes items;
        to_keep = select (keeps files) items;
      })
      × (length (select inserts items)
            + length (select (re_uploads files) items)
            + length (select deletes items)
            + length (select (keeps files) items)
            + length (select (is_left_out files) items)
          ≡ length items)
unfolding compute_doc_delta
compute_doc_delta_lists items docs_cache =
    (delta_loop-planned docs_cache.files items empty_plan, one_list docs_cache.files items)
