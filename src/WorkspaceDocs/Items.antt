-- ===== src/WorkspaceDocs/Items.antt =====
-- mergeDocItems and computeDocDelta of internal/commands/workspace_docs.go, and what is built of a
-- plan. The map of mergeDocItems is walked in the order in which its keys came in; its values are
-- sorted by their paths, which are distinct, so that the order does not matter.
pub mod Rows
pub mod Merge
pub mod Delta
use browzer_cli.Prelude.{
  ℕ, Bool, true, false, not, ◌&&◌, Option, none, some, List, [], ◌∷◌, ◌++◌, map, if◌then◌else◌,
  length, leb, select,
}
use browzer_cli.Prelude.Text.{Text, codes, newline, text_eq, text_lt, join}
use browzer_cli.Prelude.Assoc.{lookup, insert}
use browzer_cli.Prelude.Decimal.{decimal}
use browzer_cli.Prelude.Sort.{sort}
use browzer_cli.Cache.Docs.{CachedDoc, DocsCache, DocFile}

pub record DocPickerItem : Type 0 where
  pub relative_path : Text
  pub local_hash : Text
  pub local_size : ℕ
  pub local_abs : Text
  pub server_document_id : Text
  pub server_chunk_count : ℕ
  pub server_size_bytes : ℕ
  pub server_status : Text
  pub indexed : Bool
  pub selected : Bool

-- api.IndexedDocument
pub record IndexedDocument : Type 0 where
  pub document_id : Text
  pub relative_path : Text
  pub size_bytes : ℕ
  pub chunk_count : ℕ
  pub status : Text

unfoldable pub has_local : DocPickerItem → Bool
unfolding text_eq
has_local it = not (text_eq it.local_abs [])

unfoldable pub local_item : DocFile → DocPickerItem
local_item f = record {
  relative_path = f.relative_path;
  local_hash = f.sha256;
  local_size = f.size;
  local_abs = f.absolute_path;
  server_document_id = [];
  server_chunk_count = 0;
  server_size_bytes = 0;
  server_status = [];
  indexed = false;
  selected = false;
}

unfoldable pub add_local : List DocFile → List (Text × DocPickerItem) → List (Text × DocPickerItem)
unfolding insert local_item
add_local [] by_path = by_path
add_local (f ∷ fs) by_path = add_local fs (insert f.relative_path (local_item f) by_path)

-- &DocPickerItem{RelativePath: path}
unfoldable pub new_item : Text → DocPickerItem
new_item path = record {
  relative_path = path;
  local_hash = [];
  local_size = 0;
  local_abs = [];
  server_document_id = [];
  server_chunk_count = 0;
  server_size_bytes = 0;
  server_status = [];
  indexed = false;
  selected = false;
}

unfoldable pub index_item : IndexedDocument → DocPickerItem → DocPickerItem
index_item d it = record it {
  server_document_id = d.document_id;
  server_chunk_count = d.chunk_count;
  server_size_bytes = d.size_bytes;
  server_status = d.status;
  indexed = true;
  selected = true;
}

-- The item that is found in the map, or a new one.
abbrev pub found_or_new : Text → Option DocPickerItem → DocPickerItem
found_or_new path none = new_item path
found_or_new path (some it) = it

unfoldable pub add_server :
    List IndexedDocument → List (Text × DocPickerItem) → List (Text × DocPickerItem)
unfolding insert lookup index_item new_item
add_server [] by_path = by_path
add_server (d ∷ ds) by_path = add_server ds (
    insert d.relative_path
      (index_item d (found_or_new d.relative_path (lookup d.relative_path by_path))) by_path)

abbrev pub path_less : DocPickerItem → DocPickerItem → Bool
path_less a b = text_lt a.relative_path b.relative_path

abbrev pub values : List (Text × DocPickerItem) → List DocPickerItem
values = map (λ (e : Text × DocPickerItem). e.1)

unfoldable pub merge_doc_items : List DocFile → List IndexedDocument → List DocPickerItem
unfolding add_local add_server sort text_lt
merge_doc_items local server = sort path_less (values (add_server server (add_local local [])))

pub record DocDeltaPlan : Type 0 where
  pub to_insert : List DocPickerItem
  pub to_re_upload : List DocPickerItem
  pub to_delete : List DocPickerItem
  pub to_keep : List DocPickerItem

-- The switch in the loop of computeDocDelta.
unfoldable pub add_item : List (Text × CachedDoc) → DocPickerItem → DocDeltaPlan → DocDeltaPlan
unfolding has_local lookup text_eq
add_item files it plan =
    if not it.selected
    then (if it.indexed then record plan { to_delete = plan.to_delete ++ it ∷ [] } else plan)
    else if not it.indexed
    then (if has_local it then record plan { to_insert = plan.to_insert ++ it ∷ [] } else plan)
    else if not (has_local it)
    then record plan { to_keep = plan.to_keep ++ it ∷ [] }
    else elim (lookup it.relative_path files) [
      | some cached ↦
          if text_eq cached.sha256 it.local_hash
          then record plan { to_keep = plan.to_keep ++ it ∷ [] }
          else record plan { to_re_upload = plan.to_re_upload ++ it ∷ [] }
      | none ↦ record plan { to_re_upload = plan.to_re_upload ++ it ∷ [] }
    ]

unfoldable pub delta_loop :
    List (Text × CachedDoc) → List DocPickerItem → DocDeltaPlan → DocDeltaPlan
unfolding add_item
delta_loop files [] plan = plan
delta_loop files (it ∷ items) plan = delta_loop files items (add_item files it plan)

abbrev pub empty_plan : DocDeltaPlan
empty_plan = record { to_insert = []; to_re_upload = []; to_delete = []; to_keep = [] }

unfoldable pub compute_doc_delta : List DocPickerItem → DocsCache → DocDeltaPlan
unfolding delta_loop
compute_doc_delta items docs_cache = delta_loop docs_cache.files items empty_plan

unfoldable pub to_walker_docs : List DocPickerItem → List DocFile
unfolding has_local
to_walker_docs [] = []
to_walker_docs (it ∷ items) =
    let rest = to_walker_docs items in
    if not (has_local it)
    then rest
    else (record {
      relative_path = it.relative_path;
      absolute_path = it.local_abs;
      sha256 = it.local_hash;
      size = it.local_size;
    })
      ∷ rest

pub record DocsSubmitEntry : Type 0 where
  pub path : Text
  pub document_id : Text
  pub chunks : ℕ
  pub reason : Text

-- The lists of docsSubmitJSON, without the quota.
pub record DocsSubmit : Type 0 where
  pub inserted : List DocsSubmitEntry
  pub reuploaded : List DocsSubmitEntry
  pub deleted : List DocsSubmitEntry
  pub skipped : List DocsSubmitEntry

abbrev entry : Text → Text → ℕ → Text → DocsSubmitEntry
entry path document_id chunks reason = record {
  path = path;
  document_id = document_id;
  chunks = chunks;
  reason = reason;
}

unfoldable pub build_submit_payload : DocDeltaPlan → DocsSubmit
build_submit_payload plan = record {
  inserted = map (λ (it : DocPickerItem). entry it.relative_path [] 0 []) plan.to_insert;
  reuploaded =
      map
        (λ (it : DocPickerItem).
          entry it.relative_path it.server_document_id it.server_chunk_count [])
        plan.to_re_upload;
  deleted =
      map (λ (it : DocPickerItem). entry it.relative_path it.server_document_id 0 [])
        plan.to_delete;
  skipped =
      map
        (λ (it : DocPickerItem).
          entry it.relative_path [] 0 (codes "already indexed, hash unchanged"))
        plan.to_keep;
}

unfoldable pub large_delete_message : DocDeltaPlan → Text
unfolding decimal join
large_delete_message plan =
    codes "this operation would delete "
    ++ decimal (length plan.to_delete)
    ++ codes
        " indexed documents.\nDeletes >= 5 require the --i-know-what-im-doing flag to confirm\nthe destructive intent. Documents that would be deleted:\n\n"
    ++ join (map (λ (it : DocPickerItem). codes "  " ++ it.relative_path) plan.to_delete)
        (newline ∷ [])
    ++ codes "\n\nRe-run with --i-know-what-im-doing to proceed."
