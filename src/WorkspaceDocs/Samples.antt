-- ===== src/WorkspaceDocs/Samples.antt =====
-- Two local files and two documents of the server, of which one is gone locally.
use browzer_cli.Prelude.{
  ◌+◌, Bool, true, false, Option, none, some, List, [], ◌∷◌, ◌≡◌, refl, select, length, All, arith,
}
use browzer_cli.Prelude.Text.{Text, codes, has_prefix, is_space, join}
use browzer_cli.Prelude.Sort.{IsSorted}
use browzer_cli.Cache.Docs.{DocsCache, DocFile}
use browzer_cli.WorkspaceDocs.Items.{
  DocPickerItem, IndexedDocument, has_local, merge_doc_items, compute_doc_delta, path_less,
}
use browzer_cli.WorkspaceDocs.Items.Rows.{has_path, at_most_one}
use browzer_cli.WorkspaceDocs.Items.Merge.{merge_doc_items_lem, described, last_server, last_local}
use browzer_cli.WorkspaceDocs.Items.Delta.{
  compute_doc_delta_lists, inserts, re_uploads, deletes, keeps, is_left_out,
}
use browzer_cli.WorkspaceDocs.Spec.{
  SpecResolver, ok, scope_add, parse_spec, new_sentinel_resolver, new_literal_resolver,
  is_any_sentinel,
}
use browzer_cli.WorkspaceDocs.Spec.Safety.{selection_safe, plan_to_delete, plan_to_insert}
use browzer_cli.WorkspaceDocs.Spec.Literal.{parse_spec-comma_list, IsPlain}
use browzer_cli.WorkspaceDocs.Submit.{Flags, World, linked, re_indexed}
use browzer_cli.WorkspaceDocs.Picker.{Terminal}
use browzer_cli.WorkspaceDocs.Sync.{SyncWorld}
use browzer_cli.WorkspaceDocs.Command.{picked, run_docs}

abbrev file : Text → Text → DocFile
file path hash = record {
  relative_path = path;
  absolute_path = codes "/repo/x";
  sha256 = hash;
  size = 12;
}

abbrev document : Text → Text → IndexedDocument
document path id = record {
  document_id = id;
  relative_path = path;
  size_bytes = 12;
  chunk_count = 3;
  status = codes "ready";
}

abbrev local : List DocFile
local = file (codes "b.md") (codes "1") ∷ file (codes "a.md") (codes "2") ∷ []

abbrev server : List IndexedDocument
server = document (codes "b.md") (codes "d1") ∷ document (codes "gone.md") (codes "d2") ∷ []

abbrev docs_cache : DocsCache
docs_cache = record {
  version = 1;
  files = (codes "b.md", record { sha256 = codes "0"; document_id = codes "d1"; size = 12 }) ∷ [];
}

abbrev items : List DocPickerItem
items = merge_doc_items local server

merge_doc_items_example :
    IsSorted path_less items
    × ((p : Text)
        → select (has_path p) items
          ≡ at_most_one (described p (last_local p local) (last_server p server)))
merge_doc_items_example = merge_doc_items_lem local server

compute_doc_delta_lists_example :
    (compute_doc_delta items docs_cache ≡ record {
      to_insert = select inserts items;
      to_re_upload = select (re_uploads docs_cache.files) items;
      to_delete = select deletes items;
      to_keep = select (keeps docs_cache.files) items;
    })
    × (length (select inserts items)
          + length (select (re_uploads docs_cache.files) items)
          + length (select deletes items)
          + length (select (keeps docs_cache.files) items)
          + length (select (is_left_out docs_cache.files) items)
        ≡ length items)
compute_doc_delta_lists_example = compute_doc_delta_lists items docs_cache

abbrev two_paths : SpecResolver
two_paths = new_literal_resolver (codes "a.md") (codes "a.md" ∷ [])

selection_safe_example :
    (plan_to_delete items (some two_paths) none none docs_cache ≡ [])
    × (plan_to_insert items none (some two_paths) none docs_cache ≡ [])
    × All
        (λ it. has_local it ≡ false)
        (plan_to_delete items none none
          (some (new_sentinel_resolver (codes "all") (codes "all")))
          docs_cache)
selection_safe_example = selection_safe items two_paths (codes "all") docs_cache

abbrev no_file : Text → Option (List Text × Bool)
no_file path = none

IsPlain-paths : All IsPlain (codes "a" ∷ codes "new" ∷ [])
unfolding is_space
IsPlain-paths = ground arith

parse_spec-comma_list_example :
    parse_spec no_file (codes "a,new") scope_add
    ≡ ok (new_literal_resolver (codes "a,new") (codes "a" ∷ codes "new" ∷ []))
unfolding is_any_sentinel has_prefix join
parse_spec-comma_list_example =
    parse_spec-comma_list no_file scope_add (codes "a") (codes "new" ∷ []) IsPlain-paths refl refl

abbrev flags : Flags
flags = record {
  add_raw = codes "a.md";
  remove_raw = [];
  replace_raw = [];
  dry_run = false;
  yes = true;
  plan_only = false;
  interactive = false;
  i_know = false;
  no_wait = true;
  json = false;
  save = [];
}

abbrev world : World
world = record {
  open_file = no_file;
  in_git_repository = true;
  project = linked;
  signed_in = true;
  server_docs = some server;
  local_docs = some local;
  docs_cache = docs_cache;
  preflight = λ docs. true;
  service = record {
    read_file = λ path. some (codes "text");
    batch_upload_docs = λ docs. none;
    poll_batch_status = λ id. none;
  };
  delete_document = λ id. true;
  save_succeeds = true;
}

-- The terminal keeps no document, and confirms every plan.
abbrev terminal : Terminal
terminal = record { pick = λ items selected. some []; confirm = λ plan. some true }

abbrev sync_world : SyncWorld
sync_world = record {
  docs = world;
  is_tty = true;
  jobs = none;
  confirmed = none;
  walk_repo = none;
  parse_workspace = false;
}

-- The flags --plan and --interactive, which are not refused together.
abbrev plan_and_pick : Flags
plan_and_pick = record flags { add_raw = []; yes = false; plan_only = true; interactive = true }

plan_and_pick_deletes :
    run_docs sync_world terminal plan_and_pick
    ≡ picked (record {
      outcome = re_indexed;
      uploads = [];
      deletes = codes "d1" ∷ codes "d2" ∷ [];
      saved = some [];
    })
unfolding run_docs
plan_and_pick_deletes = refl
