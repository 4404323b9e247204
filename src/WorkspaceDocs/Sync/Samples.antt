-- ===== src/WorkspaceDocs/Sync/Samples.antt =====
-- A sync of one new document, beside one that is gone locally.
use browzer_cli.Prelude.{true, false, none, some, List, [], ◌∷◌, ◌≡◌, map, select}
use browzer_cli.Prelude.Text.{codes}
use browzer_cli.Cache.Docs.{DocFile}
use browzer_cli.WorkspaceDocs.Items.{IndexedDocument, merge_doc_items}
use browzer_cli.WorkspaceDocs.Submit.{linked}
use browzer_cli.WorkspaceDocs.Sync.{
  SyncFlowOptions, SyncWorld, sync_selected, plan_of, run_sync_flow,
}
use browzer_cli.WorkspaceDocs.Sync.Plan.{is_new, is_gone, is_changed, is_unchanged, plan_of_lem}
use browzer_cli.WorkspaceDocs.Sync.Guarded.{IsSyncGuarded, run_sync_flow-IsSyncGuarded}

abbrev local : List DocFile
local =
    record {
      relative_path = codes "new.md";
      absolute_path = codes "/repo/new.md";
      sha256 = codes "5";
      size = 8;
    }
    ∷ []

abbrev server : List IndexedDocument
server =
    record {
      document_id = codes "d1";
      relative_path = codes "gone.md";
      size_bytes = 9;
      chunk_count = 1;
      status = codes "ready";
    }
    ∷ []

abbrev world : SyncWorld
world = record {
  docs = record {
    open_file = λ path. none;
    in_git_repository = true;
    project = linked;
    signed_in = true;
    server_docs = some server;
    local_docs = some local;
    docs_cache = record { version = 1; files = [] };
    preflight = λ docs. true;
    service = record {
      read_file = λ path. some (codes "text");
      batch_upload_docs = λ docs. none;
      poll_batch_status = λ id. none;
    };
    delete_document = λ id. true;
    save_succeeds = true;
  };
  is_tty = false;
  jobs = some (0, 0);
  confirmed = none;
  walk_repo = some 40;
  parse_workspace = true;
}

abbrev options : SyncFlowOptions
options = record {
  dry_run = false;
  skip_code = false;
  skip_docs = false;
  force = false;
  no_wait = true;
  yes = false;
  confirm_adds = 50;
  confirm_deletes = 50;
  json = false;
  save = [];
  quiet = true;
  json_mode = codes "sync";
}

plan_of_example :
    let items = merge_doc_items local server in
    plan_of world server local ≡ record {
      to_insert = map sync_selected (select is_new items);
      to_re_upload = map sync_selected (select (is_changed []) items);
      to_delete = map sync_selected (select is_gone items);
      to_keep = map sync_selected (select (is_unchanged []) items);
    }
plan_of_example = plan_of_lem world server local

run_sync_flow-IsSyncGuarded_example : IsSyncGuarded world options (run_sync_flow world options)
run_sync_flow-IsSyncGuarded_example = run_sync_flow-IsSyncGuarded world options
