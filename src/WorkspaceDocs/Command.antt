-- ===== src/WorkspaceDocs/Command.antt =====
-- The command "workspace docs" of internal/commands/workspace_docs.go from its flags on: the checks of the
-- flags, and the sync, the picker or the specs that they lead to.
pub mod Guarded
use browzer_cli.Prelude.{Bool, true, false, not, ◌&&◌, ◌||◌, Option, none, some, if◌then◌else◌}
use browzer_cli.Prelude.Text.{codes}
use browzer_cli.WorkspaceDocs.Submit.{
  Flags, Run, Refusal, plan_with_flags, replace_with_others, interactive_with_json, only, refused,
  is_set, wants_json, run_with_specs,
}
use browzer_cli.WorkspaceDocs.Picker.{Terminal, run_interactive_docs_picker}
use browzer_cli.WorkspaceDocs.Sync.{SyncFlowOptions, SyncWorld, SyncRun, run_sync_flow}

abbrev pub selects : Flags → Bool
selects f = is_set f.add_raw || is_set f.remove_raw || is_set f.replace_raw

-- Where the flags lead.
pub data Mode : Type 0 where
  rejected : Refusal → Mode
  sync_mode picker_mode spec_mode : Mode

unfoldable pub mode_of : Flags → Mode
mode_of f =
    if f.plan_only && (selects f || f.yes || f.dry_run || f.i_know)
    then rejected plan_with_flags
    else if is_set f.replace_raw && (is_set f.add_raw || is_set f.remove_raw)
    then rejected replace_with_others
    else if not (selects f) && not f.plan_only && not f.interactive
    then sync_mode
    else if not f.plan_only && not (selects f) && f.interactive && wants_json f
    then rejected interactive_with_json
    else if f.interactive
    then picker_mode
    else spec_mode

-- The options of the sync that the command stands for without flags.
unfoldable pub sync_options : Flags → SyncFlowOptions
sync_options f = record {
  dry_run = f.dry_run;
  skip_code = true;
  skip_docs = false;
  force = false;
  no_wait = f.no_wait;
  yes = f.yes;
  confirm_adds = 50;
  confirm_deletes = 50;
  json = wants_json f;
  save = f.save;
  quiet = false;
  json_mode = codes "sync";
}

-- A run that ends at its flags, a sync, a run of the picker, or one by specs.
pub data DocsRun : Type 0 where
  unstarted : Refusal → DocsRun
  synced : SyncRun → DocsRun
  picked : Run → DocsRun
  specified : Run → DocsRun

unfoldable pub run_mode : SyncWorld → Terminal → Flags → Mode → DocsRun
unfolding run_sync_flow sync_options run_interactive_docs_picker run_with_specs
run_mode w t f (rejected r) = unstarted r
run_mode w t f sync_mode = synced (run_sync_flow w (sync_options f))
run_mode w t f picker_mode = picked (run_interactive_docs_picker w.docs t f w.is_tty)
run_mode w t f spec_mode = specified (run_with_specs w.docs f)

unfoldable pub run_docs : SyncWorld → Terminal → Flags → DocsRun
unfolding run_mode mode_of
run_docs w t f = run_mode w t f (mode_of f)
