-- ===== src/Workspaces/Samples.antt =====
-- A workspace that was renamed and one that was deleted locally, which the older list still has.
use browzer_cli.Prelude.{ℕ, Bool, true, false, some, List, [], ◌∷◌, ◌≡◌, refl, map, select}
use browzer_cli.Prelude.Text.{Text, codes, text_eq}
use browzer_cli.Prelude.Assoc.{lookup, insert}
use browzer_cli.Workspaces.Manifest.{workspace_manifest, get, upsert, remove}
use browzer_cli.Workspaces.Reconcile.{
  ManifestEntry, WorkspaceDto, Call, Pass, done, find, push_call, push_loop, pull_loop, add_loop,
  server_by_id, reconcile_workspace_manifest,
}
use browzer_cli.Workspaces.Reconcile.Mirror.{view, want, IsDistinct, reconcile_mirrors}

abbrev modified : Text → Text → Bool → ManifestEntry
modified id name pending = record {
  id = id;
  name = name;
  root_path = codes "/r";
  updated_at = 1;
  locally_modified = true;
  pending_delete = pending;
}

abbrev manifest : List ManifestEntry
manifest = modified (codes "w1") (codes "new") false ∷ modified (codes "w2") (codes "x") true ∷ []

abbrev workspace : Text → Text → WorkspaceDto
workspace id name = record { workspace_id = id; workspace_name = name; root = codes "/r" }

abbrev server_list : List WorkspaceDto
server_list = workspace (codes "w1") (codes "old") ∷ workspace (codes "w2") (codes "x") ∷ []

abbrev now : Pass → Text → ℕ
now pass id = 7

abbrev accepts : Call → Bool
accepts c = true

server_list-IsDistinct : IsDistinct server_list
unfolding text_eq
server_list-IsDistinct = ((refl, tt), (tt, tt))

-- The new name is gone again.
renamed_back :
    view (
      get
        (codes "w1")
        (reconcile_workspace_manifest workspace_manifest now accepts manifest server_list).1)
    ≡ some (codes "old", codes "/r")
unfolding reconcile_workspace_manifest push_loop pull_loop add_loop server_by_id get upsert remove
    find text_eq lookup insert
renamed_back = refl

reconcile_mirrors_example :
    let (outcome, m', calls) =
      reconcile_workspace_manifest workspace_manifest now accepts manifest server_list in
    (outcome ≡ done)
    × (calls ≡ map push_call (select (λ (e : ManifestEntry). e.locally_modified) manifest))
    × ((i : Text) → view (get i m') ≡ want server_list i)
reconcile_mirrors_example =
    reconcile_mirrors workspace_manifest now accepts manifest server_list server_list-IsDistinct
      (λ c. refl)
