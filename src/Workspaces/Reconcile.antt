-- ===== src/Workspaces/Reconcile.antt =====
-- ReconcileWorkspaceManifest of internal/commands/workspace_sync.go over its two interfaces. A call
-- of the client succeeds or fails as `client` says; `now` is the time at which a pass of the function
-- stamps the entry of an id.
pub mod Mirror
use browzer_cli.Prelude.{
  ℕ, Bool, true, false, not, ◌||◌, Option, none, some, List, [], ◌∷◌, ◌++◌, ◌≡◌, if◌then◌else◌,
}
use browzer_cli.Prelude.Text.{Text, text_eq}
use browzer_cli.Prelude.Assoc.{lookup, insert}

pub record ManifestEntry : Type 0 where
  pub id : Text
  pub name : Text
  pub root_path : Text
  pub updated_at : ℕ
  pub locally_modified : Bool
  pub pending_delete : Bool

-- The fields of a workspace of the service that the manifest keeps.
pub record WorkspaceDto : Type 0 where
  pub workspace_id : Text
  pub workspace_name : Text
  pub root : Text

-- The first item of a list that has a key.
unfoldable pub find {ℓ} : {A : Type ℓ} → (A → Text) → Text → List A → Option A
unfolding text_eq
find key i [] = none
find key i (x ∷ xs) = if text_eq (key x) i then some x else find key i xs

-- The manifest as the function sees it. `all` lists the entries in any order.
pub record WorkspaceSyncManifest : Type 1 where
  pub Manifest : Type 0
  pub get : Text → Manifest → Option ManifestEntry
  pub upsert : ManifestEntry → Manifest → Manifest
  pub remove : Text → Manifest → Manifest
  pub all : Manifest → List ManifestEntry
  pub get-upsert :
      (e : ManifestEntry) (i : Text) (m : Manifest)
      → get i (upsert e m) ≡ (if text_eq e.id i then some e else get i m)
  pub get-remove :
      (j i : Text) (m : Manifest) → get i (remove j m) ≡ (if text_eq j i then none else get i m)
  pub find-all : (i : Text) (m : Manifest) → find (λ (e : ManifestEntry). e.id) i (all m) ≡ get i m

pub data Call : Type 0 where
  delete_workspace : Text → Call
  update_workspace : Text → Text → Text → Call

pub data Pass : Type 0 where
  pushing pulling adding : Pass

-- How the push ends: it is over, or a call has failed.
pub data Outcome : Type 0 where
  done : Outcome
  failed : Call → Outcome

-- serverByID: of two workspaces with one id the later one stays.
unfoldable pub server_by_id :
    List WorkspaceDto → List (Text × WorkspaceDto) → List (Text × WorkspaceDto)
unfolding insert
server_by_id [] acc = acc
server_by_id (ws ∷ list) acc = server_by_id list (insert ws.workspace_id ws acc)

abbrev pub entry_of : WorkspaceDto → ℕ → ManifestEntry
entry_of ws time = record {
  id = ws.workspace_id;
  name = ws.workspace_name;
  root_path = ws.root;
  updated_at = time;
  locally_modified = false;
  pending_delete = false;
}

-- The call that pushes an entry that was modified.
abbrev pub push_call : ManifestEntry → Call
push_call e =
    if e.pending_delete then delete_workspace e.id else update_workspace e.id e.name e.root_path

module _ (I : WorkspaceSyncManifest) (now : Pass → Text → ℕ) where
  open I use {Manifest, get, upsert, remove, all}

  -- The entry once it is pushed: it is gone, or its flag is cleared.
  abbrev pub pushed : ManifestEntry → Manifest → Manifest
  pushed e m =
      if e.pending_delete
      then remove e.id m
      else upsert
          (record e {
            updated_at = now pushing e.id;
            locally_modified = false;
            pending_delete = false;
          })
          m

  abbrev is_outdated : WorkspaceDto → ManifestEntry → Bool
  is_outdated srv e = not (text_eq srv.workspace_name e.name) || not (text_eq srv.root e.root_path)

  abbrev pub pulled_entry : WorkspaceDto → ManifestEntry → ManifestEntry
  pulled_entry srv e = record {
    id = e.id;
    name = srv.workspace_name;
    root_path = srv.root;
    updated_at = now pulling e.id;
    locally_modified = false;
    pending_delete = false;
  }

  -- What the pull does with an entry, given the workspace of its id.
  abbrev pub pulled : Option WorkspaceDto → ManifestEntry → Manifest → Manifest
  pulled none e m = remove e.id m
  pulled (some srv) e m = if is_outdated srv e then upsert (pulled_entry srv e) m else m

  unfoldable pub pull_loop : List (Text × WorkspaceDto) → List ManifestEntry → Manifest → Manifest
  unfolding lookup text_eq
  pull_loop by_id [] m = m
  pull_loop by_id (e ∷ entries) m = pull_loop by_id entries (pulled (lookup e.id by_id) e m)

  abbrev pub with_added : Option ManifestEntry → WorkspaceDto → Manifest → Manifest
  with_added (some e) srv m = m
  with_added none srv m = upsert (entry_of srv (now adding srv.workspace_id)) m

  unfoldable pub add_loop : List WorkspaceDto → Manifest → Manifest
  add_loop [] m = m
  add_loop (srv ∷ list) m = add_loop list (with_added (get srv.workspace_id m) srv m)

  -- The pull and the additions, unless the push has failed.
  abbrev pub pull_all : List WorkspaceDto → Manifest → Manifest
  unfolding server_by_id pull_loop add_loop
  pull_all list m = add_loop list (pull_loop (server_by_id list []) (all m) m)

  abbrev pub pull_unless_failed : List WorkspaceDto → Outcome → Manifest → Manifest
  pull_unless_failed list done m = pull_all list m
  pull_unless_failed list (failed c) m = m

  module _ (client : Call → Bool) where
    unfoldable pub push_loop : List ManifestEntry → Manifest → Outcome × Manifest × List Call
    push_loop [] m = (done, m, [])
    push_loop (e ∷ entries) m =
        let next = push_loop entries m in
        let rest = push_loop entries (pushed e m) in
        if not e.locally_modified
        then next
        else if client (push_call e)
        then (rest.0, rest.1, push_call e ∷ rest.2)
        else (failed (push_call e), m, push_call e ∷ [])

    -- How the reconciliation ends, the manifest behind it, and the calls of the client.
    unfoldable pub reconcile_workspace_manifest :
        Manifest → List WorkspaceDto → Outcome × Manifest × List Call
    unfolding push_loop server_by_id pull_loop add_loop
    reconcile_workspace_manifest m list =
        let (outcome, m', calls) = push_loop (all m) m in
        (outcome, pull_unless_failed list outcome m', calls)
