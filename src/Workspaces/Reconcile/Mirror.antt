-- ===== src/Workspaces/Reconcile/Mirror.antt =====
-- What the manifest holds after a reconciliation: the list of the service, and nothing else.
use browzer_cli.Prelude.{
  ℕ, Bool, true, false, Option, none, some, List, [], ◌∷◌, ◌≡◌, refl, ◌⊎◌, inr, ◌∙◌, arith, All,
  select, map,
}
use browzer_cli.Prelude.Text.{Text, text_eq}
use browzer_cli.Prelude.Text.Laws.{text_eq_iff}
use browzer_cli.Prelude.Assoc.{lookup, insert, lookup-insert}
use browzer_cli.Workspaces.Reconcile.{
  ManifestEntry, WorkspaceDto, find, WorkspaceSyncManifest, Call, Pass, adding, done, server_by_id,
  entry_of, push_call, pushed, push_loop, pulled, pulled_entry, pull_loop, with_added, add_loop,
  pull_all, reconcile_workspace_manifest,
}

-- The name and the root path of an entry, or of a workspace.
abbrev pub view : Option ManifestEntry → Option (Text × Text)
view none = none
view (some e) = some (e.name, e.root_path)

abbrev pub view_server : Option WorkspaceDto → Option (Text × Text)
view_server none = none
view_server (some ws) = some (ws.workspace_name, ws.root)

abbrev pub workspace_key : WorkspaceDto → Text
workspace_key ws = ws.workspace_id

-- No two workspaces of the list have one id.
abbrev pub IsDistinct : List WorkspaceDto → Type 0
IsDistinct [] = Unit
IsDistinct (ws ∷ list) =
    All (λ (v : WorkspaceDto). text_eq ws.workspace_id v.workspace_id ≡ false) list
    × IsDistinct list

-- The id of an entry that was found.
find-key {ℓ} :
    {A : Type ℓ} (key : A → Text) (i : Text) (xs : List A) (x : A)
    → find key i xs ≡ some x
    → key x ≡ i
unfolding find
find-key key i [] x h = cc
find-key key i (y ∷ xs) x h = ground (arith, text_eq_iff (key y) i, find-key key i xs x)

or_acc : Option WorkspaceDto → Option WorkspaceDto → Option WorkspaceDto
or_acc none o = o
or_acc (some ws) o = some ws

or_acc-none : (o : Option WorkspaceDto) → or_acc o none ≡ o
unfolding or_acc
or_acc-none none = refl
or_acc-none (some ws) = refl

find-none :
    (i : Text) (list : List WorkspaceDto) (ws : WorkspaceDto)
    → All (λ (v : WorkspaceDto). text_eq ws.workspace_id v.workspace_id ≡ false) list
    → text_eq ws.workspace_id i ≡ true
    → find workspace_key i list ≡ none
unfolding find
find-none i [] ws h e = refl
find-none i (v ∷ list) ws (hv, h) e = ground (
  arith,
  text_eq_iff v.workspace_id i,
  text_eq_iff ws.workspace_id v.workspace_id,
  text_eq_iff ws.workspace_id i,
  find-none i list ws h,
)

-- In a list without repeated ids the map has what a search finds.
lookup-server_by_id :
    (i : Text) (list : List WorkspaceDto) (acc : List (Text × WorkspaceDto))
    → IsDistinct list
    → lookup i (server_by_id list acc) ≡ or_acc (find workspace_key i list) (lookup i acc)
unfolding server_by_id find or_acc
lookup-server_by_id i [] acc h = refl
lookup-server_by_id i (ws ∷ list) acc (hw, h) = ground (
  arith,
  lookup-server_by_id i list (insert ws.workspace_id ws acc) h,
  lookup-insert ws.workspace_id i ws acc,
  find-none i list ws hw,
)

abbrev is_some : Option ManifestEntry → Bool
is_some none = false
is_some (some e) = true

-- What the manifest is to hold for an id.
abbrev pub want : List WorkspaceDto → Text → Option (Text × Text)
want list i = view_server (find workspace_key i list)

module _ (I : WorkspaceSyncManifest) (now : Pass → Text → ℕ) (list : List WorkspaceDto)
    (d : IsDistinct list) where
  open I use {Manifest, get, upsert, remove, all, get-upsert, get-remove, find-all}

  by_id : List (Text × WorkspaceDto)
  by_id = server_by_id list []

  lookup-by_id : (i : Text) → lookup i by_id ≡ find workspace_key i list
  unfolding by_id lookup or_acc
  lookup-by_id i = lookup-server_by_id i list [] d ∙ or_acc-none (find workspace_key i list)

  -- An id during the pull: the manifest has what it is to hold, or nothing, or the entry that is still
  -- to be visited.
  abbrev Pulling : List ManifestEntry → Manifest → Text → Type 0
  Pulling entries m i =
      (view (get i m) ≡ want list i)
      ⊎ ((get i m ≡ none) ⊎ (find (λ (e : ManifestEntry). e.id) i entries ≡ get i m))

  pulled-Pulling :
      (e : ManifestEntry) (entries : List ManifestEntry) (m : Manifest) (i : Text)
      (o : Option WorkspaceDto)
      → o ≡ find workspace_key e.id list
      → Pulling (e ∷ entries) m i
      → Pulling entries (pulled I now o e m) i
  unfolding find
  pulled-Pulling e entries m i none eq h = ground (arith, get-remove e.id i m, text_eq_iff e.id i)
  pulled-Pulling e entries m i (some srv) eq h = ground (
    arith,
    get-upsert (pulled_entry I now srv e) i m,
    text_eq_iff e.id i,
    text_eq_iff srv.workspace_name e.name,
    text_eq_iff srv.root e.root_path,
  )

  pull_loop-Pulling :
      (entries : List ManifestEntry) (m : Manifest) (i : Text)
      → Pulling entries m i
      → Pulling [] (pull_loop I now by_id entries m) i
  unfolding pull_loop
  pull_loop-Pulling [] m i h = h
  pull_loop-Pulling (e ∷ entries) m i h =
      pull_loop-Pulling entries (pulled I now (lookup e.id by_id) e m) i
        (pulled-Pulling e entries m i (lookup e.id by_id) (lookup-by_id e.id) h)

  -- An id during the additions.
  abbrev Adding : List WorkspaceDto → Manifest → Text → Type 0
  Adding rest m i =
      ((view (get i m) ≡ want list i) × (is_some (get i m) ≡ true))
      ⊎ ((get i m ≡ none) × (view_server (find workspace_key i rest) ≡ want list i))

  with_added-Adding :
      (srv : WorkspaceDto) (rest : List WorkspaceDto) (m : Manifest) (i : Text)
      (o : Option ManifestEntry)
      → o ≡ get srv.workspace_id m
      → Adding (srv ∷ rest) m i
      → Adding rest (with_added I now o srv m) i
  unfolding find
  with_added-Adding srv rest m i none e h = ground (
    arith,
    get-upsert (entry_of srv (now adding srv.workspace_id)) i m,
    text_eq_iff srv.workspace_id i,
  )
  with_added-Adding srv rest m i (some x) e h = ground (arith, text_eq_iff srv.workspace_id i)

  add_loop-Adding :
      (rest : List WorkspaceDto) (m : Manifest) (i : Text)
      → Adding rest m i
      → view (get i (add_loop I now rest m)) ≡ want list i
  unfolding add_loop find
  add_loop-Adding [] m i h = ground arith
  add_loop-Adding (srv ∷ rest) m i h =
      add_loop-Adding rest (with_added I now (get srv.workspace_id m) srv m) i
        (with_added-Adding srv rest m i (get srv.workspace_id m) refl h)

  Pulling-Adding : (m : Manifest) (i : Text) → Pulling [] m i → Adding list m i
  unfolding find
  Pulling-Adding m i h = ground arith

  pull_all_mirrors : (m : Manifest) (i : Text) → view (get i (pull_all I now list m)) ≡ want list i
  unfolding find by_id pull_all
  pull_all_mirrors m i = add_loop-Adding list (pull_loop I now by_id (all m) m) i (
      Pulling-Adding (pull_loop I now by_id (all m) m) i
        (pull_loop-Pulling (all m) m i (inr (inr (find-all i m)))))

module _ (I : WorkspaceSyncManifest) (now : Pass → Text → ℕ) (client : Call → Bool) where
  open I use {Manifest, get, all}

  push_loop-calls :
      (entries : List ManifestEntry) (m : Manifest)
      → ((c : Call) → client c ≡ true)
      → ((push_loop I now client entries m).0 ≡ done)
        × ((push_loop I now client entries m).2
            ≡ map push_call (select (λ (e : ManifestEntry). e.locally_modified) entries))
  unfolding push_loop
  push_loop-calls [] m accepts = (refl, refl)
  push_loop-calls (e ∷ entries) m accepts = ground (
    arith,
    accepts (push_call e),
    push_loop-calls entries m accepts,
    push_loop-calls entries (pushed I now e m) accepts,
  )

  -- If no two workspaces of the list have one id and every call of the client succeeds, the
  -- reconciliation ends without an error, it has pushed every locally modified entry, in the order
  -- in which the manifest lists them, and the manifest has for every id the name and the root path
  -- that the list has, and no entry where the list has none, whatever was pushed.
  pub reconcile_mirrors :
      (m : Manifest) (list : List WorkspaceDto)
      → IsDistinct list
      → ((c : Call) → client c ≡ true)
      → let (outcome, m', calls) = reconcile_workspace_manifest I now client m list in
        (outcome ≡ done)
        × (calls ≡ map push_call (select (λ (e : ManifestEntry). e.locally_modified) (all m)))
        × ((i : Text) → view (get i m') ≡ want list i)
  unfolding reconcile_workspace_manifest
  reconcile_mirrors m list d accepts =
      let (o, c) = push_loop-calls (all m) m accepts in
      (o, c, λ i. rw o (pull_all_mirrors I now list d _ i))
