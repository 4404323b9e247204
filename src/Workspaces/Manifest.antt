-- ===== src/Workspaces/Manifest.antt =====
-- WorkspaceManifest of internal/cache/manifest.go. Every key of its map is the id of its entry, so that
-- the map is kept as the list of its entries.
use browzer_cli.Prelude.{Option, none, some, List, [], ◌∷◌, ◌≡◌, refl, arith, if◌then◌else◌}
use browzer_cli.Prelude.Text.{Text, text_eq}
use browzer_cli.Prelude.Text.Laws.{text_eq_iff}
use browzer_cli.Workspaces.Reconcile.{ManifestEntry, find, WorkspaceSyncManifest}

abbrev pub entry_id : ManifestEntry → Text
entry_id e = e.id

unfoldable pub get : Text → List ManifestEntry → Option ManifestEntry
unfolding find
get i entries = find entry_id i entries

unfoldable pub upsert : ManifestEntry → List ManifestEntry → List ManifestEntry
unfolding text_eq
upsert e [] = e ∷ []
upsert e (f ∷ entries) = if text_eq f.id e.id then e ∷ entries else f ∷ upsert e entries

unfoldable pub remove : Text → List ManifestEntry → List ManifestEntry
unfolding text_eq
remove i [] = []
remove i (f ∷ entries) = let rest = remove i entries in if text_eq f.id i then rest else f ∷ rest

abbrev pub all : List ManifestEntry → List ManifestEntry
all entries = entries

pub get-upsert :
    (e : ManifestEntry) (i : Text) (m : List ManifestEntry)
    → get i (upsert e m) ≡ (if text_eq e.id i then some e else get i m)
unfolding get upsert
get-upsert e i [] = refl
get-upsert e i (f ∷ m) =
    ground (arith, text_eq_iff f.id e.id, text_eq_iff f.id i, text_eq_iff e.id i, get-upsert e i m)

pub get-remove :
    (j i : Text) (m : List ManifestEntry)
    → get i (remove j m) ≡ (if text_eq j i then none else get i m)
unfolding get remove
get-remove j i [] = ground arith
get-remove j i (f ∷ m) =
    ground (arith, text_eq_iff f.id j, text_eq_iff f.id i, text_eq_iff j i, get-remove j i m)

pub find-all : (i : Text) (m : List ManifestEntry) → find entry_id i (all m) ≡ get i m
unfolding get
find-all i m = refl

-- The manifest that the reconciliation works on.
abbrev pub workspace_manifest : WorkspaceSyncManifest
workspace_manifest = record {
  Manifest = List ManifestEntry;
  get = get;
  upsert = upsert;
  remove = remove;
  all = all;
  get-upsert = get-upsert;
  get-remove = get-remove;
  find-all = find-all;
}
