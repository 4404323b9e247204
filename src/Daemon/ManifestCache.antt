-- ===== src/Daemon/ManifestCache.antt =====
-- ManifestCache of internal/daemon/manifest_cache.go for one workspace, as the steps between which other
-- threads run: a Get that misses reads the file with no lock held and installs what it has read
-- under the lock, a fetch that was kicked off ends under the lock at any later time, and Invalidate
-- drops the entry.
pub mod Ordered
mod Samples
use browzer_cli.Prelude.{
  ℕ, Bool, true, false, Option, none, some, List, [], ◌∷◌, ◌++◌, if◌then◌else◌, ltb, suc, take,
  drop, get_elem?,
}
use browzer_cli.Prelude.Text.{Text, text_eq}

pub record Manifest (F : Type 0) : Type 0 where
  pub workspace_id : Text
  pub indexed_at : Text
  pub files : List (Text × F)

-- The file: it is missing, is no manifest, or holds one.
pub data OnDisk (F : Type 0) : Type 0 where
  missing : OnDisk F
  malformed : OnDisk F
  holds : Manifest F → OnDisk F

-- The file, the entry of the cache, and the manifests that a Get has read and not yet installed.
pub record CacheState (F : Type 0) : Type 0 where
  pub disk : OnDisk F
  pub entry : Option (Manifest F)
  pub reading : List (Manifest F)

-- A Get looks the entry up and reads the file; the Get that holds the n-th read takes the lock; a
-- fetch has brought a manifest, and its file can be renamed or not; Invalidate.
pub data Action (F : Type 0) : Type 0 where
  get_reads : Action F
  get_installs : ℕ → Action F
  fetched : Manifest F → Bool → Action F
  invalidate : Action F

abbrev pub file_manifest : {F : Type 0} → OnDisk F → List (Manifest F)
file_manifest missing = []
file_manifest malformed = []
file_manifest (holds m) = m ∷ []

-- The entry that is there stays.
abbrev pub installed : {F : Type 0} → Option (Manifest F) → Manifest F → Option (Manifest F)
installed none m = some m
installed (some existing) m = some existing

-- diskTS.After(fetchedTS), where both are times
abbrev pub is_after : Option ℕ → Option ℕ → Bool
is_after none b = false
is_after (some a) none = false
is_after (some a) (some b) = ltb b a

module _ {F : Type 0} (parse_time : Text → Option ℕ) where
  -- The time of a manifest, if IndexedAt is set and is a time.
  unfoldable pub stamp : Manifest F → Option ℕ
  unfolding text_eq
  stamp m = if text_eq m.indexed_at [] then none else parse_time m.indexed_at

  -- The file is newer than the fetched manifest.
  abbrev pub is_backwards : OnDisk F → Manifest F → Bool
  is_backwards missing m = false
  is_backwards malformed m = false
  is_backwards (holds d) m = is_after (stamp d) (stamp m)

  unfoldable pub act : Action F → CacheState F → CacheState F
  unfolding stamp
  act get_reads s = elim s.entry [
    | some m ↦ s
    | none ↦ record s { reading = s.reading ++ file_manifest s.disk }
  ]
  act (get_installs n) s = elim (get_elem? s.reading n) [
    | none ↦ s
    | some m ↦ record s {
      entry = installed s.entry m;
      reading = take n s.reading ++ drop (suc n) s.reading;
    }
  ]
  act (fetched m renamed) s =
      if is_backwards s.disk m
      then s
      else if renamed
      then record s { disk = holds m; entry = some m }
      else s
  act invalidate s = record s { entry = none }

  unfoldable pub run_actions : List (Action F) → CacheState F → CacheState F
  unfolding act
  run_actions [] s = s
  run_actions (a ∷ actions) s = run_actions actions (act a s)
