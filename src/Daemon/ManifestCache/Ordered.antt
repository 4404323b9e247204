-- ===== src/Daemon/ManifestCache/Ordered.antt =====
-- The file of the manifest does not go back in time, and the cache is never ahead of it.
use browzer_cli.Prelude.{
  All-take, All-drop, ℕ, zero, ◌≤◌, Bool, false, Option, none, some, List, [], ◌∷◌, ◌≡◌, refl,
  subst, arith, All, All-append, suc, take, drop, get_elem?, inl, inr, Option-cases, if_split,
}
use browzer_cli.Prelude.Text.{Text}
use browzer_cli.Daemon.ManifestCache.{
  Manifest, OnDisk, holds, CacheState, Action, get_reads, get_installs, fetched, invalidate, stamp,
  is_backwards, file_manifest, installed, act, run_actions,
}

All-get_elem? {ℓ κ} :
    {A : Type ℓ} (P : A → Type κ) (n : ℕ) (xs : List A) (x : A)
    → All P xs
    → get_elem? xs n ≡ some x
    → P x
All-get_elem? P n [] x h e = cc e
All-get_elem? P zero (y ∷ xs) x (h, hs) e = let e' : y ≡ x = cc e in subst P e' h
All-get_elem? P (suc n) (y ∷ xs) x (h, hs) e = All-get_elem? P n xs x hs e

module _ {F : Type 0} (parse_time : Text → Option ℕ) where
  -- The manifest has a time, and none above b.
  abbrev pub IsUpTo : ℕ → Manifest F → Type 0
  IsUpTo b m = (a : ℕ) × (stamp parse_time m ≡ some a) × (a ≤ b)

  abbrev pub EntryIsUpTo : ℕ → Option (Manifest F) → Type 0
  EntryIsUpTo b none = Unit
  EntryIsUpTo b (some m) = IsUpTo b m

  -- The file holds a manifest of the time b, and neither the entry nor a read that is to be installed
  -- is of a later one.
  abbrev pub IsAt : ℕ → CacheState F → Type 0
  IsAt b s =
      ((d : Manifest F) × (s.disk ≡ holds d) × (stamp parse_time d ≡ some b))
      × EntryIsUpTo b s.entry
      × All (IsUpTo b) s.reading

  -- The file holds a manifest of the time t or of a later one.
  abbrev pub IsOrdered : ℕ → CacheState F → Type 0
  IsOrdered t s = (b : ℕ) × (t ≤ b) × IsAt b s

  -- What is fetched has a time.
  abbrev pub IsTimed : Action F → Type 0
  IsTimed get_reads = Unit
  IsTimed (get_installs n) = Unit
  IsTimed (fetched m renamed) = (a : ℕ) × (stamp parse_time m ≡ some a)
  IsTimed invalidate = Unit

  IsUpTo-le : (b c : ℕ) (m : Manifest F) → b ≤ c → IsUpTo b m → IsUpTo c m
  IsUpTo-le b c m h (a, e, k) = (a, e, omega arith)

  All-IsUpTo-le : (b c : ℕ) (ms : List (Manifest F)) → b ≤ c → All (IsUpTo b) ms → All (IsUpTo c) ms
  All-IsUpTo-le b c [] h hs = tt
  All-IsUpTo-le b c (m ∷ ms) h (k, hs) = (IsUpTo-le b c m h k, All-IsUpTo-le b c ms h hs)

  file_manifest-IsUpTo :
      (b : ℕ) (f : OnDisk F) (d : Manifest F)
      → f ≡ holds d
      → stamp parse_time d ≡ some b
      → All (IsUpTo b) (file_manifest f)
  file_manifest-IsUpTo b f d e k = rw e ((b, k, omega arith), tt)

  installed-IsUpTo :
      (b : ℕ) (o : Option (Manifest F)) (m : Manifest F)
      → EntryIsUpTo b o
      → IsUpTo b m
      → EntryIsUpTo b (installed o m)
  installed-IsUpTo b none m h k = k
  installed-IsUpTo b (some x) m h k = h

  get_reads-IsOrdered :
      (t : ℕ) (s : CacheState F) → IsOrdered t s → IsOrdered t (act parse_time get_reads s)
  unfolding act
  get_reads-IsOrdered t s (b, tb, ((d, ed, sd), he, hr)) = elim (Option-cases s.entry) [
    | inl e ↦ rw e (
      b,
      tb,
      (
        (d, ed, sd),
        tt,
        All-append (IsUpTo b) s.reading (file_manifest s.disk) hr
            (file_manifest-IsUpTo b s.disk d ed sd),
      ),
    )
    | inr (m, e) ↦ rw e (b, tb, ((d, ed, sd), subst (EntryIsUpTo b) e he, hr))
  ]

  get_installs-IsOrdered :
      (t n : ℕ) (s : CacheState F) → IsOrdered t s → IsOrdered t (act parse_time (get_installs n) s)
  unfolding act
  get_installs-IsOrdered t n s (b, tb, ((d, ed, sd), he, hr)) =
      elim (Option-cases (get_elem? s.reading n)) [
        | inl e ↦ rw (act, e) (b, tb, ((d, ed, sd), he, hr))
        | inr (m, e) ↦
            rw (act, e)
              (
                b,
                tb,
                (
                  (d, ed, sd),
                  installed-IsUpTo b s.entry m he (All-get_elem? (IsUpTo b) n s.reading m hr e),
                  All-append (IsUpTo b) (take n s.reading) (drop (suc n) s.reading)
                      (All-take (IsUpTo b) n s.reading hr)
                      (All-drop (IsUpTo b) (suc n) s.reading hr),
                ),
              )
      ]

  -- A fetch that is not backwards is no older than the file.
  not_backwards :
      (f : OnDisk F) (d m : Manifest F) (a b : ℕ)
      → f ≡ holds d
      → stamp parse_time d ≡ some b
      → stamp parse_time m ≡ some a
      → is_backwards parse_time f m ≡ false
      → b ≤ a
  not_backwards f d m a b e k l h = ground arith

  fetched-IsOrdered :
      (t : ℕ) (m : Manifest F) (renamed : Bool) (s : CacheState F)
      → IsTimed (fetched m renamed)
      → IsOrdered t s
      → IsOrdered t (act parse_time (fetched m renamed) s)
  unfolding act
  fetched-IsOrdered t m renamed s (a, k) (b, tb, ((d, ed, sd), he, hr)) =
      if_split (IsOrdered t) (is_backwards parse_time s.disk m)
        (λ _. (b, tb, ((d, ed, sd), he, hr)))
        (λ h.
          if_split (IsOrdered t) renamed
            (λ _.
              let le : b ≤ a = not_backwards s.disk d m a b ed sd k h in
              (
                a,
                omega arith,
                ((m, refl, k), (a, k, omega arith), All-IsUpTo-le b a s.reading le hr),
              ))
            (λ _. (b, tb, ((d, ed, sd), he, hr))))

  act-IsOrdered :
      (t : ℕ) (a : Action F) (s : CacheState F)
      → IsTimed a
      → IsOrdered t s
      → IsOrdered t (act parse_time a s)
  unfolding act
  act-IsOrdered t get_reads s h o = get_reads-IsOrdered t s o
  act-IsOrdered t (get_installs n) s h o = get_installs-IsOrdered t n s o
  act-IsOrdered t (fetched m renamed) s h o = fetched-IsOrdered t m renamed s h o
  act-IsOrdered t invalidate s h (b, tb, (at_disk, he, hr)) = (b, tb, (at_disk, tt, hr))

  -- If the file holds a manifest of the time t, and neither the entry nor a read that is to be
  -- installed is of a later time than the file, then so it is after any steps of the daemon, in any
  -- order, with the file at t or later, if all that they fetch has a time.
  pub run_actions-IsOrdered :
      (t : ℕ) (actions : List (Action F)) (s : CacheState F)
      → All IsTimed actions
      → IsOrdered t s
      → IsOrdered t (run_actions parse_time actions s)
  unfolding run_actions
  run_actions-IsOrdered t [] s h o = o
  run_actions-IsOrdered t (a ∷ actions) s (ha, h) o =
      run_actions-IsOrdered t actions (act parse_time a s) h (act-IsOrdered t a s ha o)
