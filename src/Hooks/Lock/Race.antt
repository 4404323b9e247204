-- ===== src/Hooks/Lock/Race.antt =====
-- Two calls of AcquireLock that run at once.
use browzer_cli.Prelude.{ℕ, Bool, true, false, Option, none, some, List, [], ◌∷◌, ◌≡◌, refl}
use browzer_cli.Prelude.Text.{Text}
use browzer_cli.Prelude.Decimal.{decimal}
use browzer_cli.Hooks.Lock.{
  LockFile, Both, make_dir, acquired, interleave, is_stale, bad_name, step,
}

abbrev pub at_start : Option LockFile → Both
at_start file = record { first = make_dir; second = make_dir; file = file }

-- Both hold the lock, and the file names the second.
abbrev pub both_acquired : ℕ → Both
both_acquired q = record {
  first = acquired;
  second = acquired;
  file = some (record { by_first = false; contents = decimal q });
}

-- Both find the same file stale; the second removes the one that the first has created since.
abbrev pub stale_schedule : List Bool
stale_schedule =
    true ∷ true ∷ true ∷ false ∷ false ∷ false ∷ true ∷ true ∷ true ∷ true ∷ false ∷ false ∷ false
    ∷ false ∷ []

-- The second reads the file of the first before its PID is written.
abbrev pub empty_schedule : List Bool
empty_schedule =
    true ∷ true ∷ false ∷ false ∷ false ∷ false ∷ false ∷ false ∷ false ∷ true ∷ true ∷ []

module _ (alive : ℕ → Bool) (name : Text) (p q : ℕ) where
  -- Whatever the PIDs and the name, two calls that start with no lock file both acquire the lock in
  -- the schedule where the second reads the file between its creation and the writing of the PID;
  -- and two calls that start with a stale file both acquire it in the schedule where both have read
  -- the file before either removes it.
  pub two_holders :
      (f : LockFile)
      → bad_name name ≡ false
      → is_stale alive f.contents ≡ true
      → (interleave alive name p q empty_schedule (at_start none) ≡ both_acquired q)
        × (interleave alive name p q stale_schedule (at_start (some f)) ≡ both_acquired q)
  unfolding interleave step is_stale decimal
  two_holders f ok stale = (rw ok refl, rw (ok, stale) refl)
