-- ===== src/Hooks/Lock/Excludes.antt =====
-- Calls of AcquireLock that run one after the other.
use browzer_cli.Prelude.{
  ℕ, ◌+◌, ◌-◌, ◌*◌, ◌<◌, Bool, true, false, not, Option, none, some, [], ◌∷◌, ◌≡◌, refl, ap, ◌∙◌,
  arith, All,
}
use browzer_cli.Prelude.Text.{Text, trim_space}
use browzer_cli.Prelude.Text.Numerals.{IsDigit, decimal-All, trim_space-digits}
use browzer_cli.Prelude.Decimal.{decimal, value, value-decimal}
use browzer_cli.Hooks.Lock.{
  LockFile, make_dir, acquired, skipped, alone, step, is_stale, bad_name, release, pid_of, positive,
  atoi_digits,
}

atoi_digits-value : (n : ℕ) (s : Text) → All IsDigit s → atoi_digits n s ≡ some (value n s)
unfolding atoi_digits
atoi_digits-value n [] h = refl
atoi_digits-value n (c ∷ s) ((lo, hi), h) =
    ground (arith, atoi_digits-value (n * 10 + (c - b'0')) s h)

pid_of-digits :
    (s : Text)
    → All IsDigit s
    → 0 < value 0 s
    → value 0 s < 9223372036854775808
    → pid_of s ≡ some (value 0 s)
unfolding pid_of positive
pid_of-digits [] h lo hi = absurd (omega arith)
pid_of-digits (c ∷ s) ((l, u), h) lo hi = ground (arith, atoi_digits-value 0 (c ∷ s) ((l, u), h))

-- The PID that a lock file holds is read back.
pid_of-decimal :
    (p : ℕ) → 0 < p → p < 9223372036854775808 → pid_of (trim_space (decimal p)) ≡ some p
pid_of-decimal p lo hi =
    ap pid_of (trim_space-digits (decimal p) (decimal-All p))
    ∙ pid_of-digits (decimal p) (decimal-All p) (rw (value-decimal p) lo) (rw (value-decimal p) hi)
    ∙ ap some (value-decimal p)

decimal-is_stale :
    (alive : ℕ → Bool) (p : ℕ)
    → 0 < p
    → p < 9223372036854775808
    → is_stale alive (decimal p) ≡ not (alive p)
unfolding is_stale
decimal-is_stale alive p lo hi = rw (is_stale, pid_of-decimal p lo hi) refl

abbrev pub held_by : Bool → ℕ → Option LockFile
held_by me pid = some (record { by_first = me; contents = decimal pid })

abbrev pub IsFree : (ℕ → Bool) → Option LockFile → Type 0
IsFree alive none = Unit
IsFree alive (some f) = is_stale alive f.contents ≡ true

module _ (alive : ℕ → Bool) (name : Text) (ok : bad_name name ≡ false) where
  alone-free :
      (me : Bool) (pid : ℕ) (file : Option LockFile)
      → IsFree alive file
      → alone alive name me pid 10 (make_dir, file) ≡ (acquired, held_by me pid)
  unfolding alone step
  alone-free true pid none h = rw ok refl
  alone-free false pid none h = rw ok refl
  alone-free true pid (some f) h = rw (ok, h) refl
  alone-free false pid (some f) h = rw (ok, h) refl

  alone-held :
      (me : Bool) (pid : ℕ) (f : LockFile)
      → is_stale alive f.contents ≡ false
      → alone alive name me pid 10 (make_dir, some f) ≡ (skipped, some f)
  unfolding alone step
  alone-held me pid f h = rw (ok, h) refl

-- With no lock file or a stale one, a call of AcquireLock that nobody interrupts acquires the lock
-- and leaves its PID in the file. While that process lives, a later call skips and leaves the file
-- as it is. After the releaser has run the file is gone, so that a later call acquires the lock.
-- The name has to be accepted, and the PID is that of a 64-bit positive int.
pub lock_excludes :
    (alive : ℕ → Bool) (name : Text) (me you : Bool) (p q : ℕ) (file : Option LockFile)
    → bad_name name ≡ false
    → IsFree alive file
    → 0 < p
    → p < 9223372036854775808
    → alive p ≡ true
    → (alone alive name me p 10 (make_dir, file) ≡ (acquired, held_by me p))
      × (alone alive name you q 10 (make_dir, held_by me p) ≡ (skipped, held_by me p))
      × (alone alive name you q 10 (make_dir, (release false (held_by me p)).1)
          ≡ (acquired, held_by you q))
unfolding release
lock_excludes alive name me you p q file ok free lo hi living = (
  alone-free alive name ok me p file free,
  alone-held alive name ok you q (record { by_first = me; contents = decimal p })
      (decimal-is_stale alive p lo hi ∙ ap not living),
  alone-free alive name ok you q none tt,
)
