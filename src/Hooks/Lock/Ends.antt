-- ===== src/Hooks/Lock/Ends.antt =====
-- A call of AcquireLock makes ten system calls at most.
use browzer_cli.Prelude.{
  ℕ, ◌+◌, ◌-◌, ◌*◌, ◌≤◌, Bool, true, false, Option, none, some, List, [], ◌∷◌, ◌≡◌, refl, length,
  arith,
}
use browzer_cli.Prelude.Text.{Text}
use browzer_cli.Hooks.Lock.{
  LockFile, Stage, make_dir, open_file, read_pid, remove_stale, write_pid, close_file, acquired,
  skipped, failed, step, against,
}

abbrev pub is_over : Stage → Bool
is_over acquired = true
is_over skipped = true
is_over failed = true
is_over _ = false

-- The system calls that are still possible.
abbrev rank : Stage → ℕ
rank make_dir = 10
rank (open_file attempt) = 3 * (2 - attempt) + 3
rank (read_pid attempt) = 3 * (2 - attempt) + 2
rank (remove_stale attempt) = 3 * (2 - attempt) + 1
rank write_pid = 2
rank close_file = 1
rank acquired = 0
rank skipped = 0
rank failed = 0

module _ (alive : ℕ → Bool) (name : Text) (me : Bool) (pid : ℕ) where
  step-rank :
      (fault : Bool) (s : Stage) (file : Option LockFile)
      → rank (step alive name me pid fault s file).0 ≤ rank s - 1
  unfolding step
  step-rank fault make_dir file = ground arith
  step-rank true (open_file attempt) file = ground arith
  step-rank false (open_file attempt) none = ground arith
  step-rank false (open_file attempt) (some f) = ground arith
  step-rank true (read_pid attempt) file = ground arith
  step-rank false (read_pid attempt) none = ground arith
  step-rank false (read_pid attempt) (some f) = ground arith
  step-rank true (remove_stale attempt) file = ground arith
  step-rank false (remove_stale attempt) file = ground arith
  step-rank true write_pid file = ground arith
  step-rank false write_pid file = ground arith
  step-rank true close_file file = ground arith
  step-rank false close_file file = ground arith
  step-rank fault acquired file = ground arith
  step-rank fault skipped file = ground arith
  step-rank fault failed file = ground arith

  against-rank :
      (calls : List (Bool × (Option LockFile → Option LockFile))) (s : Stage)
      (file : Option LockFile)
      → rank (against alive name me pid calls (s, file)).0 ≤ rank s - length calls
  unfolding against
  against-rank [] s file = omega arith
  against-rank ((fault, others) ∷ rest) s file =
      let (t, after) = step alive name me pid fault s (others file) in
      omega (
        arith,
        against-rank rest (step alive name me pid fault s (others file)).0
            (step alive name me pid fault s (others file)).1,
        step-rank fault s (others file),
      )

rank-over : (s : Stage) → rank s ≤ 0 → is_over s ≡ true
rank-over make_dir h = absurd (omega arith)
rank-over (open_file attempt) h = absurd (omega arith)
rank-over (read_pid attempt) h = absurd (omega arith)
rank-over (remove_stale attempt) h = absurd (omega arith)
rank-over write_pid h = absurd (omega arith)
rank-over close_file h = absurd (omega arith)
rank-over acquired h = refl
rank-over skipped h = refl
rank-over failed h = refl

-- A call of AcquireLock is over after ten system calls, whichever of them fail and whatever other
-- processes do to the lock file between them: it has acquired the lock, has skipped, or has failed.
pub acquire_ends :
    (alive : ℕ → Bool) (name : Text) (me : Bool) (pid : ℕ)
    (calls : List (Bool × (Option LockFile → Option LockFile))) (file : Option LockFile)
    → 10 ≤ length calls
    → is_over (against alive name me pid calls (make_dir, file)).0 ≡ true
acquire_ends alive name me pid calls file h =
    rank-over (against alive name me pid calls (make_dir, file)).0
      (omega (arith, against-rank alive name me pid calls make_dir file))
