-- ===== src/Hooks/Lock.antt =====
-- AcquireLock of internal/hooks/acquire_lock.go as the system calls that one call of it makes, so
-- that the calls of two processes can be interleaved. A `fault` is a system call that fails for a
-- reason that the code does not expect. `alive` is processAlive, which asks the operating system.
pub mod Race
pub mod Ends
pub mod Excludes
mod Samples
use browzer_cli.Prelude.{
  ℕ, zero, suc, ◌+◌, ◌-◌, ◌*◌, Bool, true, false, not, ◌&&◌, ◌||◌, Option, none, some, List, [],
  ◌∷◌, if◌then◌else◌, ltb, leb, ◌==◌, any,
}
use browzer_cli.Prelude.Text.{Text, trim_space}
use browzer_cli.Prelude.Decimal.{decimal}

-- strconv.Atoi, of a text without a sign or with one: none for its errors. Numbers from 2^63 on
-- are out of its range.
abbrev pub digit : ℕ → Option ℕ
digit c = if leb b'0' c && leb c b'9' then some (c - b'0') else none

unfoldable pub atoi_digits : ℕ → Text → Option ℕ
atoi_digits n [] = some n
atoi_digits n (c ∷ s) = elim (digit c) [ some d ↦ atoi_digits (n * 10 + d) s | none ↦ none ]

unfoldable pub positive : Text → Option ℕ
unfolding atoi_digits
positive [] = none
positive (c ∷ s) = elim (atoi_digits 0 (c ∷ s)) [
  | some n ↦ if ltb n 9223372036854775808 && ltb 0 n then some n else none
  | none ↦ none
]

-- The PID of Atoi, when it is positive; a text with a minus sign has none.
unfoldable pub pid_of : Text → Option ℕ
unfolding positive
pid_of [] = none
pid_of (c ∷ s) = if c == b'+' then positive s else positive (c ∷ s)

-- The lock file: which of the two processes created it, and what it holds. A file that was removed
-- can still be written by its creator, which changes nothing at the path.
pub record LockFile : Type 0 where
  pub by_first : Bool
  pub contents : Text

-- Where a call of AcquireLock stands: before the next system call, or at its end.
pub data Stage : Type 0 where
  make_dir : Stage
  open_file : ℕ → Stage
  read_pid : ℕ → Stage
  remove_stale : ℕ → Stage
  write_pid : Stage
  close_file : Stage
  acquired : Stage
  skipped : Stage
  failed : Stage

-- isLockStale of what the file holds
unfoldable pub is_stale : (ℕ → Bool) → Text → Bool
unfolding pid_of trim_space
is_stale alive raw = elim (pid_of (trim_space raw)) [ some pid ↦ not (alive pid) | none ↦ true ]

-- name == "" || strings.ContainsAny(name, "/\\")
unfoldable pub bad_name : Text → Bool
bad_name [] = true
bad_name (c ∷ name) = any (λ x. x == b'/' || x == 92) (c ∷ name)

-- for attempt := range 3
abbrev pub next_attempt : ℕ → Stage
next_attempt attempt = if ltb (attempt + 1) 3 then open_file (attempt + 1) else skipped

abbrev pub same_process : Bool → Bool → Bool
same_process true b = b
same_process false b = not b

-- Writing to the open file, which is the one at the path only if the process created that.
unfoldable pub write_own : Bool → Text → Option LockFile → Option LockFile
write_own me text none = none
write_own me text (some f) =
    if same_process me f.by_first then some (record f { contents = text }) else some f

-- The next system call of a call of AcquireLock, by the process `me` of the given PID.
unfoldable pub step :
    (ℕ → Bool) → Text → Bool → ℕ → Bool → Stage → Option LockFile → Stage × Option LockFile
unfolding bad_name is_stale write_own decimal
step alive name me pid fault make_dir file =
    if bad_name name || fault then (failed, file) else (open_file 0, file)
step alive name me pid true (open_file attempt) file = (failed, file)
step alive name me pid false (open_file attempt) none =
    (write_pid, some (record { by_first = me; contents = [] }))
step alive name me pid false (open_file attempt) (some f) = (read_pid attempt, some f)
step alive name me pid true (read_pid attempt) file = (failed, file)
step alive name me pid false (read_pid attempt) none = (remove_stale attempt, none)
step alive name me pid false (read_pid attempt) (some f) =
    (if is_stale alive f.contents then remove_stale attempt else skipped, some f)
step alive name me pid true (remove_stale attempt) file = (failed, file)
step alive name me pid false (remove_stale attempt) file = (next_attempt attempt, none)
step alive name me pid true write_pid file = (failed, none)
step alive name me pid false write_pid file = (close_file, write_own me (decimal pid) file)
step alive name me pid true close_file file = (failed, none)
step alive name me pid false close_file file = (acquired, file)
step alive name me pid fault acquired file = (acquired, file)
step alive name me pid fault skipped file = (skipped, file)
step alive name me pid fault failed file = (failed, file)

-- The releaser: the first call removes the file.
unfoldable pub release : Bool → Option LockFile → Bool × Option LockFile
release true file = (true, file)
release false file = (true, none)

-- A call that nobody interrupts, with no fault, of at most `n` system calls.
unfoldable pub alone :
    (ℕ → Bool) → Text → Bool → ℕ → ℕ → Stage × Option LockFile → Stage × Option LockFile
unfolding step
alone alive name me pid zero s = s
alone alive name me pid (suc n) (stage, file) =
    alone alive name me pid n (step alive name me pid false stage file)

-- A call between whose system calls the others change the file: each entry is a fault or none, and
-- what the others have made of the file before the system call.
unfoldable pub against :
    (ℕ → Bool)
    → Text
    → Bool
    → ℕ
    → List (Bool × (Option LockFile → Option LockFile))
    → Stage × Option LockFile
    → Stage × Option LockFile
unfolding step
against alive name me pid [] s = s
against alive name me pid ((fault, others) ∷ rest) (stage, file) =
    against alive name me pid rest (step alive name me pid fault stage (others file))

-- Two processes that take the lock.
pub record Both : Type 0 where
  pub first : Stage
  pub second : Stage
  pub file : Option LockFile

-- Their system calls in the order of a schedule, `true` for the first process; no call fails.
unfoldable pub interleave : (ℕ → Bool) → Text → ℕ → ℕ → List Bool → Both → Both
unfolding step
interleave alive name p q [] s = s
interleave alive name p q (true ∷ rest) s =
    let (stage, file) = step alive name true p false s.first s.file in
    interleave alive name p q rest (record s { first = stage; file = file })
interleave alive name p q (false ∷ rest) s =
    let (stage, file) = step alive name false q false s.second s.file in
    interleave alive name p q rest (record s { second = stage; file = file })
