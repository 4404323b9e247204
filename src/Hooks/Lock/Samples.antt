-- ===== src/Hooks/Lock/Samples.antt =====
-- Runs of AcquireLock.
use browzer_cli.Prelude.{
  ℕ, Bool, true, false, ◌==◌, ◌||◌, Option, none, some, List, [], ◌∷◌, ◌≡◌, refl, arith,
}
use browzer_cli.Prelude.Text.{Text, codes, trim_space}
use browzer_cli.Hooks.Lock.{
  LockFile, make_dir, acquired, skipped, alone, against, interleave, is_stale, bad_name, release,
}
use browzer_cli.Hooks.Lock.Race.{
  two_holders, at_start, both_acquired, empty_schedule, stale_schedule,
}
use browzer_cli.Hooks.Lock.Ends.{acquire_ends, is_over}
use browzer_cli.Hooks.Lock.Excludes.{lock_excludes, held_by}

-- Processes 41 and 42 run, and no other.
abbrev alive : ℕ → Bool
alive pid = pid == 41 || pid == 42

abbrev name : Text
name = codes "telemetry-flush"

-- The file of process 7, which has ended.
abbrev left_over : LockFile
left_over = record { by_first = true; contents = codes "7" }

left_over_is_stale : is_stale alive left_over.contents ≡ true
unfolding is_stale trim_space
left_over_is_stale = refl

name_is_good : bad_name name ≡ false
unfolding bad_name
name_is_good = refl

two_holders_example :
    (interleave alive name 41 42 empty_schedule (at_start none) ≡ both_acquired 42)
    × (interleave alive name 41 42 stale_schedule (at_start (some left_over)) ≡ both_acquired 42)
two_holders_example = two_holders alive name 41 42 left_over name_is_good left_over_is_stale

lock_excludes_example :
    (alone alive name true 41 10 (make_dir, some left_over) ≡ (acquired, held_by true 41))
    × (alone alive name false 42 10 (make_dir, held_by true 41) ≡ (skipped, held_by true 41))
    × (alone alive name false 42 10 (make_dir, (release false (held_by true 41)).1)
        ≡ (acquired, held_by false 42))
lock_excludes_example =
    lock_excludes alive name true false 41 42 (some left_over) name_is_good left_over_is_stale
      (omega arith) (omega arith) refl

-- The others put the file of process 7 back before every system call.
abbrev ten_calls : List (Bool × (Option LockFile → Option LockFile))
ten_calls =
    (false, put_back)
    ∷ (false, put_back)
    ∷ (false, put_back)
    ∷ (false, put_back)
    ∷ (false, put_back)
    ∷ (false, put_back)
    ∷ (false, put_back)
    ∷ (false, put_back)
    ∷ (true, put_back)
    ∷ (false, put_back)
    ∷ []
  where
    put_back : Option LockFile → Option LockFile
    put_back file = some left_over

acquire_ends_example : is_over (against alive name true 41 ten_calls (make_dir, none)).0 ≡ true
acquire_ends_example = acquire_ends alive name true 41 ten_calls none (omega arith)
