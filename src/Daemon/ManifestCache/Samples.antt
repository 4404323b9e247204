-- ===== src/Daemon/ManifestCache/Samples.antt =====
-- A slow fetch that ends after the file was replaced, and a read that is installed after Invalidate.
use browzer_cli.Prelude.{ℕ, ◌+◌, true, Option, none, some, List, [], ◌∷◌, ◌≡◌, refl, All, arith}
use browzer_cli.Prelude.Text.{Text, codes, text_eq}
use browzer_cli.Daemon.ManifestCache.{
  Manifest, holds, CacheState, Action, get_reads, get_installs, fetched, invalidate, stamp, act,
  run_actions,
}
use browzer_cli.Daemon.ManifestCache.Ordered.{IsTimed, IsOrdered, run_actions-IsOrdered}

-- A time is the number of its characters.
abbrev parse_time : Text → Option ℕ
parse_time [] = some 0
parse_time (c ∷ s) = elim (parse_time s) [ some n ↦ some (n + 1) | none ↦ none ]

abbrev manifest : Text → Manifest ℕ
manifest time = record { workspace_id = codes "w"; indexed_at = time; files = [] }

abbrev start : CacheState ℕ
start = record { disk = holds (manifest (codes "22")); entry = none; reading = [] }

abbrev actions : List (Action ℕ)
actions =
    get_reads
    ∷ fetched (manifest (codes "1")) true
    ∷ fetched (manifest (codes "333")) true
    ∷ invalidate
    ∷ get_installs 0
    ∷ []

-- The entry that is installed last is older than the file.
stale_after_invalidate : (run_actions parse_time actions start).entry ≡ some (manifest (codes "22"))
unfolding run_actions act stamp text_eq
stale_after_invalidate = refl

actions-IsTimed : All (IsTimed parse_time) actions
unfolding stamp text_eq
actions-IsTimed = (tt, ((1, refl), ((3, refl), (tt, (tt, tt)))))

start-IsOrdered : IsOrdered parse_time 2 start
unfolding stamp text_eq
start-IsOrdered = (2, omega arith, ((manifest (codes "22"), refl, refl), tt, tt))

run_actions-IsOrdered_example : IsOrdered parse_time 2 (run_actions parse_time actions start)
run_actions-IsOrdered_example =
    run_actions-IsOrdered parse_time 2 actions start actions-IsTimed start-IsOrdered
