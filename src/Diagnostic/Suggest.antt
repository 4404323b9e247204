-- ===== src/Diagnostic/Suggest.antt =====
-- DidYouMean and FormatSuggestion of internal/diagnostic/didyoumean.go.
use browzer_cli.Prelude.{
  ℕ, ◌≡◌, ◌≢◌, refl, Bool, true, false, not, ◌&&◌, ◌||◌, List, [], ◌∷◌, ◌++◌, map, arith,
  if◌then◌else◌, ltb, leb, ◌==◌, length, take, select, append-nil, append_assoc, sym,
}
use browzer_cli.Prelude.Text.{Text, codes, text_eq, text_lt, has_prefix, lower, join}
use browzer_cli.Prelude.Text.Laws.{text_lt_asym, text_lt_step}
use browzer_cli.Prelude.Sort.{sort, sort-Perm, IsSorted, sort-IsSorted}
use browzer_cli.Diagnostic.Levenshtein.{levenshtein}
use mathlib.Core.List.{Perm}

pub record Ranked : Type 0 where
  pub name : Text
  pub dist : ℕ

-- The test of the loop: a distance of at most two, or one of the two is a prefix of the other.
unfoldable pub qualifies : Text → Text → Bool
qualifies input candidate =
    leb (levenshtein (lower input) (lower candidate)) 2
    || (has_prefix (lower input) (lower candidate) || has_prefix (lower candidate) (lower input))

unfoldable pub hits : Text → List Text → List Ranked → List Ranked
unfolding qualifies
hits input [] found = found
hits input (candidate ∷ pool) found = hits input pool (
    if text_eq candidate []
    then found
    else if qualifies input candidate
    then found
      ++ (record { name = candidate; dist = levenshtein (lower input) (lower candidate) }) ∷ []
    else found)

unfoldable pub ranks_before : Ranked → Ranked → Bool
ranks_before a b = if not (a.dist == b.dist) then ltb a.dist b.dist else text_lt a.name b.name

unfoldable pub did_you_mean : Text → List Text → List Text
unfolding hits
did_you_mean [] pool = []
did_you_mean (c ∷ input) pool =
    map (λ (h : Ranked). h.name) (sort ranks_before (hits (c ∷ input) pool []))

unfoldable pub format_suggestion : List Text → Text
format_suggestion [] = []
format_suggestion (c ∷ candidates) =
    let top : List Text =
      if ltb 3 (length (c ∷ candidates)) then take 3 (c ∷ candidates) else c ∷ candidates in
    codes "did you mean: " ++ (join top (codes ", ") ++ codes "?")

-- A candidate that has a name and qualifies.
abbrev pub is_close : Text → Text → Bool
is_close input candidate = not (text_eq candidate []) && qualifies input candidate

abbrev pub rank : Text → Text → Ranked
rank input candidate = record {
  name = candidate;
  dist = levenshtein (lower input) (lower candidate);
}

hits-select :
    (input : Text) (pool : List Text) (found : List Ranked)
    → hits input pool found ≡ found ++ map (rank input) (select (is_close input) pool)
unfolding hits
hits-select input [] found = sym (append-nil found)
hits-select input (c ∷ pool) found = ground (
  arith,
  hits-select input pool found,
  hits-select input pool (found ++ rank input c ∷ []),
  append_assoc found (rank input c ∷ []) (map (rank input) (select (is_close input) pool)),
)

ranks_before-asym : (a b : Ranked) → ranks_before a b ≡ true → ranks_before b a ≡ false
unfolding ranks_before
ranks_before-asym a b h = ground (arith, text_lt_asym a.name b.name)

ranks_before-step :
    (a b c : Ranked)
    → ranks_before b a ≡ false
    → ranks_before c b ≡ false
    → ranks_before c a ≡ false
unfolding ranks_before
ranks_before-step a b c h k = ground (arith, text_lt_step a.name b.name c.name)

-- The suggestions are the names of the close candidates of the pool, each as often as it stands
-- there, and ordered by distance and then by name.
pub did_you_mean_ranked :
    (input : Text) (pool : List Text)
    → input ≢ []
    → (rs : List Ranked) × (did_you_mean input pool ≡ map (λ (r : Ranked). r.name) rs)
      × Perm rs (map (rank input) (select (is_close input) pool))
      × IsSorted ranks_before rs
unfolding did_you_mean
did_you_mean_ranked [] pool h = absurd (h refl)
did_you_mean_ranked (c ∷ input) pool h =
    let hs = hits (c ∷ input) pool [] in
    (
      sort ranks_before hs,
      refl,
      rw (← hits-select (c ∷ input) pool []) (sort-Perm ranks_before hs),
      sort-IsSorted ranks_before ranks_before-asym ranks_before-step hs,
    )
