-- ===== src/Diagnostic/Samples.antt =====
-- Tests of the suggestions, and their theorems at concrete inputs.
use browzer_cli.Prelude.{ℕ, ◌≡◌, refl, List, [], ◌∷◌, ◌≤◌, map, select}
use browzer_cli.Prelude.Text.{Text, codes, lower, has_prefix, join, text_eq, text_lt}
use browzer_cli.Prelude.Sort.{sort, IsSorted}
use browzer_cli.Diagnostic.Levenshtein.{levenshtein}
use browzer_cli.Diagnostic.Levenshtein.Edits.{Edits}
use browzer_cli.Diagnostic.Levenshtein.Distance.{levenshtein_least}
use browzer_cli.Diagnostic.Suggest.{
  Ranked, ranks_before, did_you_mean, format_suggestion, rank, is_close, did_you_mean_ranked,
}
use mathlib.Core.List.{Perm}

kitten : levenshtein (codes "kitten") (codes "sitting") ≡ 3
unfolding levenshtein
kitten = refl

suggests_status :
    did_you_mean (codes "Statsu") (codes "status" ∷ codes "stats" ∷ codes "owner" ∷ [])
    ≡ codes "stats" ∷ codes "status" ∷ []
unfolding did_you_mean levenshtein lower has_prefix text_eq sort ranks_before text_lt
suggests_status = refl

three_at_most :
    format_suggestion (codes "a" ∷ codes "b" ∷ codes "c" ∷ codes "d" ∷ [])
    ≡ codes "did you mean: a, b, c?"
unfolding format_suggestion join
three_at_most = refl

levenshtein_least_example :
    Edits (levenshtein (codes "ab") (codes "b")) (codes "ab") (codes "b")
    × ((n : ℕ) → Edits n (codes "ab") (codes "b") → levenshtein (codes "ab") (codes "b") ≤ n)
levenshtein_least_example = levenshtein_least (codes "ab") (codes "b")

abbrev pool : List Text
pool = codes "status" ∷ codes "owner" ∷ []

did_you_mean_ranked_example :
    (rs : List Ranked) × (did_you_mean (codes "statu") pool ≡ map (λ (r : Ranked). r.name) rs)
    × Perm rs (map (rank (codes "statu")) (select (is_close (codes "statu")) pool))
    × IsSorted ranks_before rs
did_you_mean_ranked_example = did_you_mean_ranked (codes "statu") pool (cc)
