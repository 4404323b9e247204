-- ===== src/RunFilters/LineFilter.antt =====
-- A filter that keeps or drops whole lines: what the filters of internal/commands/runfilters offer
-- when none of their lines depends on another, and what follows for all of them.
use browzer_cli.Prelude.{
  Bool, false, List, [], ◌∷◌, ◌++◌, ◌≡◌, refl, sym, ap, ◌∙◌, All, select, select-append,
  select-select, append-nil, Bool-cases, inl, inr,
}
use browzer_cli.Prelude.Text.{Text, newline}
use browzer_cli.Prelude.Text.Laws.{Lacks}
use browzer_cli.RunFilters.Lines.{lines, unlines, lines-unlines, lines-Lacks}

pub record LineFilter : Type 0 where
  pub keep : Text → Bool
  pub filter : Text → Text
  pub keep-empty : keep [] ≡ false
  pub filter-lines : (s : Text) → filter s ≡ unlines (select keep (lines s))

All-select-kept :
    (P : Text → Type 0) (keep : Text → Bool) (ls : List Text) → All P ls → All P (select keep ls)
All-select-kept P keep [] h = tt
All-select-kept P keep (l ∷ ls) (p, h) = elim (Bool-cases (keep l)) [
  | inl e ↦ rw e (p, All-select-kept P keep ls h)
  | inr e ↦ rw e (All-select-kept P keep ls h)
]

module _ (F : LineFilter) where
  -- The kept lines are the lines of the output, with an empty rest.
  pub lines-filter : (s : Text) → lines (F.filter s) ≡ select F.keep (lines s) ++ [] ∷ []
  lines-filter s =
      ap lines (F.filter-lines s)
      ∙ lines-unlines (select F.keep (lines s))
          (All-select-kept (Lacks newline) F.keep (lines s) (lines-Lacks s))

  -- Filtering twice changes nothing more.
  pub filter_idempotent : (s : Text) → F.filter (F.filter s) ≡ F.filter s
  filter_idempotent s =
      F.filter-lines (F.filter s)
      ∙ ap (λ ls. unlines (select F.keep ls)) (lines-filter s)
      ∙ ap unlines (
          select-append F.keep (select F.keep (lines s)) ([] ∷ [])
          ∙ ap (λ ls. select F.keep (select F.keep (lines s)) ++ ls) (rw F.keep-empty refl)
          ∙ append-nil (select F.keep (select F.keep (lines s)))
          ∙ select-select F.keep (lines s))
      ∙ sym (F.filter-lines s)
