-- ===== src/Hooks/StripQuoted/Grows.antt =====
-- What StripQuoted has written stays written.
use browzer_cli.Prelude.{
  ℕ, false, Option, none, some, [], ◌∷◌, ◌++◌, ◌≡◌, ◌&&◌, refl, subst, sym, ap, ◌==◌, if_intro,
  take, length, ◌-◌,
}
use browzer_cli.Prelude.Text.{Text}
use browzer_cli.Prelude.Loop.{Next, go, stop, iterate_inv, iterate-go}
use browzer_cli.Hooks.StripQuoted.{
  quote, double_quote, dollar, open_paren, less, starts, tail, skip_heredoc, heredoc_header,
  skip_double, after_quote, behind_part, strip_step, rest_size, strip_quoted,
}
use browzer_cli.Hooks.StripQuoted.Skips.{strip_step-Shrinks}
use browzer_cli.Hooks.StripQuoted.Skeleton.{strip_step-plain}

module _ (b : ℕ) where
  abbrev pub Begins : Text → Type 0
  Begins t = (r : Text) × (t ≡ b ∷ r)

  Begins-append : (t s : Text) → Begins t → Begins (t ++ s)
  Begins-append t s (r, e) = (r ++ s, ap (λ u. u ++ s) e)

  unfoldable Kept : Next (Text × Text) Text → Type 0
  Kept (go (out, s)) = Begins out
  Kept (stop r) = Begins r

  behind_part-Kept : (out : Text) (o : Option Text) → Begins out → Kept (behind_part out o)
  unfolding Kept
  behind_part-Kept out none h = h
  behind_part-Kept out (some r) h = h

  heredoc-Kept :
      (out : Text) (c : ℕ) (s : Text) (o : Option Text) (p : Option (Text × Text))
      → Begins out
      → Kept (elim o [
        | some r ↦ go (out, r)
        | none ↦ elim p [
          | some (delim, rest) ↦ stop (out ++ take (length (c ∷ s) - length rest) (c ∷ s))
          | none ↦ go (out ++ (c ∷ []), s)
        ]
      ])
  unfolding Kept
  heredoc-Kept out c s (some r) p h = h
  heredoc-Kept out c s none (some (delim, rest)) h = Begins-append out _ h
  heredoc-Kept out c s none none h = Begins-append out _ h

  strip_step-Kept : (out s : Text) → Begins out → Kept (strip_step (out, s))
  unfolding strip_step Kept
  strip_step-Kept out [] h = h
  strip_step-Kept out (c ∷ s) h =
      if_intro Kept (c == quote) (behind_part-Kept out (after_quote s) h) (
        if_intro Kept (c == dollar && starts quote s)
          (behind_part-Kept out (after_quote (tail s)) h)
          (if_intro Kept (c == double_quote) (behind_part-Kept out (skip_double s) h) (
            if_intro Kept (c == dollar && starts open_paren s) h (
              if_intro Kept (c == less && starts less s)
                (heredoc-Kept out c s (skip_heredoc (c ∷ s)) (heredoc_header (c ∷ s)) h)
                (Begins-append out (c ∷ []) h)))))

  strip_go-Begins : (x x' : Text × Text) → strip_step x ≡ go x' → Begins x.0 → Begins x'.0
  unfolding Kept
  strip_go-Begins (out, s) (out', s') e h = subst Kept e (strip_step-Kept out s h)

  strip_stop-Begins : (x : Text × Text) (r : Text) → strip_step x ≡ stop r → Begins x.0 → Begins r
  unfolding Kept
  strip_stop-Begins (out, s) r e h = subst Kept e (strip_step-Kept out s h)

  -- A first character that opens nothing is the first that is left.
  pub strip_quoted-Begins :
      (s : Text)
      → (b == quote) ≡ false
      → (b == dollar) ≡ false
      → (b == double_quote) ≡ false
      → (b == less) ≡ false
      → Begins (strip_quoted (b ∷ s))
  unfolding strip_quoted
  strip_quoted-Begins s q d dq l =
      subst Begins
        (sym (
          iterate-go rest_size strip_step [] strip_step-Shrinks ([], b ∷ s) (b ∷ [], s)
            (strip_step-plain b [] s q d dq l)))
        (iterate_inv rest_size strip_step [] (λ x. Begins x.0) Begins strip_step-Shrinks
          strip_go-Begins strip_stop-Begins (b ∷ [], s) ([], refl))
