-- ===== src/Hooks/StripQuoted/Balanced.antt =====
-- StripQuoted passes a quoted text up to its quote, and a balanced text up to its parenthesis.
use browzer_cli.Prelude.{ℕ, suc, some, [], ◌∷◌, ◌++◌, ◌≡◌, refl, ◌∙◌, ap, append_assoc, arith}
use browzer_cli.Prelude.Text.{Text}
use browzer_cli.Prelude.Text.Laws.{Lacks}
use browzer_cli.Prelude.Loop.{go, stop, iterate, iterate-go, iterate-stop}
use browzer_cli.Hooks.StripQuoted.{
  quote, dollar, open_paren, close_paren, paren_step, depth_size, skip_dollar_paren, after_quote,
}
use browzer_cli.Hooks.StripQuoted.Skips.{paren_step-Shrinks}
use browzer_cli.Hooks.StripQuoted.Command.{
  Body, end, chr, group, subst, print_body, IsInner, IsBody,
}

pub after_quote-append :
    (t rest : Text) → Lacks quote t → after_quote (t ++ (quote ∷ rest)) ≡ some rest
unfolding after_quote
after_quote-append [] rest h = refl
after_quote-append (c ∷ t) rest (hc, h) = ground (arith, after_quote-append t rest h)

-- The loop over parentheses, from a depth.
abbrev in_parens : ℕ → Text → Text
in_parens d s = iterate depth_size paren_step [] (d, s)

paren_step-chr : (c d : ℕ) (s : Text) → IsInner c → paren_step (suc d, c ∷ s) ≡ go (suc d, s)
unfolding paren_step
paren_step-chr c d s (a, b, e, f) = rw (f, e, a, b) refl

paren_step-open : (d : ℕ) (s : Text) → paren_step (suc d, open_paren ∷ s) ≡ go (suc (suc d), s)
unfolding paren_step
paren_step-open d s = refl

paren_step-close : (d : ℕ) (s : Text) → paren_step (suc d, close_paren ∷ s) ≡ go (d, s)
unfolding paren_step
paren_step-close d s = refl

paren_step-dollar :
    (d : ℕ) (s : Text) → paren_step (suc d, dollar ∷ (open_paren ∷ s)) ≡ go (suc (suc d), s)
unfolding paren_step
paren_step-dollar d s = refl

in_parens-go :
    (d d' : ℕ) (s s' : Text) → paren_step (d, s) ≡ go (d', s') → in_parens d s ≡ in_parens d' s'
in_parens-go d d' s s' e = iterate-go depth_size paren_step [] paren_step-Shrinks (d, s) (d', s') e

paren_step-stop : (s : Text) → paren_step (0, s) ≡ stop s
unfolding paren_step
paren_step-stop s = refl

-- What stands behind an opening parenthesis.
abbrev enclosed : Body → Body → Text
enclosed a b = print_body a ++ (close_paren ∷ print_body b)

-- A text is passed at every depth but zero.
abbrev Passes : Body → Type 0
Passes b = (d : ℕ) (rest : Text) → in_parens (suc d) (print_body b ++ rest) ≡ in_parens (suc d) rest

in_parens-enclosed :
    (a b : Body) (d : ℕ) (rest : Text)
    → Passes a
    → Passes b
    → in_parens (suc (suc d)) (enclosed a b ++ rest) ≡ in_parens (suc d) rest
in_parens-enclosed a b d rest ha hb =
    ap (in_parens (suc (suc d))) (append_assoc (print_body a) (close_paren ∷ print_body b) rest)
    ∙ ha (suc d) (close_paren ∷ (print_body b ++ rest))
    ∙ in_parens-go (suc (suc d)) (suc d) (close_paren ∷ (print_body b ++ rest))
        (print_body b ++ rest) (paren_step-close (suc d) (print_body b ++ rest))
    ∙ hb d rest

-- A balanced text is passed at the depth at which it stands.
in_parens-body :
    (b : Body)
    → IsBody b
    → (d : ℕ) (rest : Text) → in_parens (suc d) (print_body b ++ rest) ≡ in_parens (suc d) rest
in_parens-body end h d rest = refl
in_parens-body (chr c b) (hc, h) d rest =
    in_parens-go (suc d) (suc d) (c ∷ (print_body b ++ rest)) (print_body b ++ rest)
      (paren_step-chr c d (print_body b ++ rest) hc)
    ∙ in_parens-body b h d rest
in_parens-body (group a b) (ha, hb) d rest =
    in_parens-go (suc d) (suc (suc d)) (open_paren ∷ (enclosed a b ++ rest)) (enclosed a b ++ rest)
      (paren_step-open d (enclosed a b ++ rest))
    ∙ in_parens-enclosed a b d rest (in_parens-body a ha) (in_parens-body b hb)
in_parens-body (subst a b) (ha, hb) d rest =
    in_parens-go (suc d) (suc (suc d)) (dollar ∷ (open_paren ∷ (enclosed a b ++ rest)))
      (enclosed a b ++ rest) (paren_step-dollar d (enclosed a b ++ rest))
    ∙ in_parens-enclosed a b d rest (in_parens-body a ha) (in_parens-body b hb)

pub skip_dollar_paren-body :
    (b : Body) (rest : Text)
    → IsBody b
    → skip_dollar_paren (print_body b ++ (close_paren ∷ rest)) ≡ rest
unfolding skip_dollar_paren
skip_dollar_paren-body b rest h =
    in_parens-body b h 0 (close_paren ∷ rest)
    ∙ in_parens-go 1 0 (close_paren ∷ rest) rest (paren_step-close 0 rest)
    ∙ iterate-stop depth_size paren_step [] paren_step-Shrinks (0, rest) rest (paren_step-stop rest)
