-- ===== src/Hooks/StripQuoted/Skeleton.antt =====
-- What StripQuoted leaves of a command that is written by the rules of the shell.
use browzer_cli.Prelude.{
  ℕ, false, none, some, [], ◌∷◌, ◌++◌, ◌≡◌, refl, ◌∙◌, ap, sym, ◌==◌, length, append_assoc,
  append-nil, arith,
}
use browzer_cli.Prelude.Text.{Text}
use browzer_cli.Prelude.Loop.{go, stop, iterate, iterate-go, iterate-stop}
use browzer_cli.Hooks.StripQuoted.{
  quote, double_quote, dollar, backslash, open_paren, close_paren, less, skip_dollar_paren,
  double_step, skip_double, after_quote, strip_step, rest_size, strip_quoted,
}
use browzer_cli.Hooks.StripQuoted.Skips.{double_step-Shrinks, strip_step-Shrinks}
use browzer_cli.Hooks.StripQuoted.Command.{
  print_body, Quoted, close, letter, escape, inserted, print_quoted, IsQuoted, Command, nothing,
  plain, single, ansi, double, replaced, print, IsCommand, skeleton,
}
use browzer_cli.Hooks.StripQuoted.Balanced.{after_quote-append, skip_dollar_paren-body}

double_step-letter :
    (c : ℕ) (s : Text)
    → (c == backslash) ≡ false
    → (c == double_quote) ≡ false
    → (c == dollar) ≡ false
    → double_step (c ∷ s) ≡ go s
unfolding double_step
double_step-letter c s a b e = rw (a, b, e) refl

double_step-escape : (c : ℕ) (s : Text) → double_step (backslash ∷ (c ∷ s)) ≡ go s
unfolding double_step
double_step-escape c s = ground arith

double_step-close : (s : Text) → double_step (double_quote ∷ s) ≡ stop (some s)
unfolding double_step
double_step-close s = refl

double_step-dollar : (s : Text) → double_step (dollar ∷ (open_paren ∷ s)) ≡ go (skip_dollar_paren s)
unfolding double_step
double_step-dollar s = refl

skip_double-go : (s s' : Text) → double_step s ≡ go s' → skip_double s ≡ skip_double s'
unfolding skip_double
skip_double-go s s' e = iterate-go length double_step none double_step-Shrinks s s' e

-- What stands behind an opening double quote.
abbrev behind : Quoted → Text → Text
behind q rest = print_quoted q ++ (double_quote ∷ rest)

skip_double-quoted :
    (q : Quoted) (rest : Text)
    → IsQuoted q
    → skip_double (print_quoted q ++ (double_quote ∷ rest)) ≡ some rest
unfolding skip_double
skip_double-quoted close rest h =
    iterate-stop length double_step none double_step-Shrinks (double_quote ∷ rest) (some rest)
      (double_step-close rest)
skip_double-quoted (letter c q) rest (a, b, e, h) =
    skip_double-go (c ∷ behind q rest) (behind q rest) (double_step-letter c (behind q rest) a b e)
    ∙ skip_double-quoted q rest h
skip_double-quoted (escape c q) rest h =
    skip_double-go (backslash ∷ (c ∷ behind q rest)) (behind q rest)
      (double_step-escape c (behind q rest))
    ∙ skip_double-quoted q rest h
skip_double-quoted (inserted b q) rest (hb, h) =
    let inner : Text = (print_body b ++ (close_paren ∷ print_quoted q)) ++ (double_quote ∷ rest) in
    skip_double-go (dollar ∷ (open_paren ∷ inner)) (skip_dollar_paren inner)
      (double_step-dollar inner)
    ∙ ap skip_double (
        ap skip_dollar_paren
          (append_assoc (print_body b) (close_paren ∷ print_quoted q) (double_quote ∷ rest))
        ∙ skip_dollar_paren-body b (behind q rest) hb)
    ∙ skip_double-quoted q rest h

-- The loop of StripQuoted, from what is written so far.
abbrev stripped : Text → Text → Text
stripped out s = iterate rest_size strip_step [] (out, s)

stripped-go :
    (out out' s s' : Text) → strip_step (out, s) ≡ go (out', s') → stripped out s ≡ stripped out' s'
stripped-go out out' s s' e =
    iterate-go rest_size strip_step [] strip_step-Shrinks (out, s) (out', s') e

pub strip_step-plain :
    (c : ℕ) (out s : Text)
    → (c == quote) ≡ false
    → (c == dollar) ≡ false
    → (c == double_quote) ≡ false
    → (c == less) ≡ false
    → strip_step (out, c ∷ s) ≡ go (out ++ (c ∷ []), s)
unfolding strip_step
strip_step-plain c out s a b e f = rw (a, b, e, f) refl

strip_step-single :
    (out s rest : Text) → after_quote s ≡ some rest → strip_step (out, quote ∷ s) ≡ go (out, rest)
unfolding strip_step
strip_step-single out s rest e = rw e refl

strip_step-ansi :
    (out s rest : Text)
    → after_quote s ≡ some rest
    → strip_step (out, dollar ∷ (quote ∷ s)) ≡ go (out, rest)
unfolding strip_step
strip_step-ansi out s rest e = rw e refl

strip_step-double :
    (out s rest : Text)
    → skip_double s ≡ some rest
    → strip_step (out, double_quote ∷ s) ≡ go (out, rest)
unfolding strip_step
strip_step-double out s rest e = rw e refl

strip_step-replaced :
    (out s rest : Text)
    → skip_dollar_paren s ≡ rest
    → strip_step (out, dollar ∷ (open_paren ∷ s)) ≡ go (out, rest)
unfolding strip_step
strip_step-replaced out s rest e = rw e refl

strip_step-nothing : (out : Text) → strip_step (out, []) ≡ stop out
unfolding strip_step
strip_step-nothing out = refl

stripped-print :
    (k : Command) (out : Text) → IsCommand k → stripped out (print k) ≡ out ++ skeleton k
stripped-print nothing out h =
    iterate-stop rest_size strip_step [] strip_step-Shrinks (out, []) out (strip_step-nothing out)
    ∙ sym (append-nil out)
stripped-print (plain c k) out (a, b, e, f, h) =
    stripped-go out (out ++ (c ∷ [])) (c ∷ print k) (print k)
      (strip_step-plain c out (print k) a b e f)
    ∙ stripped-print k (out ++ (c ∷ [])) h
    ∙ append_assoc out (c ∷ []) (skeleton k)
stripped-print (single t k) out (ht, h) =
    stripped-go out out (quote ∷ (t ++ (quote ∷ print k))) (print k)
      (strip_step-single out (t ++ (quote ∷ print k)) (print k) (after_quote-append t (print k) ht))
    ∙ stripped-print k out h
stripped-print (ansi t k) out (ht, h) =
    stripped-go out out (dollar ∷ (quote ∷ (t ++ (quote ∷ print k)))) (print k)
      (strip_step-ansi out (t ++ (quote ∷ print k)) (print k) (after_quote-append t (print k) ht))
    ∙ stripped-print k out h
stripped-print (double q k) out (hq, h) =
    stripped-go out out (double_quote ∷ behind q (print k)) (print k)
      (strip_step-double out (behind q (print k)) (print k) (skip_double-quoted q (print k) hq))
    ∙ stripped-print k out h
stripped-print (replaced b k) out (hb, h) =
    stripped-go out out (dollar ∷ (open_paren ∷ (print_body b ++ (close_paren ∷ print k))))
      (print k)
      (strip_step-replaced out (print_body b ++ (close_paren ∷ print k)) (print k)
        (skip_dollar_paren-body b (print k) hb))
    ∙ stripped-print k out h

-- Of a command that is made of characters, '...', $'...', "..." with escapes and $( ... ), and
-- $( ... ) with balanced parentheses, and has no heredoc and no unquoted $ or < besides,
-- StripQuoted leaves exactly the characters outside of these parts.
pub strip_quoted-print : (k : Command) → IsCommand k → strip_quoted (print k) ≡ skeleton k
unfolding strip_quoted
strip_quoted-print k h = stripped-print k [] h
