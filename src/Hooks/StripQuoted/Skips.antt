-- ===== src/Hooks/StripQuoted/Skips.antt =====
-- Every part that StripQuoted skips is a part of what is left of the input, so that its loops end.
use browzer_cli.Prelude.{
  ℕ, suc, zero, ◌≤◌, Bool, not, ◌&&◌, Option, none, some, [], ◌∷◌, ◌≡◌, ◌≢◌, ◌==◌, length, drop,
  length-drop-le, arith, if_intro, take, ◌-◌, ◌++◌,
}
use browzer_cli.Prelude.Text.{Text, newline, has_prefix}
use browzer_cli.Prelude.Loop.{Next, go, stop, Shrinks, iterate_inv}
use browzer_cli.Hooks.StripQuoted.{
  quote, double_quote, dollar, open_paren, less, is_blank, is_word, tail, span, quoted_delim,
  delimiter, skip_dash, heredoc_header, line_end, closed_here, closes, find_close, skip_heredoc,
  paren_step, depth_size, skip_dollar_paren, double_step, skip_double, after_quote, behind_part,
  strip_step, rest_size,
}

-- What is left, if anything is, is no longer than n.
abbrev pub Fits : ℕ → Option Text → Type 0
Fits n none = Unit
Fits n (some r) = length r ≤ n

abbrev FitsPair : ℕ → Option (Text × Text) → Type 0
FitsPair n none = Unit
FitsPair n (some (x, r)) = length r ≤ n

Fits-le : {n m : ℕ} → n ≤ m → (o : Option Text) → Fits n o → Fits m o
Fits-le a none h = tt
Fits-le a (some r) h = omega arith

length-span : (p : ℕ → Bool) (s : Text) → length (span p s).1 ≤ length s
unfolding span
length-span p [] = omega arith
length-span p (c ∷ s) = ground (arith, length-span p s)

length-tail : (s : Text) → length (tail s) ≤ length s
length-tail [] = omega arith
length-tail (c ∷ s) = omega arith

quoted_delim-FitsPair : (q : ℕ) (s : Text) → FitsPair (length s) (quoted_delim q s)
unfolding quoted_delim
quoted_delim-FitsPair q s =
    let run = span (λ (c : ℕ). not (c == q) && not (c == newline)) s in
    ground (arith, length-span (λ (c : ℕ). not (c == q) && not (c == newline)) s, length-tail run.1)

delimiter-FitsPair : (s : Text) → FitsPair (length s) (delimiter s)
unfolding delimiter
delimiter-FitsPair [] = tt
delimiter-FitsPair (c ∷ s) = ground (
  arith,
  quoted_delim-FitsPair quote s,
  quoted_delim-FitsPair double_quote s,
  length-span is_word s,
)

line_end-Fits : (s : Text) → Fits (length s) (line_end s)
line_end-Fits [] = omega arith
line_end-Fits (c ∷ s) = ground arith

closed_here-Fits : (delim s : Text) → Fits (length s) (closed_here delim s)
unfolding has_prefix
closed_here-Fits delim s =
    ground (arith, line_end-Fits (drop (length delim) s), length-drop-le (length delim) s)

closes-Fits : (delim s : Text) → Fits (length s) (closes delim s)
unfolding closes
closes-Fits delim [] = closed_here-Fits delim []
closes-Fits delim (c ∷ s) = ground (arith, closed_here-Fits delim (c ∷ s), closes-Fits delim s)

find_close-Fits : (delim s : Text) → Fits (length s) (find_close delim s)
unfolding find_close
find_close-Fits delim [] = tt
find_close-Fits delim (c ∷ s) = ground (arith, find_close-Fits delim s, closes-Fits delim s)

after_quote-Fits : (s : Text) → Fits (length s) (after_quote s)
unfolding after_quote
after_quote-Fits [] = tt
after_quote-Fits (c ∷ s) = ground (arith, after_quote-Fits s)

length-skip_dash : (s : Text) → length (skip_dash s) ≤ length s
length-skip_dash [] = omega arith
length-skip_dash (c ∷ s) = ground arith

FitsPair-le : {n m k : ℕ} → n ≤ m → m ≤ k → (o : Option (Text × Text)) → FitsPair n o → FitsPair k o
FitsPair-le a b none h = tt
FitsPair-le a b (some (x, r)) h = omega arith

heredoc_header-FitsPair : (s : Text) → FitsPair (length (drop 2 s)) (heredoc_header s)
unfolding heredoc_header
heredoc_header-FitsPair s =
    FitsPair-le (length-span is_blank (skip_dash (drop 2 s))) (length-skip_dash (drop 2 s))
      (delimiter (span is_blank (skip_dash (drop 2 s))).1)
      (delimiter-FitsPair (span is_blank (skip_dash (drop 2 s))).1)

closed_or_end :
    (n : ℕ) (o : Option (Text × Text))
    → FitsPair n o
    → Fits n (elim o [
      | none ↦ none
      | some (delim, rest) ↦ elim (find_close delim rest) [ some r ↦ some r | none ↦ some [] ]
    ])
closed_or_end n none h = tt
closed_or_end n (some (delim, rest)) h = ground (arith, find_close-Fits delim rest)

-- A heredoc is skipped with the two characters that it begins with.
skip_heredoc-Fits : (s : Text) → Fits (length (drop 2 s)) (skip_heredoc s)
unfolding skip_heredoc
skip_heredoc-Fits s =
    closed_or_end (length (drop 2 s)) (heredoc_header s) (heredoc_header-FitsPair s)

pub paren_step-Shrinks : Shrinks depth_size paren_step []
unfolding paren_step
paren_step-Shrinks (zero, s) (d', s') e = cc
paren_step-Shrinks (suc d, []) (d', s') e = cc
paren_step-Shrinks (suc d, c ∷ []) (d', s') e = ground arith
paren_step-Shrinks (suc d, c ∷ (b ∷ s)) (d', s') e = ground (arith, skip_heredoc-Fits (c ∷ (b ∷ s)))

paren_step-stop : (s : ℕ × Text) (r : Text) → paren_step s ≡ stop r → length r ≤ depth_size s
unfolding paren_step
paren_step-stop (zero, s) r e = ground arith
paren_step-stop (suc d, []) r e = ground arith
paren_step-stop (suc d, c ∷ []) r e = ground arith
paren_step-stop (suc d, c ∷ (b ∷ s)) r e = ground (arith, skip_heredoc-Fits (c ∷ (b ∷ s)))

length-skip_dollar_paren : (s : Text) → length (skip_dollar_paren s) ≤ length s
unfolding skip_dollar_paren
length-skip_dollar_paren s =
    iterate_inv depth_size paren_step [] (λ t. depth_size t ≤ length s) (λ r. length r ≤ length s)
      paren_step-Shrinks (λ t t' e h. omega (arith, paren_step-Shrinks t t' e))
      (λ t r e h. omega (arith, paren_step-stop t r e)) (1, s) (omega arith)

pub double_step-Shrinks : Shrinks length double_step none
unfolding double_step
double_step-Shrinks [] s' e = cc
double_step-Shrinks (c ∷ s) s' e = ground (arith, length-skip_dollar_paren (tail s), length-tail s)

double_step-stop : (s : Text) (r : Option Text) → double_step s ≡ stop r → Fits (length s) r
unfolding double_step
double_step-stop [] r e = ground arith
double_step-stop (c ∷ s) r e = ground arith

skip_double-Fits : (s : Text) → Fits (length s) (skip_double s)
unfolding skip_double
skip_double-Fits s =
    iterate_inv length double_step none (λ t. length t ≤ length s) (Fits (length s))
      double_step-Shrinks (λ t t' e h. omega (arith, double_step-Shrinks t t' e))
      (λ t r e h. Fits-le h r (double_step-stop t r e)) s (omega arith)

-- Where a step goes on, less than n + 1 is left.
abbrev Leaves : ℕ → Next (Text × Text) Text → Type 0
Leaves n (go (out, s)) = length s ≤ n
Leaves n (stop r) = Unit

behind_part-Leaves :
    (n : ℕ) (out : Text) (o : Option Text) → Fits n o → Leaves n (behind_part out o)
behind_part-Leaves n out none h = tt
behind_part-Leaves n out (some r) h = h

Fits-step : (n : ℕ) (o : Option Text) → Fits n o → Fits (suc n) o
Fits-step n none h = tt
Fits-step n (some r) h = omega arith

heredoc-Leaves :
    (out : Text) (c b : ℕ) (s : Text) (o : Option Text) (h : Option (Text × Text))
    → Fits (length s) o
    → Leaves (suc (length s)) (elim o [
      | some r ↦ go (out, r)
      | none ↦ elim h [
        | some (delim, rest) ↦ stop (out ++ take (length (c ∷ b ∷ s) - length rest) (c ∷ (b ∷ s)))
        | none ↦ go (out ++ (c ∷ []), b ∷ s)
      ]
    ])
heredoc-Leaves out c b s (some r) h f = omega arith
heredoc-Leaves out c b s none (some (delim, rest)) f = tt
heredoc-Leaves out c b s none none f = omega arith

strip_step-Leaves :
    (out : Text) (c b : ℕ) (s : Text) → Leaves (suc (length s)) (strip_step (out, c ∷ (b ∷ s)))
unfolding strip_step
strip_step-Leaves out c b s =
    let L : Next (Text × Text) Text → Type 0 = Leaves (suc (length s)) in
    if_intro L (c == quote)
      (behind_part-Leaves (suc (length s)) out (after_quote (b ∷ s)) (after_quote-Fits (b ∷ s)))
      (if_intro L (c == dollar && b == quote)
        (behind_part-Leaves (suc (length s)) out (after_quote s)
          (Fits-step (length s) (after_quote s) (after_quote-Fits s)))
        (if_intro L (c == double_quote)
          (behind_part-Leaves (suc (length s)) out (skip_double (b ∷ s)) (skip_double-Fits (b ∷ s)))
          (if_intro L (c == dollar && b == open_paren) (omega (arith, length-skip_dollar_paren s)) (
            if_intro L (c == less && b == less)
              (heredoc-Leaves out c b s (skip_heredoc (c ∷ (b ∷ s))) (heredoc_header (c ∷ (b ∷ s)))
                (skip_heredoc-Fits (c ∷ (b ∷ s))))
              (omega arith)))))

go-Leaves :
    (n : ℕ) (x : Next (Text × Text) Text) (s : Text × Text) → Leaves n x → x ≡ go s → length s.1 ≤ n
go-Leaves n (go (out, s)) (out', s') h e = ground arith
go-Leaves n (stop r) s h e = cc

strip_end-Leaves : (out : Text) (c : ℕ) → Leaves 0 (strip_step (out, c ∷ []))
unfolding strip_step
strip_end-Leaves out c = ground (
  arith,
  behind_part-Leaves 0 out (after_quote []) (after_quote-Fits []),
  behind_part-Leaves 0 out (skip_double []) (skip_double-Fits []),
)

strip_nothing : (out : Text) (s : Text × Text) → strip_step (out, []) ≢ go s
unfolding strip_step
strip_nothing out s = λ e. cc e

pub strip_step-Shrinks : Shrinks rest_size strip_step []
strip_step-Shrinks (out, []) s' e = absurd (strip_nothing out s' e)
strip_step-Shrinks (out, c ∷ []) s' e =
    omega (arith, go-Leaves 0 (strip_step (out, c ∷ [])) s' (strip_end-Leaves out c) e)
strip_step-Shrinks (out, c ∷ (b ∷ s)) s' e = omega (
  arith,
  go-Leaves (suc (length s)) (strip_step (out, c ∷ (b ∷ s))) s' (strip_step-Leaves out c b s) e,
)
