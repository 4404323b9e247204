-- ===== src/Hooks/StripQuoted.antt =====
-- StripQuoted of internal/hooks/strip_quoted.go. An offset into the input is the text from it on. The
-- regular expressions are written out: a heredoc's header, and the line that closes its body.
pub mod Skips
pub mod Command
pub mod Balanced
pub mod Skeleton
pub mod Grows
mod Samples
use browzer_cli.Prelude.{
  ℕ, zero, suc, ◌+◌, ◌-◌, Bool, true, false, not, ◌&&◌, ◌||◌, Option, none, some, List, [], ◌∷◌,
  ◌++◌, if◌then◌else◌, leb, ◌==◌, length, take, drop,
}
use browzer_cli.Prelude.Text.{Text, newline, has_prefix}
use browzer_cli.Prelude.Loop.{Next, go, stop, iterate}

abbrev pub quote : ℕ
quote = 39

abbrev pub double_quote : ℕ
double_quote = 34

abbrev pub dollar : ℕ
dollar = 36

abbrev pub backslash : ℕ
backslash = 92

abbrev pub open_paren : ℕ
open_paren = 40

abbrev pub close_paren : ℕ
close_paren = 41

abbrev pub less : ℕ
less = 60

-- i+1 < n && input[i+1] == c
abbrev pub starts : ℕ → Text → Bool
starts c [] = false
starts c (d ∷ s) = d == c

abbrev pub tail : Text → Text
tail [] = []
tail (c ∷ s) = s

-- The longest run of characters that pass a test, and what follows it.
unfoldable pub span : (ℕ → Bool) → Text → Text × Text
span p [] = ([], [])
span p (c ∷ s) = let (run, rest) = span p s in if p c then (c ∷ run, rest) else ([], c ∷ s)

-- \s of the regular expressions
abbrev pub is_blank : ℕ → Bool
is_blank c = c == 9 || c == 10 || c == 12 || c == 13 || c == 32

-- [A-Za-z_] and \w
abbrev pub is_word_start : ℕ → Bool
is_word_start c = (leb b'A' c && leb c b'Z') || (leb b'a' c && leb c b'z') || c == b'_'

abbrev pub is_word : ℕ → Bool
is_word c = is_word_start c || (leb b'0' c && leb c b'9')

-- '([^'\n]+)' behind its first quote: what is quoted, and what follows.
unfoldable pub quoted_delim : ℕ → Text → Option (Text × Text)
unfolding span
quoted_delim q s =
    let (delim, rest) = span (λ c. not (c == q) && not (c == newline)) s in
    if starts q rest && leb 1 (length delim) then some (delim, tail rest) else none

-- The delimiter of a heredoc, at the place where it is to begin.
unfoldable pub delimiter : Text → Option (Text × Text)
unfolding quoted_delim span
delimiter [] = none
delimiter (c ∷ s) =
    if c == quote
    then quoted_delim quote s
    else if c == double_quote
    then quoted_delim double_quote s
    else if is_word_start c
    then some (c ∷ (span is_word s).0, (span is_word s).1)
    else none

abbrev pub skip_dash : Text → Text
skip_dash [] = []
skip_dash (c ∷ s) = if c == b'-' then s else c ∷ s

-- heredocHeaderRE on a text that starts with <<: the delimiter and what follows the header.
unfoldable pub heredoc_header : Text → Option (Text × Text)
unfolding delimiter span
heredoc_header s = delimiter (span is_blank (skip_dash (drop 2 s))).1

-- (?:\n|$) at a place
abbrev pub line_end : Text → Option Text
line_end [] = some []
line_end (c ∷ s) = if c == newline then some s else none

abbrev pub closed_here : Text → Text → Option Text
unfolding has_prefix
closed_here delim s = if has_prefix s delim then line_end (drop (length delim) s) else none

-- [\t ]*DELIM(?:\n|$) at a place
unfoldable pub closes : Text → Text → Option Text
unfolding closed_here
closes delim [] = closed_here delim []
closes delim (c ∷ s) =
    let rest = closes delim s in
    elim (closed_here delim (c ∷ s)) [
      | some r ↦ some r
      | none ↦ if c == 9 || c == 32 then rest else none
    ]

-- What follows the first line that closes the heredoc.
unfoldable pub find_close : Text → Text → Option Text
unfolding closes
find_close delim [] = none
find_close delim (c ∷ s) =
    let rest = find_close delim s in
    if c == newline then elim (closes delim s) [ some r ↦ some r | none ↦ rest ] else rest

-- skipHeredoc: what follows the heredoc, nothing if it is not closed; none if there is no header.
unfoldable pub skip_heredoc : Text → Option Text
unfolding heredoc_header find_close
skip_heredoc s = elim (heredoc_header s) [
  | none ↦ none
  | some (delim, rest) ↦ elim (find_close delim rest) [ some r ↦ some r | none ↦ some [] ]
]

-- The loop of skipDollarParen. An inner substitution, which the code skips by a call of its own,
-- ends when its own parentheses are balanced, so that one depth counts for all of them.
unfoldable pub paren_step : ℕ × Text → Next (ℕ × Text) Text
unfolding skip_heredoc
paren_step (zero, s) = stop s
paren_step (suc d, []) = stop []
paren_step (suc d, c ∷ s) =
    if c == less && starts less s
    then elim (skip_heredoc (c ∷ s)) [ some r ↦ go (suc d, r) | none ↦ stop [] ]
    else if c == dollar && starts open_paren s
    then go (suc (suc d), tail s)
    else if c == open_paren
    then go (suc (suc d), s)
    else if c == close_paren
    then go (d, s)
    else go (suc d, s)

abbrev pub depth_size : ℕ × Text → ℕ
depth_size (d, s) = length s

-- skipDollarParen from behind the opening $(: what follows the matching parenthesis.
unfoldable pub skip_dollar_paren : Text → Text
unfolding iterate paren_step
skip_dollar_paren s = iterate depth_size paren_step [] (1, s)

-- The loop over a double-quoted text: what follows its end.
unfoldable pub double_step : Text → Next Text (Option Text)
unfolding skip_dollar_paren
double_step [] = stop none
double_step (c ∷ s) =
    if c == backslash && leb 1 (length s)
    then go (tail s)
    else if c == double_quote
    then stop (some s)
    else if c == dollar && starts open_paren s
    then go (skip_dollar_paren (tail s))
    else go s

unfoldable pub skip_double : Text → Option Text
unfolding iterate double_step
skip_double = iterate length double_step none

-- What follows the next single quote.
unfoldable pub after_quote : Text → Option Text
after_quote [] = none
after_quote (c ∷ s) = if c == quote then some s else after_quote s

-- The loop goes on behind a skipped part, or it ends where the part is not closed.
abbrev pub behind_part : Text → Option Text → Next (Text × Text) Text
behind_part out none = stop out
behind_part out (some r) = go (out, r)

-- The loop of StripQuoted over what is written and what is to be read.
unfoldable pub strip_step : Text × Text → Next (Text × Text) Text
unfolding after_quote skip_double skip_dollar_paren skip_heredoc heredoc_header
strip_step (out, []) = stop out
strip_step (out, c ∷ s) =
    if c == quote
    then behind_part out (after_quote s)
    else if c == dollar && starts quote s
    then behind_part out (after_quote (tail s))
    else if c == double_quote
    then behind_part out (skip_double s)
    else if c == dollar && starts open_paren s
    then go (out, skip_dollar_paren (tail s))
    else if c == less && starts less s
    then elim (skip_heredoc (c ∷ s)) [
      | some r ↦ go (out, r)
      | none ↦ elim (heredoc_header (c ∷ s)) [
        | some (delim, rest) ↦ stop (out ++ take (length (c ∷ s) - length rest) (c ∷ s))
        | none ↦ go (out ++ (c ∷ []), s)
      ]
    ]
    else go (out ++ (c ∷ []), s)

abbrev pub rest_size : Text × Text → ℕ
rest_size (out, s) = length s

unfoldable pub strip_quoted : Text → Text
unfolding iterate strip_step
strip_quoted input = iterate rest_size strip_step [] ([], input)
