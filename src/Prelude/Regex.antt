-- ===== src/Prelude/Regex.antt =====
-- The regular expressions of Go's package regexp that the program is written with: classes, runs of a
-- class, sequences, alternatives, options, and the anchors. A place in a text is the character
-- before it, if there is one, and the text from it on.
use browzer_cli.Prelude.Tests.{if◌then◌else◌, leb, ◌==◌}
use browzer_cli.Prelude.Text.{Text, to_lower}
use browzer_cli.Prelude.Lists.{take, length}
use Prim.Native.Nat.{ℕ, ◌-◌}
use mathlib.Core.Path.{◌≡◌, refl}
use mathlib.Core.Bool.{Bool, true, false, not, ◌&&◌, ◌||◌}
use mathlib.Core.Option.{Option, none, some}
use mathlib.Core.List.{List, [], ◌∷◌, ◌++◌}

pub data Regex : Type 0 where
  empty : Regex
  class : (ℕ → Bool) → Regex
  many : (ℕ → Bool) → Regex
  seq : Regex → Regex → Regex
  alt : Regex → Regex → Regex
  opt : Regex → Regex
  start stop bound : Regex

abbrev pub Place : Type 0
Place = Option ℕ × Text

-- \w
abbrev pub is_word_char : ℕ → Bool
is_word_char c =
    (leb b'a' c && leb c b'z')
    || (leb b'A' c && leb c b'Z')
    || (leb b'0' c && leb c b'9')
    || c == b'_'

abbrev word_before : Option ℕ → Bool
word_before none = false
word_before (some c) = is_word_char c

abbrev word_after : Text → Bool
word_after [] = false
word_after (c ∷ s) = is_word_char c

abbrev differ : Bool → Bool → Bool
differ true b = not b
differ false b = b

-- The places at which a run of a class may end, the longest run first.
unfoldable pub runs : (ℕ → Bool) → Option ℕ → Text → List Place
runs p b [] = (b, []) ∷ []
runs p b (c ∷ s) =
    let rest = runs p (some c) s in if p c then rest ++ ((b, c ∷ s) ∷ []) else (b, c ∷ s) ∷ []

abbrev first_char : (ℕ → Bool) → Place → List Place
first_char p (b, []) = []
first_char p (b, c ∷ s) = if p c then (some c, s) ∷ [] else []

abbrev at_start : Place → List Place
at_start (none, s) = (none, s) ∷ []
at_start (some c, s) = []

abbrev at_stop : Place → List Place
at_stop (b, []) = (b, []) ∷ []
at_stop (b, c ∷ s) = []

abbrev concat_map : (Place → List Place) → List Place → List Place
concat_map f [] = []
concat_map f (x ∷ xs) = f x ++ concat_map f xs

-- The places at which a match that begins at a place may end, in the order of preference.
unfoldable pub ends : Regex → Place → List Place
unfolding runs
ends empty x = x ∷ []
ends (class p) x = first_char p x
ends (many p) x = runs p x.0 x.1
ends (seq q r) x = concat_map (ends r) (ends q x)
ends (alt q r) x = ends q x ++ ends r x
ends (opt r) x = ends r x ++ (x ∷ [])
ends start x = at_start x
ends stop x = at_stop x
ends bound x = if differ (word_before x.0) (word_after x.1) then x ∷ [] else []

abbrev pub is_some_place : List Place → Bool
is_some_place [] = false
is_some_place (x ∷ xs) = true

-- A match that begins at this place or behind it.
unfoldable pub match_from : Regex → Option ℕ → Text → Bool
unfolding ends
match_from r b [] = is_some_place (ends r (b, []))
match_from r b (c ∷ s) = is_some_place (ends r (b, c ∷ s)) || match_from r (some c) s

-- MatchString
unfoldable pub match_string : Regex → Text → Bool
unfolding match_from
match_string r s = match_from r none s

-- A literal text, and the same in any case: of the letters that are not ASCII two fold to one that is.
unfoldable pub literal : Text → Regex
literal [] = empty
literal (c ∷ s) = seq (class (λ d. d == c)) (literal s)

abbrev pub fold_case : ℕ → ℕ
unfolding to_lower
fold_case c = if c == 0x17f then b's' else if c == 0x212a then b'k' else to_lower c

unfoldable pub literal_i : Text → Regex
unfolding to_lower
literal_i [] = empty
literal_i (c ∷ s) = seq (class (λ d. fold_case d == to_lower c)) (literal_i s)

-- \s
abbrev pub is_blank_char : ℕ → Bool
is_blank_char c = c == 9 || c == 10 || c == 12 || c == 13 || c == 32

abbrev pub blanks : Regex
blanks = many is_blank_char

-- \s+
abbrev pub some_blanks : Regex
some_blanks = seq (class is_blank_char) blanks

-- Alternatives of literal texts.
unfoldable pub any_of : (Text → Regex) → List Text → Regex
any_of f [] = class (λ c. false)
any_of f (s ∷ []) = f s
any_of f (s ∷ (t ∷ ss)) = alt (f s) (any_of f (t ∷ ss))

-- The part that a group captures between a pattern before it and one behind it: the first, in the
-- order of preference, behind which the rest matches.
abbrev captured : Regex → Place → List Place → Option Text
unfolding ends
captured after x [] = none
captured after x (y ∷ ys) =
    if is_some_place (ends after y)
    then some (take (length x.1 - length y.1) x.1)
    else captured after x ys

abbrev first_captured : Regex → Regex → List Place → Option Text
unfolding ends
first_captured group after [] = none
first_captured group after (x ∷ xs) = elim (captured after x (ends group x)) [
  | some t ↦ some t
  | none ↦ first_captured group after xs
]

-- FindStringSubmatch for an anchored pattern with one group.
unfoldable pub capture : Regex → Regex → Regex → Text → Option Text
unfolding ends
capture before group after s = first_captured group after (ends (seq start before) (none, s))

-- A pattern that is anchored at the beginning matches there or not at all.
match_from-start : (r : Regex) (c : ℕ) (s : Text) → match_from (seq start r) (some c) s ≡ false
unfolding match_from
match_from-start r c [] = refl
match_from-start r c (d ∷ s) = match_from-start r d s

or_false : (a b : Bool) → b ≡ false → (a || b) ≡ a
or_false true b e = refl
or_false false b e = e

pub match_string-start :
    (r : Regex) (s : Text)
    → match_string (seq start r) s ≡ is_some_place (ends (seq start r) (none, s))
unfolding match_string
match_string-start r [] = refl
match_string-start r (c ∷ s) = or_false _ _ (match_from-start r c s)
