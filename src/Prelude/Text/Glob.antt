-- ===== src/Prelude/Text/Glob.antt =====
-- Match of Go's package path: a pattern is read into chunks of tokens, each with or without a star in
-- front, and a chunk is matched where it first can be.
use Prim.Native.Nat.{ℕ}
use mathlib.Core.Bool.{Bool, true, false, not, ◌&&◌, ◌||◌}
use mathlib.Core.Path.{◌≡◌, refl}
use mathlib.Core.Option.{Option, none, some}
use mathlib.Core.List.{List, [], ◌∷◌, ◌++◌}
use browzer_cli.Prelude.Tests.{leb, ◌==◌, if◌then◌else◌}
use browzer_cli.Prelude.Lists.{any}
use browzer_cli.Prelude.Text.{Text, codes}

pub data Token : Type 0 where
  literal : ℕ → Token
  any_char : Token
  class : Bool → List (ℕ × ℕ) → Token

-- Whether a star stands in front, and the tokens.
pub data Chunk : Type 0 where
  chunk : Bool → List Token → Chunk

-- Where the reader stands: `in_class` has the ranges so far, after `[` or `[^`.
pub data Mode : Type 0 where
  plain : Mode
  escaped : Mode
  class_start : Mode
  in_class : Bool → List (ℕ × ℕ) → Mode
  low_escaped : Bool → List (ℕ × ℕ) → Mode
  after_low : Bool → List (ℕ × ℕ) → ℕ → Mode
  high : Bool → List (ℕ × ℕ) → ℕ → Mode
  high_escaped : Bool → List (ℕ × ℕ) → ℕ → Mode

pub record Reader : Type 0 where
  pub chunks : List Chunk
  pub mode : Mode

abbrev add_token : Token → List Chunk → List Chunk
add_token t [] = chunk false (t ∷ []) ∷ []
add_token t (chunk star ts ∷ []) = chunk star (ts ++ t ∷ []) ∷ []
add_token t (c ∷ d ∷ cs) = c ∷ add_token t (d ∷ cs)

abbrev add_star : List Chunk → List Chunk
add_star [] = chunk true [] ∷ []
add_star (chunk true [] ∷ []) = chunk true [] ∷ []
add_star (c ∷ []) = c ∷ chunk true [] ∷ []
add_star (c ∷ d ∷ cs) = c ∷ add_star (d ∷ cs)

abbrev push : Token → Reader → Reader
push t r = record { chunks = add_token t r.chunks; mode = plain }

abbrev class_char : Bool → List (ℕ × ℕ) → ℕ → Reader → Option Reader
class_char negated ranges c r =
    if c == b']'
    then elim ranges [ [] ↦ none | x ∷ xs ↦ some (push (class negated (x ∷ xs)) r) ]
    else if c == b'-'
    then none
    else if c == 92
    then some (record r { mode = low_escaped negated ranges })
    else some (record r { mode = after_low negated ranges c })

step : Mode → Reader → ℕ → Option Reader
step plain r c =
    if c == b'*'
    then some (record r { chunks = add_star r.chunks })
    else if c == b'?'
    then some (push any_char r)
    else if c == b'['
    then some (record r { mode = class_start })
    else if c == 92
    then some (record r { mode = escaped })
    else some (push (literal c) r)
step escaped r c = some (push (literal c) r)
step class_start r c =
    if c == b'^' then some (record r { mode = in_class true [] }) else class_char false [] c r
step (in_class negated ranges) r c = class_char negated ranges c r
step (low_escaped negated ranges) r c = some (record r { mode = after_low negated ranges c })
step (after_low negated ranges low) r c =
    if c == b'-'
    then some (record r { mode = high negated ranges low })
    else class_char negated (ranges ++ (low, low) ∷ []) c r
step (high negated ranges low) r c =
    if c == b'-' || c == b']'
    then none
    else if c == 92
    then some (record r { mode = high_escaped negated ranges low })
    else some (record r { mode = in_class negated (ranges ++ (low, c) ∷ []) })
step (high_escaped negated ranges low) r c =
    some (record r { mode = in_class negated (ranges ++ (low, c) ∷ []) })

finish : Mode → Reader → Option (List Chunk)
finish plain r = some r.chunks
finish _ r = none

run : Reader → Text → Option (List Chunk)
unfolding step finish
run r [] = finish r.mode r
run r (c ∷ s) = elim (step r.mode r c) [ some q ↦ run q s | none ↦ none ]

-- The chunks of a pattern, or none where Match reports ErrBadPattern.
unfoldable pub chunks : Text → Option (List Chunk)
unfolding run
chunks pattern = run (record { chunks = []; mode = plain }) pattern

-- A star and `?` do not match a slash; a class may.
match_token : Token → ℕ → Bool
match_token (literal d) c = c == d
match_token any_char c = not (c == b'/')
match_token (class negated ranges) c =
    let inside = any (λ (r : ℕ × ℕ). leb r.0 c && leb c r.1) ranges in
    if negated then not inside else inside

match_tokens : List Token → Text → Option Text
unfolding match_token
match_tokens [] s = some s
match_tokens (t ∷ ts) [] = none
match_tokens (t ∷ ts) (c ∷ s) =
    let rest = match_tokens ts s in if match_token t c then rest else none

-- The last chunk has to take the whole name.
abbrev attempt : List Token → Bool → (Text → Bool) → Text → Option Bool
attempt ts last rest s = elim (match_tokens ts s) [
  | none ↦ none
  | some [] ↦ some (rest [])
  | some (c ∷ t) ↦ if last then none else some (rest (c ∷ t))
]

skip : List Token → Bool → (Text → Bool) → Text → Bool
unfolding match_tokens
skip ts last rest [] = false
skip ts last rest (c ∷ s) =
    let further = skip ts last rest s in
    if c == b'/' then false else elim (attempt ts last rest s) [ some b ↦ b | none ↦ further ]

abbrev is_nil : List Chunk → Bool
is_nil [] = true
is_nil (c ∷ cs) = false

abbrev lacks_slash : Text → Bool
lacks_slash s = not (any (λ c. c == b'/') s)

unfoldable pub match_chunks : List Chunk → Text → Bool
unfolding match_tokens skip
match_chunks [] [] = true
match_chunks [] (c ∷ s) = false
match_chunks (chunk true [] ∷ cs) s = lacks_slash s
match_chunks (chunk star ts ∷ cs) s = elim (attempt ts (is_nil cs) (match_chunks cs) s) [
  | some b ↦ b
  | none ↦ if star then skip ts (is_nil cs) (match_chunks cs) s else false
]

-- path.Match(pattern, name)
unfoldable pub path_match : Text → Text → Option Bool
unfolding chunks match_chunks
path_match pattern name = elim (chunks pattern) [
  | some cs ↦ some (match_chunks cs name)
  | none ↦ none
]

glob_runs :
    (path_match (codes "docs/*.md") (codes "docs/a.md") ≡ some true)
    × (path_match (codes "docs/*.md") (codes "docs/a/b.md") ≡ some false)
    × (path_match (codes "*[^a-c]?*b") (codes "zadxb") ≡ some true)
    × (path_match (codes "[a-") (codes "probe") ≡ none)
unfolding path_match
glob_runs = (refl, refl, refl, refl)
