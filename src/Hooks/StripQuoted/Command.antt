-- ===== src/Hooks/StripQuoted/Command.antt =====
-- Commands that are written by the rules of the shell, how they are printed, and the characters that
-- stand outside of their quotes and substitutions.
use browzer_cli.Prelude.{ℕ, false, [], ◌∷◌, ◌++◌, ◌≡◌, ◌==◌}
use browzer_cli.Prelude.Text.{Text}
use browzer_cli.Prelude.Text.Laws.{Lacks}
use browzer_cli.Hooks.StripQuoted.{
  quote, double_quote, dollar, backslash, open_paren, close_paren, less,
}

-- The text between balanced parentheses: characters, ( ... ) and $( ... ).
pub data Body : Type 0 where
  end : Body
  chr : ℕ → Body → Body
  group : Body → Body → Body
  subst : Body → Body → Body

abbrev pub print_body : Body → Text
print_body end = []
print_body (chr c b) = c ∷ print_body b
print_body (group a b) = open_paren ∷ (print_body a ++ (close_paren ∷ print_body b))
print_body (subst a b) = dollar ∷ (open_paren ∷ (print_body a ++ (close_paren ∷ print_body b)))

-- A character is none of ( ) $ <.
abbrev pub IsInner : ℕ → Type 0
IsInner c =
    ((c == open_paren) ≡ false)
    × ((c == close_paren) ≡ false)
    × ((c == dollar) ≡ false)
    × ((c == less) ≡ false)

abbrev pub IsBody : Body → Type 0
IsBody end = Unit
IsBody (chr c b) = IsInner c × IsBody b
IsBody (group a b) = IsBody a × IsBody b
IsBody (subst a b) = IsBody a × IsBody b

-- The text between double quotes: characters, escaped characters and $( ... ).
pub data Quoted : Type 0 where
  close : Quoted
  letter : ℕ → Quoted → Quoted
  escape : ℕ → Quoted → Quoted
  inserted : Body → Quoted → Quoted

abbrev pub print_quoted : Quoted → Text
print_quoted close = []
print_quoted (letter c q) = c ∷ print_quoted q
print_quoted (escape c q) = backslash ∷ (c ∷ print_quoted q)
print_quoted (inserted b q) =
    dollar ∷ (open_paren ∷ (print_body b ++ (close_paren ∷ print_quoted q)))

abbrev pub IsQuoted : Quoted → Type 0
IsQuoted close = Unit
IsQuoted (letter c q) =
    ((c == backslash) ≡ false)
    × ((c == double_quote) ≡ false)
    × ((c == dollar) ≡ false)
    × IsQuoted q
IsQuoted (escape c q) = IsQuoted q
IsQuoted (inserted b q) = IsBody b × IsQuoted q

-- A command without heredocs: characters, '...', $'...', "..." and $( ... ).
pub data Command : Type 0 where
  nothing : Command
  plain : ℕ → Command → Command
  single : Text → Command → Command
  ansi : Text → Command → Command
  double : Quoted → Command → Command
  replaced : Body → Command → Command

abbrev pub print : Command → Text
print nothing = []
print (plain c k) = c ∷ print k
print (single t k) = quote ∷ (t ++ (quote ∷ print k))
print (ansi t k) = dollar ∷ (quote ∷ (t ++ (quote ∷ print k)))
print (double q k) = double_quote ∷ (print_quoted q ++ (double_quote ∷ print k))
print (replaced b k) = dollar ∷ (open_paren ∷ (print_body b ++ (close_paren ∷ print k)))

abbrev pub IsCommand : Command → Type 0
IsCommand nothing = Unit
IsCommand (plain c k) =
    ((c == quote) ≡ false)
    × ((c == dollar) ≡ false)
    × ((c == double_quote) ≡ false)
    × ((c == less) ≡ false)
    × IsCommand k
IsCommand (single t k) = Lacks quote t × IsCommand k
IsCommand (ansi t k) = Lacks quote t × IsCommand k
IsCommand (double q k) = IsQuoted q × IsCommand k
IsCommand (replaced b k) = IsBody b × IsCommand k

-- The characters outside of all quotes and substitutions.
abbrev pub skeleton : Command → Text
skeleton nothing = []
skeleton (plain c k) = c ∷ skeleton k
skeleton (single t k) = skeleton k
skeleton (ansi t k) = skeleton k
skeleton (double q k) = skeleton k
skeleton (replaced b k) = skeleton k
