-- ===== src/Walker/Sensitive.antt =====
-- IsSensitive and IsDefaultIgnoredPath of internal/walker/sensitive.go.
use browzer_cli.Prelude.{
  ℕ, Bool, true, false, not, ◌&&◌, ◌||◌, Option, none, some, List, [], ◌∷◌, map, if◌then◌else◌, any,
  ◌==◌, leb, length, drop,
}
use mathlib.Core.List.{reverse}
use browzer_cli.Prelude.Text.{Text, codes, text_eq, lower, has_prefix, has_suffix}
use browzer_cli.Prelude.Regex.{
  Regex, class, many, seq, alt, opt, start, stop, literal, any_of, match_string,
}

-- filepath.ToSlash and the replacement of the backslashes.
abbrev pub normalized : Text → Text
normalized = map (λ c. if c == 92 then b'/' else c)

abbrev slash_or_start : Regex
slash_or_start = alt start (class (λ c. c == b'/'))

abbrev not_newline : ℕ → Bool
not_newline c = not (c == 10)

-- sensitivePathPatterns
abbrev pub sensitive_path_patterns : List Regex
unfolding literal any_of
sensitive_path_patterns =
    seq slash_or_start (
      seq (literal (codes ".env"))
        (seq (opt (seq (literal (codes ".")) (seq (class not_newline) (many not_newline)))) stop))
    ∷ (seq (literal (codes ".")) (
          seq
            (any_of literal (
              codes "pem"
              ∷ (codes "key"
                  ∷ (codes "cert"
                      ∷ (codes "p12" ∷ (codes "pfx" ∷ (codes "jks" ∷ (codes "keystore" ∷ []))))))))
            stop)
        ∷ (seq slash_or_start (
              seq (literal (codes ".")) (
                seq (any_of literal (codes "ssh" ∷ (codes "gnupg" ∷ (codes "gcloud" ∷ []))))
                  (literal (codes "/"))))
            ∷ (seq slash_or_start (seq (literal (codes ".aws/credentials")) stop)
                ∷ (seq slash_or_start (
                      seq (literal (codes "id_")) (
                        seq (any_of literal (codes "rsa" ∷ (codes "ed25519" ∷ (codes "dsa" ∷ []))))
                          (seq (opt (literal (codes ".pub"))) stop)))
                    ∷ (seq slash_or_start (seq (literal (codes ".npmrc")) stop)
                        ∷ (seq slash_or_start (seq (literal (codes ".pypirc")) stop)
                            ∷ (seq (literal (codes "."))
                                  (seq (any_of literal (codes "sqlite" ∷ (codes "db" ∷ []))) stop)
                                ∷ [])))))))

abbrev pub is_letter : ℕ → Bool
is_letter b = (leb b'a' b && leb b b'z') || (leb b'A' b && leb b b'Z')

-- The byte before a place, or 0 at the beginning, is a letter; and the one behind it.
abbrev pub letter_before : Option ℕ → Bool
letter_before none = false
letter_before (some c) = is_letter c

abbrev pub letter_after : Text → Bool
letter_after [] = false
letter_after (c ∷ s) = is_letter c

-- The loop over the places at which a needle stands.
unfoldable pub has_delimited : Text → Option ℕ → Text → Bool
unfolding has_prefix
has_delimited needle before [] = false
has_delimited needle before (c ∷ s) =
    let rest = has_delimited needle (some c) s in
    if has_prefix (c ∷ s) needle
      && not (letter_before before)
      && not (letter_after (drop (length needle) (c ∷ s)))
    then true
    else rest

-- sensitiveKeywords, each in the singular and in the plural.
abbrev pub needles : List Text
needles =
    codes "credential"
    ∷ (codes "credentials"
        ∷ (codes "secret" ∷ (codes "secrets" ∷ (codes "token" ∷ (codes "tokens" ∷ [])))))

unfoldable pub match_sensitive_name : Text → Bool
unfolding lower has_delimited
match_sensitive_name name = any (λ needle. has_delimited needle none (lower name)) needles

-- filepath.Base of a path with slashes, read from its end.
abbrev skip_slashes : Text → Text
skip_slashes [] = []
skip_slashes (c ∷ s) = let rest = skip_slashes s in if c == b'/' then rest else c ∷ s

abbrev until_slash : Text → Text
until_slash [] = []
until_slash (c ∷ s) = let rest = until_slash s in if c == b'/' then [] else c ∷ rest

abbrev or_dot : Text → Text → Text
or_dot path [] = if text_eq path [] then codes "." else codes "/"
or_dot path (c ∷ s) = c ∷ s

unfoldable pub base : Text → Text
unfolding text_eq
base path = or_dot path (reverse (until_slash (skip_slashes (reverse path))))

unfoldable pub is_sensitive : Text → Bool
unfolding match_string match_sensitive_name base literal any_of
is_sensitive file_path =
    if any (λ p. match_string p (normalized file_path)) sensitive_path_patterns
    then true
    else match_sensitive_name (base (normalized file_path))

abbrev default_ignore_path_suffixes : List Text
default_ignore_path_suffixes =
    codes "test/fixtures" ∷ (codes "CLAUDE.md" ∷ (codes "AGENTS.md" ∷ []))

unfoldable pub is_default_ignored_path : Text → Bool
unfolding text_eq has_suffix
is_default_ignored_path rel_path =
    any
      (λ suffix.
        text_eq (normalized rel_path) suffix || has_suffix (normalized rel_path) (b'/' ∷ suffix))
      default_ignore_path_suffixes
