-- ===== src/Hooks/BashPatterns.antt =====
-- The regular expressions of internal/commands/hooks/rewrite_bash.go.
use browzer_cli.Prelude.{ℕ, Bool, not, ◌||◌, Option, List, [], ◌∷◌, ◌==◌}
use browzer_cli.Prelude.Text.{Text, codes}
use browzer_cli.Prelude.Regex.{
  Regex, class, many, seq, alt, opt, start, stop, bound, literal, any_of, capture, blanks,
  some_blanks, is_blank_char,
}

abbrev blank_or : Regex → Regex
blank_or r = alt (class is_blank_char) r

abbrev start_or_blank : Regex
start_or_blank = alt start (class is_blank_char)

-- browzerCommandRE
abbrev pub browzer_command_re : Regex
unfolding literal
browzer_command_re = seq start (seq blanks (seq (literal (codes "browzer")) (blank_or stop)))

-- browzerAlreadyHasEnvRE
abbrev pub has_env_re : Regex
unfolding literal
has_env_re = seq start_or_blank (literal (codes "BROWZER_LLM="))

-- browzerAlreadyHasFlagRE
abbrev pub has_flag_re : Regex
unfolding literal
has_flag_re =
    seq start_or_blank
      (seq (literal (codes "--llm")) (blank_or (alt (class (λ c. c == b'=')) stop)))

-- browzerWrappedSubshellRE
abbrev pub wrapped_subshell_re : Regex
wrapped_subshell_re = seq start (seq blanks (class (λ c. c == 40 || c == b'{')))

-- browzerRunPrefixRE
abbrev pub run_prefix_re : Regex
unfolding literal
run_prefix_re = seq start (
    seq blanks
      (seq (literal (codes "browzer")) (seq some_blanks (seq (literal (codes "run")) bound))))

-- compoundShellRE
abbrev pub compound_shell_re : Regex
compound_shell_re = class (λ c. c == b'|' || c == b';' || c == b'&' || c == b'<' || c == b'>')

-- chainOpRE
abbrev pub chain_op_re : Regex
chain_op_re = class (λ c. c == b';' || c == b'&')

-- catHeadTailRE with its second group
abbrev is_path_char : ℕ → Bool
is_path_char c =
    not (is_blank_char c || c == b'|' || c == b';' || c == b'&' || c == b'<' || c == b'>')

abbrev pub cat_verb_re : Regex
unfolding literal any_of
cat_verb_re = seq blanks (
    seq
      (any_of literal
        (codes "cat" ∷ (codes "head" ∷ (codes "tail" ∷ (codes "less" ∷ (codes "more" ∷ []))))))
      some_blanks)

abbrev pub cat_head_tail : Text → Option Text
unfolding capture literal any_of
cat_head_tail s =
    capture cat_verb_re (seq (class is_path_char) (many is_path_char)) (seq blanks stop) s

abbrev word : Text → Regex
unfolding literal
word w = seq (literal w) some_blanks

-- npx or pnpm exec, in front of a command
abbrev npx_or_exec : Regex
unfolding literal
npx_or_exec = opt (alt (word (codes "npx")) (seq (word (codes "pnpm")) (word (codes "exec"))))

-- runRewritePatterns
abbrev pub run_rewrite_patterns : List Regex
unfolding literal any_of
run_rewrite_patterns =
    seq start (
      seq blanks (
        seq (word (codes "git")) (
          seq
            (any_of literal (
              codes "status"
              ∷ (codes "log"
                  ∷ (codes "diff"
                      ∷ (codes "push" ∷ (codes "pull" ∷ (codes "add" ∷ (codes "commit" ∷ []))))))))
            bound)))
    ∷ (seq start
          (seq blanks (seq (opt (word (codes "npx"))) (seq (literal (codes "vitest")) bound)))
        ∷ (seq start (seq blanks (seq (word (codes "pnpm")) (seq (literal (codes "turbo")) bound)))
            ∷ (seq start (seq blanks (seq (word (codes "go")) (seq (literal (codes "test")) bound)))
                ∷ (seq start
                      (seq blanks (seq (word (codes "cargo")) (seq (literal (codes "test")) bound)))
                    ∷ (seq start (
                          seq blanks (
                            seq npx_or_exec (
                              seq (word (codes "biome")) (
                                seq
                                  (any_of literal
                                    (codes "check" ∷ (codes "lint" ∷ (codes "format" ∷ []))))
                                  bound))))
                        ∷ (seq start
                              (seq blanks (seq npx_or_exec (seq (literal (codes "tsc")) bound)))
                            ∷ (seq start (
                                  seq blanks (
                                    seq (word (codes "pnpm")) (
                                      seq
                                        (opt (
                                          alt (word (codes "run")) (
                                            alt (word (codes "exec")) (
                                              seq (word (codes "--filter")) (
                                                seq
                                                  (seq (class (λ c. not (is_blank_char c)))
                                                    (many (λ c. not (is_blank_char c))))
                                                  some_blanks)))))
                                        (seq (literal (codes "vitest")) bound))))
                                ∷ [])))))))
