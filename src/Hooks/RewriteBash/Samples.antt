-- ===== src/Hooks/RewriteBash/Samples.antt =====
-- A session of the hook that is let through, and calls of Bash.
use browzer_cli.Prelude.{ℕ, true, false, Option, none, some, [], ◌∷◌, ◌++◌, ◌≡◌, refl}
use browzer_cli.Prelude.Text.{Text, codes}
use browzer_cli.Prelude.Regex.{match_string, literal}
use browzer_cli.Hooks.BashPatterns.{browzer_command_re}
use browzer_cli.Hooks.RewriteBash.{
  text_value, other_value, HookInput, RewriteEnvelope, rewritten, exit_allow, exit_passthrough,
  World, command_key, env_prefix, decide_command, rewrite_bash_decide,
}
use browzer_cli.Hooks.RewriteBash.Contract.{IsAnswer, rewrite_bash_decide-IsAnswer}
use browzer_cli.Hooks.RewriteBash.Once.{decide_command-assignment}

abbrev call : Text → HookInput ℕ
call cmd = record {
  tool_name = codes "Bash";
  tool_input = (codes "timeout", other_value 5) ∷ ((command_key, text_value cmd) ∷ []);
}

-- What is read on standard input is the command.
abbrev world : World ℕ
world = record {
  env = λ name. [];
  in_workspace = true;
  decode = λ raw. some (call raw);
  json_quote = λ path. 34 ∷ (path ++ (34 ∷ []));
  first_emit = λ name. false;
  regular_size = λ path. some 50000;
}

abbrev answer : Text → Option (RewriteEnvelope ℕ) × ℕ
answer cmd = (
  some (rewritten ((codes "timeout", other_value 5) ∷ ((command_key, text_value cmd) ∷ [])) []),
  0,
)

env_injected :
    rewrite_bash_decide world (codes "browzer ls") ≡ answer (codes "BROWZER_LLM=1 browzer ls")
unfolding rewrite_bash_decide
env_injected = refl

run_proxied :
    rewrite_bash_decide world (codes " git diff 'a|b'")
    ≡ answer (codes "browzer run git diff 'a|b'")
unfolding rewrite_bash_decide
run_proxied = refl

chain_is_passed : rewrite_bash_decide world (codes "go test & ls") ≡ (none, exit_passthrough)
unfolding rewrite_bash_decide
chain_is_passed = refl

cat_is_read : decide_command world [] (codes "cat a/b.go") ≡ (
  some (
      rewritten ((command_key, text_value (codes "browzer read \"a/b.go\" --filter=auto")) ∷ []) (
        codes
          "Browzer rewrote `cat a/b.go` → `browzer read \"a/b.go\" --filter=auto` (token-economy filter applied).")),
  0,
)
unfolding decide_command
cat_is_read = refl

rewrite_bash_decide-IsAnswer_example :
    IsAnswer world (codes "browzer ls") (rewrite_bash_decide world (codes "browzer ls"))
rewrite_bash_decide-IsAnswer_example = rewrite_bash_decide-IsAnswer world (codes "browzer ls")

browzer_is_called :
    match_string browzer_command_re (codes "browzer" ++ 32 ∷ (codes "BROWZER_LLM=" ++ codes "1"))
    ≡ true
unfolding match_string literal
browzer_is_called = refl

decide_command-assignment_example :
    (decide_command world [] (codes "browzer BROWZER_LLM=1") ≡ (none, exit_allow))
    × (decide_command world [] (env_prefix ++ codes "browzer run git diff")
        ≡ (none, exit_passthrough))
decide_command-assignment_example =
    decide_command-assignment world [] (codes "browzer") (codes "1") (codes "browzer run git diff")
      32 refl browzer_is_called
