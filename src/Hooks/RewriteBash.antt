-- ===== src/Hooks/RewriteBash.antt =====
-- rewriteBashDecide of internal/commands/hooks/rewrite_bash.go. Decoding and encoding JSON, the state of
-- the session and the files are arguments.
pub mod Contract
pub mod Once
mod Samples
use browzer_cli.Prelude.{
  ℕ, Bool, true, false, not, ◌&&◌, ◌||◌, Option, none, some, List, [], ◌∷◌, ◌++◌, if◌then◌else◌,
  ltb, ◌==◌, length,
}
use browzer_cli.Prelude.Text.{Text, codes, text_eq, trim_space}
use browzer_cli.Prelude.Assoc.{lookup, insert}
use browzer_cli.Prelude.Regex.{Regex, literal, any_of, match_string, capture}
use browzer_cli.Hooks.Gate.{gate_allowed}
use browzer_cli.Hooks.Paths.{PathClass, code, classify_path, never_rewrite_re}
use browzer_cli.Hooks.StripQuoted.{strip_quoted}
use browzer_cli.Hooks.BashPatterns.{
  browzer_command_re, has_env_re, has_flag_re, wrapped_subshell_re, run_prefix_re,
  compound_shell_re, chain_op_re, cat_head_tail, run_rewrite_patterns,
}

-- A value of the decoded input: a text, or another of the type J.
pub data Value (J : Type 0) : Type 0 where
  text_value : Text → Value J
  other_value : J → Value J

abbrev pub Input : Type 0 → Type 0
Input J = List (Text × Value J)

pub record HookInput (J : Type 0) : Type 0 where
  pub tool_name : Text
  pub tool_input : Input J

-- What is printed: an updated input with an additional context, or a hint alone.
pub data RewriteEnvelope (J : Type 0) : Type 0 where
  rewritten : Input J → Text → RewriteEnvelope J
  hint : Text → RewriteEnvelope J

-- (envelope, exitCode, handled)
pub data Decision (J : Type 0) : Type 0 where
  unhandled : Decision J
  handled : Option (RewriteEnvelope J) → ℕ → Decision J

abbrev pub exit_allow : ℕ
exit_allow = 0

abbrev pub exit_passthrough : ℕ
exit_passthrough = 1

-- `regular_size` is the size of a file that is there and regular.
pub record World (J : Type 0) : Type 0 where
  pub env : Text → Text
  pub in_workspace : Bool
  pub decode : Text → Option (HookInput J)
  pub json_quote : Text → Text
  pub first_emit : Text → Bool
  pub regular_size : Text → Option ℕ

abbrev pub command_key : Text
command_key = codes "command"

-- cloneInputWith
unfoldable pub clone_input_with : {J : Type 0} → Input J → Text → Input J
unfolding insert
clone_input_with input new_cmd = insert command_key (text_value new_cmd) input

-- strings.TrimLeft(cmd, " \t")
unfoldable pub trim_left_blank : Text → Text
trim_left_blank [] = []
trim_left_blank (c ∷ s) = if c == 32 || c == 9 then trim_left_blank s else c ∷ s

abbrev pub env_prefix : Text
env_prefix = codes "BROWZER_LLM=1 "

abbrev pub run_prefix : Text
run_prefix = codes "browzer run "

abbrev llm_banner_text : Text
llm_banner_text =
    codes
      "Browzer prefixed BROWZER_LLM=1 to suppress per-mutation audit telemetry and correlate workflow traces (override: BROWZER_LLM=0 or --llm=0)."

abbrev skip_hint : Text → Text
skip_hint trimmed =
    codes "[browzer] Skipped run-proxy rewrite for `"
    ++ (trimmed
        ++ (codes
              "` (compound command with pipe/redirect). To compress output manually: `browzer run "
            ++ (trimmed ++ codes "`.")))

abbrev proxy_context : Text → Text → Text
proxy_context trimmed new_cmd =
    codes "Browzer rewrote `"
    ++ (trimmed
        ++ (codes "` → `"
            ++ (new_cmd
                ++ codes
                    "` (run-proxy compression). Subsequent rewrites this session emit silently — the agent already learned the pattern.")))

abbrev pub is_code : PathClass → Bool
is_code code = true
is_code c = false

abbrev pub read_command : {J : Type 0} → World J → Text → Text
read_command w path = codes "browzer read " ++ (w.json_quote path ++ codes " --filter=auto")

abbrev read_context : Text → Text → Text
read_context trimmed new_cmd =
    codes "Browzer rewrote `"
    ++ (trimmed ++ (codes "` → `" ++ (new_cmd ++ codes "` (token-economy filter applied).")))

-- A file whose reading is worth the rewrite.
abbrev pub is_large : Option ℕ → Bool
is_large none = false
is_large (some n) = not (ltb n 40960)

-- The three deciders, in the order of their priority.
abbrev pub or_next :
    {J : Type 0} → Decision J → Option (RewriteEnvelope J) × ℕ → Option (RewriteEnvelope J) × ℕ
or_next unhandled next = next
or_next (handled envelope exit) next = (envelope, exit)

module _ {J : Type 0} (w : World J) (input : Input J) where
  -- BROWZER_LLM is set in the environment, and not to a false value.
  abbrev env_already_set : Bool
  unfolding text_eq
  env_already_set =
      let raw = w.env (codes "BROWZER_LLM") in
      ltb 0 (length raw) && not (text_eq raw (codes "0")) && not (text_eq raw (codes "false"))

  unfoldable pub decide_browzer_env_inject : Text → Decision J
  unfolding match_string literal trim_left_blank clone_input_with env_already_set text_eq
  decide_browzer_env_inject cmd =
      if not (match_string browzer_command_re cmd)
      then unhandled
      else if match_string has_env_re cmd
          || match_string has_flag_re cmd
          || match_string wrapped_subshell_re cmd
      then handled none exit_allow
      else handled
          (some (
            rewritten (clone_input_with input (env_prefix ++ trim_left_blank cmd)) (
              if env_already_set || not (w.first_emit (codes ".browzer-llm-banner"))
              then []
              else llm_banner_text)))
          exit_allow

  -- What the loop does once a pattern matches the skeleton.
  unfoldable pub on_pattern : Text → Text → Decision J
  unfolding match_string trim_space clone_input_with literal
  on_pattern cmd skeleton =
      let trimmed : Text = trim_space cmd in
      if match_string compound_shell_re skeleton
      then (if not (match_string chain_op_re skeleton)
          then handled (some (hint (skip_hint trimmed))) exit_allow
          else handled none exit_passthrough)
      else if match_string never_rewrite_re cmd
      then unhandled
      else handled
          (some (
            rewritten (clone_input_with input (run_prefix ++ trimmed)) (
              if w.first_emit (codes ".browzer-runproxy-banner")
              then proxy_context trimmed (run_prefix ++ trimmed)
              else [])))
          exit_allow

  unfoldable pub pattern_loop : Text → Text → List Regex → Decision J
  unfolding match_string on_pattern
  pattern_loop cmd skeleton [] = unhandled
  pattern_loop cmd skeleton (p ∷ ps) =
      let rest = pattern_loop cmd skeleton ps in
      if match_string p skeleton then on_pattern cmd skeleton else rest

  unfoldable pub decide_run_proxy : Text → Decision J
  unfolding match_string pattern_loop strip_quoted literal any_of
  decide_run_proxy cmd =
      if match_string run_prefix_re cmd
      then unhandled
      else pattern_loop cmd (strip_quoted cmd) run_rewrite_patterns

  unfoldable pub on_read : Text → Text → Decision J
  unfolding match_string classify_path trim_space clone_input_with
  on_read cmd path =
      if not (is_code (classify_path path))
      then handled none exit_passthrough
      else if match_string never_rewrite_re path
      then handled none exit_passthrough
      else if not (is_large (w.regular_size path))
      then handled none exit_passthrough
      else handled
          (some (
            rewritten (clone_input_with input (read_command w path))
              (read_context (trim_space cmd) (read_command w path))))
          exit_allow

  unfoldable pub decide_never_rewrite : Text → Decision J
  unfolding capture literal any_of on_read
  decide_never_rewrite cmd = elim (cat_head_tail cmd) [
    | none ↦ unhandled
    | some path ↦ on_read cmd path
  ]

  unfoldable pub decide_command : Text → Option (RewriteEnvelope J) × ℕ
  unfolding decide_browzer_env_inject decide_run_proxy decide_never_rewrite
  decide_command cmd =
      or_next (decide_browzer_env_inject cmd) (
        or_next (decide_run_proxy cmd)
          (or_next (decide_never_rewrite cmd) (none, exit_passthrough)))

abbrev command_of : {J : Type 0} → Option (Value J) → Option Text
command_of none = none
command_of (some (text_value cmd)) = some cmd
command_of (some (other_value j)) = none

-- The command of a call of Bash.
unfoldable pub bash_command : {J : Type 0} → HookInput J → Option Text
unfolding text_eq lookup
bash_command input =
    if text_eq input.tool_name (codes "Bash")
    then command_of (lookup command_key input.tool_input)
    else none

unfoldable pub rewrite_bash_decide : {J : Type 0} → World J → Text → Option (RewriteEnvelope J) × ℕ
unfolding gate_allowed bash_command decide_command
rewrite_bash_decide w raw =
    if not (gate_allowed w.env (codes "rewrite-bash")) || not w.in_workspace
    then (none, exit_passthrough)
    else elim (w.decode raw) [
      | none ↦ (none, exit_passthrough)
      | some input ↦ elim (bash_command input) [
        | none ↦ (none, exit_passthrough)
        | some cmd ↦ decide_command w input.tool_input cmd
      ]
    ]
