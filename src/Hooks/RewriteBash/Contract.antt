-- ===== src/Hooks/RewriteBash/Contract.antt =====
-- What rewrite-bash may answer: never a refusal, and a rewrite of nothing but the command.
use browzer_cli.Prelude.{
  ℕ, inl, inr, true, false, Bool, not, ◌||◌, Option, none, some, List, [], ◌∷◌, ◌++◌, ◌≡◌, ◌⊎◌,
  refl, if◌then◌else◌, ltb, if_split, if_intro, Option-cases, arith,
}
use browzer_cli.Prelude.Text.{Text, codes, text_eq, trim_space}
use browzer_cli.Prelude.Assoc.{lookup, lookup-insert}
use browzer_cli.Prelude.Regex.{Regex, match_string, literal, any_of, capture}
use browzer_cli.Hooks.Gate.{gate_allowed}
use browzer_cli.Hooks.Paths.{PathClass, code, classify_path, never_rewrite_re}
use browzer_cli.Hooks.StripQuoted.{strip_quoted}
use browzer_cli.Hooks.BashPatterns.{
  browzer_command_re, has_env_re, has_flag_re, wrapped_subshell_re, run_prefix_re,
  compound_shell_re, chain_op_re, cat_head_tail, run_rewrite_patterns,
}
use browzer_cli.Hooks.RewriteBash.{
  text_value, Input, HookInput, RewriteEnvelope, rewritten, hint, Decision, unhandled, handled,
  exit_allow, exit_passthrough, World, command_key, is_code, clone_input_with, trim_left_blank,
  env_prefix, run_prefix, on_pattern, pattern_loop, decide_browzer_env_inject, decide_run_proxy,
  is_large, read_command, on_read, decide_never_rewrite, or_next, decide_command, bash_command,
  rewrite_bash_decide,
}

-- The commands that one may be replaced by: itself behind the assignment of the environment, if it
-- calls browzer; itself behind browzer run, if it is no compound outside of its quotes; and
-- browzer read of the one large file of code that it prints.
pub data Replaces {J : Type 0} (w : World J) (cmd : Text) : Text → Type 0 where
  with_env :
      match_string browzer_command_re cmd ≡ true
      → Replaces w cmd (env_prefix ++ trim_left_blank cmd)
  with_run :
      match_string compound_shell_re (strip_quoted cmd) ≡ false
      → Replaces w cmd (run_prefix ++ trim_space cmd)
  with_read :
      (path : Text)
      → cat_head_tail cmd ≡ some path
      → classify_path path ≡ code
      → is_large (w.regular_size path) ≡ true
      → Replaces w cmd (read_command w path)

not-false : {b : Bool} → not b ≡ false → b ≡ true
not-false e = ground arith

is_code→code : (c : PathClass) → is_code c ≡ true → c ≡ code
is_code→code code e = refl
is_code→code c e = ground arith

module _ {J : Type 0} (w : World J) (input : Input J) (cmd : Text) where
  -- The updated input has all keys of the input but for the command.
  abbrev pub IsUpdate : Input J → Type 0
  unfolding lookup text_eq
  IsUpdate updated =
      (new : Text) × Replaces w cmd new
      × ((k : Text)
          → lookup k updated
            ≡ (if text_eq command_key k then some (text_value new) else lookup k input))

  unfoldable pub IsAllowed : Option (RewriteEnvelope J) × ℕ → Type 0
  IsAllowed (none, exit) = ltb exit 2 ≡ true
  IsAllowed (some (hint t), exit) = exit ≡ exit_allow
  IsAllowed (some (rewritten updated context), exit) = (exit ≡ exit_allow) × IsUpdate updated

  unfoldable pub IsFine : Decision J → Type 0
  unfolding IsAllowed
  IsFine unhandled = Unit
  IsFine (handled envelope exit) = IsAllowed (envelope, exit)

  clone_input_with-IsFine :
      (new context : Text)
      → Replaces w cmd new
      → IsFine (handled (some (rewritten (clone_input_with input new) context)) exit_allow)
  unfolding IsFine IsAllowed IsUpdate clone_input_with
  clone_input_with-IsFine new context r =
      (refl, (new, r, (λ k. lookup-insert command_key k (text_value new) input)))

  unhandled-IsFine : IsFine unhandled
  unfolding IsFine
  unhandled-IsFine = tt

  silent-IsFine : (exit : ℕ) → ltb exit 2 ≡ true → IsFine (handled none exit)
  unfolding IsFine IsAllowed
  silent-IsFine exit h = h

  hint-IsFine : (t : Text) → IsFine (handled (some (hint t)) exit_allow)
  unfolding IsFine IsAllowed
  hint-IsFine t = refl

  decide_browzer_env_inject-IsFine : IsFine (decide_browzer_env_inject w input cmd)
  unfolding decide_browzer_env_inject literal text_eq match_string trim_left_blank
  decide_browzer_env_inject-IsFine =
      if_split IsFine (not (match_string browzer_command_re cmd)) (λ e. unhandled-IsFine)
        (λ e.
          if_intro IsFine
            (match_string has_env_re cmd
              || match_string has_flag_re cmd
              || match_string wrapped_subshell_re cmd)
            (silent-IsFine 0 refl) (clone_input_with-IsFine _ _ (with_env (not-false e))))

  on_pattern-IsFine : IsFine (on_pattern w input cmd (strip_quoted cmd))
  unfolding on_pattern
  on_pattern-IsFine =
      if_split IsFine (match_string compound_shell_re (strip_quoted cmd))
        (λ e.
          if_intro IsFine (not (match_string chain_op_re (strip_quoted cmd))) (hint-IsFine _)
            (silent-IsFine 1 refl))
        (λ e.
          if_intro IsFine (match_string never_rewrite_re cmd) unhandled-IsFine
            (clone_input_with-IsFine _ _ (with_run e)))

  pattern_loop-IsFine : (ps : List Regex) → IsFine (pattern_loop w input cmd (strip_quoted cmd) ps)
  unfolding pattern_loop
  pattern_loop-IsFine [] = unhandled-IsFine
  pattern_loop-IsFine (p ∷ ps) =
      if_intro IsFine (match_string p (strip_quoted cmd)) on_pattern-IsFine (pattern_loop-IsFine ps)

  decide_run_proxy-IsFine : IsFine (decide_run_proxy w input cmd)
  unfolding decide_run_proxy literal any_of
  decide_run_proxy-IsFine =
      if_intro IsFine (match_string run_prefix_re cmd) unhandled-IsFine
        (pattern_loop-IsFine run_rewrite_patterns)

  on_read-IsFine : (path : Text) → cat_head_tail cmd ≡ some path → IsFine (on_read w input cmd path)
  unfolding on_read
  on_read-IsFine path e =
      if_split IsFine (not (is_code (classify_path path))) (λ a. silent-IsFine 1 refl)
        (λ a. if_intro IsFine (match_string never_rewrite_re path) (silent-IsFine 1 refl) (
          if_split IsFine (not (is_large (w.regular_size path))) (λ b. silent-IsFine 1 refl)
            (λ b.
              clone_input_with-IsFine _ _ (
                with_read path e (is_code→code (classify_path path) (not-false a)) (not-false b)))))

  decide_never_rewrite-IsFine : IsFine (decide_never_rewrite w input cmd)
  unfolding decide_never_rewrite capture literal any_of
  decide_never_rewrite-IsFine = elim (Option-cases (cat_head_tail cmd)) [
    | inl e ↦ rw (decide_never_rewrite, e) unhandled-IsFine
    | inr (path, e) ↦ rw (decide_never_rewrite, e) (on_read-IsFine path e)
  ]

  or_next-IsAllowed :
      (d : Decision J) (next : Option (RewriteEnvelope J) × ℕ)
      → IsFine d
      → IsAllowed next
      → IsAllowed (or_next d next)
  unfolding IsFine
  or_next-IsAllowed unhandled next hd h = h
  or_next-IsAllowed (handled envelope exit) next hd h = hd

  decide_command-IsAllowed : IsAllowed (decide_command w input cmd)
  unfolding decide_command IsFine
  decide_command-IsAllowed = or_next-IsAllowed _ _ decide_browzer_env_inject-IsFine (
      or_next-IsAllowed _ _ decide_run_proxy-IsFine
        (or_next-IsAllowed _ _ decide_never_rewrite-IsFine (silent-IsFine 1 refl)))

gate_open : (a b : Bool) → (not a || not b) ≡ false → (a ≡ true) × (b ≡ true)
gate_open a b h = ground arith

module _ {J : Type 0} (w : World J) (raw : Text) where
  -- No decision, or a decision on the command of a call of Bash that the gate and the workspace let
  -- through.
  unfoldable pub IsAnswer : Option (RewriteEnvelope J) × ℕ → Type 0
  unfolding IsAllowed bash_command gate_allowed
  IsAnswer result =
      (result ≡ (none, exit_passthrough))
      ⊎ ((input : HookInput J) × (cmd : Text) × (w.decode raw ≡ some input)
          × (bash_command input ≡ some cmd)
          × (gate_allowed w.env (codes "rewrite-bash") ≡ true)
          × (w.in_workspace ≡ true)
          × IsAllowed w input.tool_input cmd result)

  passed-IsAnswer : IsAnswer (none, exit_passthrough)
  unfolding IsAnswer
  passed-IsAnswer = inl refl

  command-IsAnswer :
      (input : HookInput J) (cmd : Text)
      → w.decode raw ≡ some input
      → bash_command input ≡ some cmd
      → (not (gate_allowed w.env (codes "rewrite-bash")) || not w.in_workspace) ≡ false
      → IsAnswer (decide_command w input.tool_input cmd)
  unfolding IsAnswer
  command-IsAnswer input cmd d b g =
      let through = gate_open (gate_allowed w.env (codes "rewrite-bash")) w.in_workspace g in
      inr (input, cmd, d, b, through.0, through.1, decide_command-IsAllowed w input.tool_input cmd)

  -- Rewrite-bash passes a call on with no decision; or the hook is let through, in a workspace, by a
  -- call of Bash with a command, and then it ends with exit code 0 or 1 and prints nothing, or it
  -- allows the call with a hint alone, or it allows the call with an updated input that differs from
  -- the input in the command alone, where the new command is the old one behind BROWZER_LLM=1 if it
  -- calls browzer, the old one behind browzer run if StripQuoted leaves no | ; & < > of it, or
  -- browzer read of the path that the old one prints, of the class code and of 40 KB at least.
  pub rewrite_bash_decide-IsAnswer : IsAnswer (rewrite_bash_decide w raw)
  unfolding rewrite_bash_decide
  rewrite_bash_decide-IsAnswer =
      if_split IsAnswer (not (gate_allowed w.env (codes "rewrite-bash")) || not w.in_workspace)
        (λ e. passed-IsAnswer)
        (λ e. elim (Option-cases (w.decode raw)) [
          | inl d ↦ rw (d) passed-IsAnswer
          | inr (input, d) ↦ elim (Option-cases (bash_command input)) [
            | inl b ↦ rw (d, b) passed-IsAnswer
            | inr (cmd, b) ↦ rw (d, b) (command-IsAnswer input cmd d b e)
          ]
        ])
