-- ===== src/Hooks/RewriteBash/Once.antt =====
-- A command that has the assignment of the environment is left alone.
use browzer_cli.Prelude.{
  Bool, true, false, ◌||◌, Option, none, some, [], ◌∷◌, ◌++◌, ◌≡◌, refl, ◌∙◌, ap, ℕ, arith,
}
use browzer_cli.Prelude.Text.{Text, codes}
use browzer_cli.Prelude.Regex.{
  is_some_place, is_blank_char, match_from, match_string, match_string-start, ends, runs, literal,
  any_of, capture,
}
use browzer_cli.Hooks.StripQuoted.Grows.{strip_quoted-Begins}
use browzer_cli.Hooks.BashPatterns.{
  browzer_command_re, has_env_re, run_prefix_re, run_rewrite_patterns,
}
use browzer_cli.Hooks.RewriteBash.{
  Input, RewriteEnvelope, Decision, unhandled, handled, exit_allow, exit_passthrough, World,
  env_prefix, or_next, pattern_loop, decide_browzer_env_inject, decide_run_proxy,
  decide_never_rewrite, decide_command,
}

browzer_command_re-env_prefix :
    (t : Text) → match_string browzer_command_re (env_prefix ++ t) ≡ false
unfolding literal ends runs
browzer_command_re-env_prefix t = match_string-start _ (env_prefix ++ t) ∙ refl

run_prefix_re-env_prefix : (t : Text) → match_string run_prefix_re (env_prefix ++ t) ≡ false
unfolding literal ends runs
run_prefix_re-env_prefix t = match_string-start _ (env_prefix ++ t) ∙ refl

decide_browzer_env_inject-env_prefix :
    {J : Type 0} (w : World J) (input : Input J) (t : Text)
    → decide_browzer_env_inject w input (env_prefix ++ t) ≡ unhandled
unfolding decide_browzer_env_inject literal
decide_browzer_env_inject-env_prefix w input t = rw (browzer_command_re-env_prefix t) refl

decide_never_rewrite-env_prefix :
    {J : Type 0} (w : World J) (input : Input J) (t : Text)
    → decide_never_rewrite w input (env_prefix ++ t) ≡ unhandled
unfolding decide_never_rewrite literal any_of ends runs capture
decide_never_rewrite-env_prefix w input t = refl

-- No pattern of the run proxy matches a command that begins with a B.
patterns-begin :
    {J : Type 0} (w : World J) (input : Input J) (cmd r : Text)
    → pattern_loop w input cmd (b'B' ∷ r) run_rewrite_patterns ≡ unhandled
unfolding pattern_loop literal any_of ends runs
patterns-begin w input cmd r = simp (match_string-start) refl

decide_run_proxy-env_prefix :
    {J : Type 0} (w : World J) (input : Input J) (t : Text)
    → decide_run_proxy w input (env_prefix ++ t) ≡ unhandled
unfolding decide_run_proxy literal any_of
decide_run_proxy-env_prefix w input t =
    let begins = strip_quoted-Begins b'B' (codes "ROWZER_LLM=1 " ++ t) refl refl refl refl in
    rw (run_prefix_re-env_prefix t) (
      ap (λ s. pattern_loop w input (env_prefix ++ t) s run_rewrite_patterns) begins.1
      ∙ patterns-begin w input (env_prefix ++ t) begins.0)

or_next-unhandled :
    {J : Type 0} (d : Decision J) (next : Option (RewriteEnvelope J) × ℕ)
    → d ≡ unhandled
    → or_next d next ≡ next
or_next-unhandled d next e = ap (λ d. or_next d next) e

or_next-handled :
    {J : Type 0} (d : Decision J) (envelope : Option (RewriteEnvelope J)) (exit : ℕ)
    (next : Option (RewriteEnvelope J) × ℕ)
    → d ≡ handled envelope exit
    → or_next d next ≡ (envelope, exit)
or_next-handled d envelope exit next e = ap (λ d. or_next d next) e

or_right : (a b : Bool) → b ≡ true → (a || b) ≡ true
or_right a b h = ground arith

or_left : (a b : Bool) → a ≡ true → (a || b) ≡ true
or_left a b h = ground arith

-- The assignment is found behind a blank, whatever stands before and behind both.
blank_assignment :
    (before : Option ℕ) (c : ℕ) (b : Text)
    → is_blank_char c ≡ true
    → is_some_place (ends has_env_re (before, c ∷ (codes "BROWZER_LLM=" ++ b))) ≡ true
unfolding ends literal
blank_assignment none c b h = rw h (ground arith)
blank_assignment (some d) c b h = rw h

has_env_re-assignment :
    (before : Option ℕ) (a b : Text) (c : ℕ)
    → is_blank_char c ≡ true
    → match_from has_env_re before (a ++ c ∷ (codes "BROWZER_LLM=" ++ b)) ≡ true
unfolding match_from
has_env_re-assignment before [] b c h = or_left _ _ (blank_assignment before c b h)
has_env_re-assignment before (d ∷ a) b c h = or_right _ _ (has_env_re-assignment (some d) a b c h)

module _ {J : Type 0} (w : World J) (input : Input J) where
  decide_browzer_env_inject-assignment :
      (cmd : Text)
      → match_string browzer_command_re cmd ≡ true
      → match_string has_env_re cmd ≡ true
      → decide_browzer_env_inject w input cmd ≡ handled none exit_allow
  unfolding decide_browzer_env_inject
  decide_browzer_env_inject-assignment cmd h k = rw (h, k) refl

  -- A command that calls browzer, as browzerCommandRE reads it, and that has BROWZER_LLM= behind a blank
  -- anywhere, is allowed as it is, with exit code 0 and nothing printed. A command that begins with
  -- BROWZER_LLM=1 and a blank, as the first decider writes it, is passed on with no decision by all
  -- three deciders, whatever follows. Both hold in every session.
  pub decide_command-assignment :
      (a b t : Text) (c : ℕ)
      → is_blank_char c ≡ true
      → match_string browzer_command_re (a ++ c ∷ (codes "BROWZER_LLM=" ++ b)) ≡ true
      → (decide_command w input (a ++ c ∷ (codes "BROWZER_LLM=" ++ b)) ≡ (none, exit_allow))
        × (decide_command w input (env_prefix ++ t) ≡ (none, exit_passthrough))
  unfolding decide_command
  decide_command-assignment a b t c h k = (
    or_next-handled _ none exit_allow _ (
        decide_browzer_env_inject-assignment (a ++ c ∷ (codes "BROWZER_LLM=" ++ b)) k
          (unfold match_string in has_env_re-assignment none a b c h)),
    or_next-unhandled _ _ (decide_browzer_env_inject-env_prefix w input t)
        ∙ or_next-unhandled _ _ (decide_run_proxy-env_prefix w input t)
        ∙ or_next-unhandled _ _ (decide_never_rewrite-env_prefix w input t),
  )
