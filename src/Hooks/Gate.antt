-- ===== src/Hooks/Gate.antt =====
-- GateAllowed of internal/hooks/env_gate.go. The environment gives the empty text for a variable that is
-- not set.
use browzer_cli.Prelude.{Bool, true, false, ◌||◌, List, [], ◌∷◌, if◌then◌else◌}
use browzer_cli.Prelude.Text.{Text, codes, text_eq, lower, trim_space, split}

unfoldable pub normal : Text → Text
unfolding lower trim_space
normal s = lower (trim_space s)

-- The loop over the entries of BROWZER_HOOK_DISABLE: whether none of them names the hook.
unfoldable pub none_disables : Text → List Text → Bool
unfolding normal text_eq
none_disables wanted [] = true
none_disables wanted (entry ∷ entries) =
    let rest = none_disables wanted entries in
    if text_eq (normal entry) []
    then rest
    else if text_eq (normal entry) wanted
    then false
    else rest

abbrev pub is_off : Text → Bool
unfolding text_eq
is_off s = text_eq s (codes "off") || text_eq s (codes "0") || text_eq s (codes "false")

unfoldable pub gate_allowed : (Text → Text) → Text → Bool
unfolding none_disables normal text_eq split is_off
gate_allowed env hook_name =
    if is_off (normal (env (codes "BROWZER_HOOK")))
    then false
    else if text_eq hook_name []
    then true
    else if text_eq (env (codes "BROWZER_HOOK_DISABLE")) []
    then true
    else none_disables (normal hook_name) (split 44 (env (codes "BROWZER_HOOK_DISABLE")))
