-- ===== src/Walker/Samples.antt =====
-- Names with keywords.
use browzer_cli.Prelude.{true, false, ◌≡◌, refl}
use browzer_cli.Prelude.Text.{codes, lower}
use browzer_cli.Walker.Sensitive.{
  needles, match_sensitive_name, is_sensitive, is_default_ignored_path,
}
use browzer_cli.Walker.Delimited.{HasNeedle, match_sensitive_name_iff}

api_token : match_sensitive_name (codes "api_Token.json") ≡ true
unfolding match_sensitive_name
api_token = refl

tokenizer : match_sensitive_name (codes "tokenizer.ts") ≡ false
unfolding match_sensitive_name
tokenizer = refl

env_local : is_sensitive (codes "a\\.env.local") ≡ true
unfolding is_sensitive
env_local = refl

trailing_slash : is_sensitive (codes "a/secret.txt/") ≡ true
unfolding is_sensitive
trailing_slash = refl

fixtures : is_default_ignored_path (codes "a/test/fixtures") ≡ true
unfolding is_default_ignored_path
fixtures = refl

match_sensitive_name_iff_example : HasNeedle needles (lower (codes "api_Token.json"))
match_sensitive_name_iff_example = (match_sensitive_name_iff (codes "api_Token.json")).0 api_token
