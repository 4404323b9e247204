-- ===== src/Hooks/Paths.antt =====
-- ClassifyPath of internal/hooks/classify_path.go, with its regular expressions.
use browzer_cli.Prelude.{not, ◌&&◌, ◌||◌, List, [], ◌∷◌, map, if◌then◌else◌, any, ◌==◌, leb}
use browzer_cli.Prelude.Text.{Text, codes, text_eq, lower, to_lower}
use browzer_cli.Prelude.Regex.{
  Regex, class, many, seq, alt, opt, start, stop, literal_i, any_of, match_string, is_blank_char,
  fold_case,
}

pub data PathClass : Type 0 where
  never_rewrite : PathClass
  config_surface : PathClass
  code : PathClass
  doc : PathClass
  unknown : PathClass

abbrev slash_or_start : Regex
slash_or_start = alt start (class (λ c. c == b'/'))

abbrev dot : Regex
dot = class (λ c. c == b'.')

-- [a-z]+
abbrev letters : Regex
unfolding to_lower
letters =
    seq (class (λ c. leb b'a' (fold_case c) && leb (fold_case c) b'z'))
      (many (λ c. leb b'a' (fold_case c) && leb (fold_case c) b'z'))

-- NeverRewriteRE
abbrev pub never_rewrite_re : Regex
unfolding literal_i any_of letters
never_rewrite_re =
    alt
      (seq slash_or_start (
        seq
          (any_of literal_i
            (codes "Dockerfile" ∷ (codes "drizzle.config.ts" ∷ (codes "tsup.config.ts" ∷ []))))
          stop))
      (alt
        (seq dot (
          seq
            (alt (literal_i (codes "sql")) (
              alt (literal_i (codes "toml")) (
                alt (seq (literal_i (codes "env")) (opt (seq dot letters)))
                  (any_of literal_i (codes "yaml" ∷ (codes "yml" ∷ []))))))
            stop))
        (alt (seq slash_or_start (seq (literal_i (codes "package.json")) stop)) (
          alt (seq slash_or_start (seq (literal_i (codes "CLAUDE.md")) stop)) (
            alt (seq slash_or_start (seq (literal_i (codes "AGENTS.md")) stop))
              (seq slash_or_start (seq (literal_i (codes ".env")) (alt dot stop)))))))

-- ConfigSurfaceRE
abbrev config_surface_re : Regex
unfolding literal_i any_of
config_surface_re = seq (alt start (class (λ c. is_blank_char c || c == b'/' || c == b'*'))) (
    seq
      (any_of literal_i (
        codes ".claude"
        ∷ (codes ".github"
            ∷ (codes ".vscode"
                ∷ (codes ".husky"
                    ∷ (codes ".changeset"
                        ∷ (codes "node_modules"
                            ∷ (codes "dist"
                                ∷ (codes "build"
                                    ∷ (codes "coverage"
                                        ∷ (codes ".turbo" ∷ (codes ".next" ∷ []))))))))))))
      (alt (class (λ c. c == b'/' || is_blank_char c)) stop))

-- configSurfaceExtRE
abbrev config_surface_ext_re : Regex
unfolding literal_i any_of
config_surface_ext_re = seq dot (
    seq
      (any_of literal_i (
        codes "json"
        ∷ (codes "yaml"
            ∷ (codes "yml"
                ∷ (codes "toml"
                    ∷ (codes "md"
                        ∷ (codes "mdx"
                            ∷ (codes "lock"
                                ∷ (codes "env"
                                    ∷ (codes "gitignore"
                                        ∷ (codes "editorconfig"
                                            ∷ (codes "prettierrc"
                                                ∷ (codes "eslintrc" ∷ [])))))))))))))
      stop)

-- nonCodeExts
abbrev non_code_exts : List Text
non_code_exts =
    codes ".md"
    ∷ (codes ".mdx"
        ∷ (codes ".json"
            ∷ (codes ".yaml"
                ∷ (codes ".yml" ∷ (codes ".toml" ∷ (codes ".lock" ∷ (codes ".env" ∷ [])))))))

-- filepath.Ext: from the last dot of the last component on.
unfoldable pub ext_after : Text → Text → Text
ext_after found [] = found
ext_after found (c ∷ s) = ext_after (if c == b'/' then [] else if c == b'.' then c ∷ s else found) s

abbrev pub ext : Text → Text
unfolding ext_after
ext = ext_after []

abbrev pub slashes : Text → Text
slashes = map (λ c. if c == 92 then b'/' else c)

unfoldable pub classify_path : Text → PathClass
unfolding match_string never_rewrite_re config_surface_re config_surface_ext_re text_eq lower ext
classify_path p =
    let norm : Text = slashes p in
    let e : Text = lower (ext norm) in
    if text_eq p []
    then unknown
    else if match_string never_rewrite_re norm
    then never_rewrite
    else if match_string config_surface_re norm || match_string config_surface_ext_re norm
    then config_surface
    else if not (text_eq e [])
    then (if any (text_eq e) non_code_exts then doc else code)
    else unknown
