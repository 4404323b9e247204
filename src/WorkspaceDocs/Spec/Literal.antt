-- ===== src/WorkspaceDocs/Spec/Literal.antt =====
-- A comma list of paths is read as these paths.
use browzer_cli.Prelude.{
  ℕ, Bool, false, ◌||◌, Option, List, [], ◌∷◌, ◌≡◌, refl, ap, ◌∙◌, All, arith, ◌==◌,
}
use browzer_cli.Prelude.Text.{Text, codes, text_eq, has_prefix, is_space, join}
use browzer_cli.Prelude.Text.Laws.{Lacks}
use browzer_cli.Prelude.Text.Parts.{IsSolid, trim_space-IsSolid, split-join, All-join}
use browzer_cli.WorkspaceDocs.Spec.{
  SpecScope, scope_add, scope_remove, scope_replace, ok, match_sentinel, is_any_sentinel, is_glob,
  trimmed_parts, parse_list, parse_trimmed, parse_spec, new_literal_resolver,
}

abbrev IsPlainChar : ℕ → Type 0
IsPlainChar c = (is_space c ≡ false) × ((c == b'*' || c == b'?' || c == b'[') ≡ false)

-- A path that is not empty and has no space, comma, star, question mark or opening bracket.
abbrev pub IsPlain : Text → Type 0
IsPlain [] = ⊥
IsPlain (c ∷ p) = All IsPlainChar (c ∷ p) × Lacks b',' (c ∷ p)

abbrev pub comma_list : List Text → Text
comma_list ps = join ps (b',' ∷ [])

plain_chars : (ps : List Text) → All IsPlain ps → All (All IsPlainChar) ps
plain_chars [] h = tt
plain_chars ([] ∷ ps) h = absurd h.0
plain_chars ((c ∷ p) ∷ ps) (h, hs) = (h.0, plain_chars ps hs)

plain_Lacks : (ps : List Text) → All IsPlain ps → All (Lacks b',') ps
plain_Lacks [] h = tt
plain_Lacks ([] ∷ ps) h = absurd h.0
plain_Lacks ((c ∷ p) ∷ ps) (h, hs) = (h.1, plain_Lacks ps hs)

chars-IsSolid : (s : Text) → All IsPlainChar s → IsSolid s
chars-IsSolid [] h = tt
chars-IsSolid (c ∷ s) ((e, g), h) = (e, chars-IsSolid s h)

chars_no_glob : (s : Text) → All IsPlainChar s → is_glob s ≡ false
chars_no_glob [] h = refl
chars_no_glob (c ∷ s) ((e, g), h) = rw (g, chars_no_glob s h) refl

trimmed_parts-plain : (ps : List Text) → All IsPlain ps → trimmed_parts ps ≡ ps
unfolding trimmed_parts text_eq
trimmed_parts-plain [] h = refl
trimmed_parts-plain ([] ∷ ps) h = absurd h.0
trimmed_parts-plain ((c ∷ p) ∷ ps) (h, hs) =
    rw (trim_space-IsSolid (c ∷ p) (chars-IsSolid (c ∷ p) h.0), trimmed_parts-plain ps hs) refl

match_sentinel-none :
    (s : Text) (scope : SpecScope) → is_any_sentinel s ≡ false → match_sentinel s scope ≡ []
unfolding match_sentinel is_any_sentinel
match_sentinel-none s scope_add h = ground arith
match_sentinel-none s scope_replace h = ground arith
match_sentinel-none s scope_remove h = refl

comma_list-ne-nil :
    (p : Text) (ps : List Text) → IsPlain p → text_eq (comma_list (p ∷ ps)) [] ≡ false
unfolding text_eq join
comma_list-ne-nil [] ps h = absurd h
comma_list-ne-nil (c ∷ p) [] h = refl
comma_list-ne-nil (c ∷ p) (q ∷ ps) h = refl

parse_list-comma_list :
    (p : Text) (ps : List Text)
    → All IsPlain (p ∷ ps)
    → parse_list (comma_list (p ∷ ps)) ≡ ok (new_literal_resolver (comma_list (p ∷ ps)) (p ∷ ps))
unfolding parse_list new_literal_resolver
parse_list-comma_list p ps h =
    rw (parse_list, split-join b',' p ps (plain_Lacks (p ∷ ps) h), trimmed_parts-plain (p ∷ ps) h)
      refl

-- A list of plain paths, joined by commas, is read by parseSpec as the literal list of these paths,
-- in every scope, unless the joined text is a sentinel or begins with an at sign.
pub parse_spec-comma_list :
    (open_file : Text → Option (List Text × Bool)) (scope : SpecScope) (p : Text) (ps : List Text)
    → All IsPlain (p ∷ ps)
    → is_any_sentinel (comma_list (p ∷ ps)) ≡ false
    → has_prefix (comma_list (p ∷ ps)) (codes "@") ≡ false
    → parse_spec open_file (comma_list (p ∷ ps)) scope
      ≡ ok (new_literal_resolver (comma_list (p ∷ ps)) (p ∷ ps))
unfolding parse_spec parse_trimmed
parse_spec-comma_list open_file scope p ps h plain at =
    let s : Text = comma_list (p ∷ ps) in
    let chars : All IsPlainChar s =
      All-join IsPlainChar (b',' ∷ []) (p ∷ ps) (((unfold is_space in refl), refl), tt)
        (plain_chars (p ∷ ps) h) in
    ap (λ t. parse_trimmed open_file t scope) (trim_space-IsSolid s (chars-IsSolid s chars))
    ∙ rw
        (
          parse_trimmed,
          comma_list-ne-nil p ps h.0,
          match_sentinel-none s scope plain,
          plain,
          at,
          chars_no_glob s chars,
        )
        (parse_list-comma_list p ps h)
