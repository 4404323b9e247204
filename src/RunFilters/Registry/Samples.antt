-- ===== src/RunFilters/Registry/Samples.antt =====
-- A registry to which a filter of two words is added.
use browzer_cli.Prelude.{ℕ, some, List, [], ◌∷◌, ◌≡◌, refl, if◌then◌else◌}
use browzer_cli.Prelude.Text.{Text, codes, text_eq}
use browzer_cli.Prelude.Assoc.{lookup, insert}
use browzer_cli.RunFilters.Registry.{
  register, resolve, category_of, keys, first_some, answer, is_two_words, dashed, register_lem,
}

abbrev filters : List (Text × ℕ)
filters = (codes "go", 1) ∷ []

abbrev command : List Text
command = codes "go" ∷ codes "test" ∷ codes "./..." ∷ []

resolves : resolve (register (codes "go test") 2 filters) command ≡ some 2
unfolding resolve register lookup insert text_eq
resolves = refl

tagged : category_of (register (codes "go test") 2 filters) command ≡ codes "go-test"
unfolding category_of register lookup insert text_eq
tagged = refl

register_example :
    (resolve (register (codes "go test") 2 filters) command
      ≡ first_some (answer (codes "go test") 2 filters) (keys command))
    × (category_of (register (codes "go test") 2 filters) command ≡ (
        if is_two_words (codes "go test") command
        then dashed (codes "go test")
        else category_of filters command))
register_example = register_lem (codes "go test") 2 filters command
