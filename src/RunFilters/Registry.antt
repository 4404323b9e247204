-- ===== src/RunFilters/Registry.antt =====
-- Registry of internal/commands/runfilters/registry.go: the filters by the words of a command.
mod Samples
use browzer_cli.Prelude.{
  ℕ, Bool, true, false, Option, none, some, List, [], ◌∷◌, ◌++◌, ◌≡◌, refl, map, ◌==◌,
  if◌then◌else◌, Bool-cases, inl, inr,
}
use browzer_cli.Prelude.Text.{Text, codes, text_eq}
use browzer_cli.Prelude.Text.Laws.{text_eq_iff}
use browzer_cli.Prelude.Assoc.{lookup, insert, lookup-insert}

abbrev space : ℕ
space = 32

-- args[0] + " " + args[1]
abbrev two_words : Text → Text → Text
two_words verb subverb = verb ++ (space ∷ subverb)

-- strings.ReplaceAll(key, " ", "-")
abbrev dashed : Text → Text
dashed key = map (λ (c : ℕ). if c == space then 45 else c) key

-- The keys of a command, the one that goes first at the head.
abbrev pub keys : List Text → List Text
keys [] = []
keys (verb ∷ []) = verb ∷ []
keys (verb ∷ (subverb ∷ args)) = two_words verb subverb ∷ (verb ∷ [])

-- Whether a name is the key of two words of a command.
abbrev pub is_two_words : Text → List Text → Bool
is_two_words name [] = false
is_two_words name (verb ∷ []) = false
is_two_words name (verb ∷ (subverb ∷ args)) = text_eq name (two_words verb subverb)

module _ {ℓ} {F : Type ℓ} where
  unfoldable pub register : Text → F → List (Text × F) → List (Text × F)
  unfolding insert
  register name fn filters = insert name fn filters

  -- A second lookup, for what the first one lacks.
  abbrev or_else : Option F → Option F → Option F
  or_else none y = y
  or_else (some fn) y = some fn

  unfoldable pub resolve : List (Text × F) → List Text → Option F
  unfolding lookup
  resolve filters [] = none
  resolve filters (verb ∷ []) = lookup verb filters
  resolve filters (verb ∷ (subverb ∷ args)) =
      or_else (lookup (two_words verb subverb) filters) (lookup verb filters)

  unfoldable pub category_of : List (Text × F) → List Text → Text
  unfolding lookup
  category_of filters [] = codes "unknown"
  category_of filters (verb ∷ []) = verb
  category_of filters (verb ∷ (subverb ∷ args)) = elim (lookup (two_words verb subverb) filters) [
    | some fn ↦ dashed (two_words verb subverb)
    | none ↦ verb
  ]

  abbrev pub first_some : (Text → Option F) → List Text → Option F
  first_some f [] = none
  first_some f (k ∷ []) = f k
  first_some f (k ∷ (j ∷ ks)) = or_else (f k) (first_some f (j ∷ ks))

  -- What a registry answers to a key, once a filter is registered.
  abbrev pub answer : Text → F → List (Text × F) → Text → Option F
  answer name fn filters k = if text_eq name k then some fn else lookup k filters

  resolve-register-keys :
      (name : Text) (fn : F) (filters : List (Text × F)) (args : List Text)
      → resolve (register name fn filters) args ≡ first_some (answer name fn filters) (keys args)
  unfolding register resolve
  resolve-register-keys name fn filters [] = refl
  resolve-register-keys name fn filters (verb ∷ []) = lookup-insert name verb fn filters
  resolve-register-keys name fn filters (verb ∷ (subverb ∷ args)) =
      rw
        (
          resolve,
          lookup-insert name (two_words verb subverb) fn filters,
          lookup-insert name verb fn filters,
        )
        refl

  category_of-register :
      (name : Text) (fn : F) (filters : List (Text × F)) (args : List Text)
      → category_of (register name fn filters) args
        ≡ (if is_two_words name args then dashed name else category_of filters args)
  unfolding register category_of
  category_of-register name fn filters [] = refl
  category_of-register name fn filters (verb ∷ []) = refl
  category_of-register name fn filters (verb ∷ (subverb ∷ args)) =
      rw (category_of, lookup-insert name (two_words verb subverb) fn filters)
        (elim (Bool-cases (text_eq name (two_words verb subverb))) [
          | inl e ↦ rw (e, (text_eq_iff name (two_words verb subverb)).0 e) refl
          | inr e ↦ rw e refl
        ])

  -- Behind Register, a command resolves to the first of its keys, the one of two words before the
  -- verb, that is the registered name, where it is the new filter, or one that was registered
  -- before. It is tagged with the dashed name when the name is its key of two words, and as before
  -- otherwise.
  pub register_lem :
      (name : Text) (fn : F) (filters : List (Text × F)) (args : List Text)
      → (resolve (register name fn filters) args ≡ first_some (answer name fn filters) (keys args))
        × (category_of (register name fn filters) args
            ≡ (if is_two_words name args then dashed name else category_of filters args))
  register_lem name fn filters args =
      (resolve-register-keys name fn filters args, category_of-register name fn filters args)
