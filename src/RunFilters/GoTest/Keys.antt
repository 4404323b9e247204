-- ===== src/RunFilters/GoTest/Keys.antt =====
-- The keys of tests, and the list that filterGoTestNDJSON keeps of them with the set of those seen.
use browzer_cli.Prelude.{
  Bool, true, not, ◌&&◌, ◌||◌, List, [], ◌∷◌, ◌++◌, ◌≡◌, refl, ◌↔◌, sym, ap, ◌∙◌, subst, append-nil,
  append_assoc, any, select, select-and, if◌then◌else◌, Bool-cases, inl, inr, arith,
}
use browzer_cli.Prelude.Text.Laws.{text_eq_iff}
use browzer_cli.RunFilters.GoTest.{TestKey, key_eq}

pub key_eq_iff : (a b : TestKey) → (key_eq a b ≡ true) ↔ (a ≡ b)
unfolding key_eq
key_eq_iff a b = ground (arith, text_eq_iff a.pkg b.pkg, text_eq_iff a.test b.test)

abbrev pub is_key : List TestKey → TestKey → Bool
is_key keys k = any (λ j. key_eq j k) keys

pub is_key-append :
    (keys : List TestKey) (j k : TestKey)
    → is_key (keys ++ j ∷ []) k ≡ (is_key keys k || key_eq j k)
is_key-append [] j k = ground arith
is_key-append (i ∷ keys) j k = ground (arith, is_key-append keys j k)

-- Of the keys, each where it stands first.
unfoldable pub firsts : List TestKey → List TestKey
unfolding key_eq
firsts [] = []
firsts (k ∷ ks) = k ∷ select (λ j. not (key_eq k j)) (firsts ks)

unfoldable pub add_key : List TestKey → TestKey → List TestKey
unfolding key_eq
add_key keys k = if is_key keys k then keys else keys ++ k ∷ []

unfoldable pub add_keys : List TestKey → List TestKey → List TestKey
unfolding add_key
add_keys keys [] = keys
add_keys keys (k ∷ ks) = add_keys (add_key keys k) ks

known_or_other :
    (keys : List TestKey) (k j : TestKey)
    → is_key keys k ≡ true
    → not (is_key keys j) ≡ (not (is_key keys j) && not (key_eq k j))
known_or_other keys k j h = elim (Bool-cases (key_eq k j)) [
  | inl e ↦
      let known : is_key keys j ≡ true =
        subst (λ i. is_key keys i ≡ true) ((key_eq_iff k j).0 e) h in
      rw known
  | inr e ↦ rw e (ground arith)
]

pub add_keys-firsts :
    (keys ks : List TestKey)
    → add_keys keys ks ≡ keys ++ select (λ j. not (is_key keys j)) (firsts ks)
unfolding add_keys add_key firsts
add_keys-firsts keys [] = sym (append-nil keys)
add_keys-firsts keys (k ∷ ks) = elim (Bool-cases (is_key keys k)) [
  | inl e ↦ rw e (
      add_keys-firsts keys ks
      ∙ ap (λ xs. keys ++ xs)
          (sym (
            select-and (λ j. not (is_key keys j)) (λ j. not (key_eq k j)) (λ j. not (is_key keys j))
              (λ j. known_or_other keys k j e) (firsts ks))))
  | inr e ↦ rw e (
      add_keys-firsts (keys ++ k ∷ []) ks
      ∙ append_assoc keys (k ∷ []) (select (λ j. not (is_key (keys ++ k ∷ []) j)) (firsts ks))
      ∙ ap (λ xs. keys ++ k ∷ xs)
          (sym (
            select-and (λ j. not (is_key keys j)) (λ j. not (key_eq k j))
              (λ j. not (is_key (keys ++ k ∷ []) j)) (λ j. ground (arith, is_key-append keys k j))
              (firsts ks))))
]

pub add_keys-append :
    (keys js ks : List TestKey) → add_keys keys (js ++ ks) ≡ add_keys (add_keys keys js) ks
unfolding add_keys
add_keys-append keys [] ks = refl
add_keys-append keys (j ∷ js) ks = add_keys-append (add_key keys j) js ks

pub every_key : (xs : List TestKey) → select (λ j. not (is_key [] j)) xs ≡ xs
every_key [] = refl
every_key (x ∷ xs) = ap (λ ys. x ∷ ys) (every_key xs)
