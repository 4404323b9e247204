-- ===== src/Prelude/Sort.antt =====
-- sort.Slice and sort.Strings: insertion sort by a test `less`. Items that `less` does not tell apart
-- keep their order here; Go leaves it open.
use browzer_cli.Prelude.Tests.{if◌then◌else◌, Bool-cases, if_intro}
use browzer_cli.Prelude.Lists.{All, select}
use mathlib.Core.Path.{◌≡◌, refl, sym, ap, ◌∙◌}
use mathlib.Core.Logic.{◌≢◌, inl, inr}
use mathlib.Core.Bool.{Bool, true, false}
use mathlib.Core.List.{List, [], ◌∷◌, Perm}
use mathlib.Core.List.Perm

cons-ne-nil {ℓ} : {A : Type ℓ} (x : A) (xs : List A) → x ∷ xs ≢ []
cons-ne-nil x xs = λ e. cc e

module _ {ℓ} {A : Type ℓ} (less : A → A → Bool) where
  insert_sorted : A → List A → List A
  insert_sorted x [] = x ∷ []
  insert_sorted x (y ∷ ys) = if less y x then y ∷ insert_sorted x ys else x ∷ y ∷ ys

  unfoldable pub sort : List A → List A
  unfolding insert_sorted
  sort [] = []
  sort (x ∷ xs) = insert_sorted x (sort xs)

  insert_sorted-Perm : (x : A) (ys : List A) → Perm (insert_sorted x ys) (x ∷ ys)
  unfolding insert_sorted
  insert_sorted-Perm x [] = Perm.refl (x ∷ [])
  insert_sorted-Perm x (y ∷ ys) = elim (Bool-cases (less y x)) [
    | inl e ↦ rw e (Perm.trans (Perm.cons y (insert_sorted-Perm x ys)) (Perm.swap x y ys))
    | inr e ↦ rw e (Perm.refl (x ∷ y ∷ ys))
  ]

  -- Sorting permutes.
  pub sort-Perm : (xs : List A) → Perm (sort xs) xs
  unfolding sort
  sort-Perm [] = Perm.refl []
  sort-Perm (x ∷ xs) = Perm.trans (insert_sorted-Perm x (sort xs)) (Perm.cons x (sort-Perm xs))

  -- No item comes before one that is less than it.
  abbrev pub IsSorted : List A → Type 0
  IsSorted [] = Unit
  IsSorted (x ∷ xs) = All (λ y. less y x ≡ false) xs × IsSorted xs

  module _ (asym : (x y : A) → less x y ≡ true → less y x ≡ false)
      (step : (x y z : A) → less y x ≡ false → less z y ≡ false → less z x ≡ false) where
    insert_sorted-All :
        (x z : A) (ys : List A)
        → less x z ≡ false
        → All (λ y. less y z ≡ false) ys
        → All (λ y. less y z ≡ false) (insert_sorted x ys)
    unfolding insert_sorted
    insert_sorted-All x z [] h hs = (h, tt)
    insert_sorted-All x z (y ∷ ys) h (hy, hs) = elim (Bool-cases (less y x)) [
      | inl e ↦ rw e (hy, insert_sorted-All x z ys h hs)
      | inr e ↦ rw e (h, (hy, hs))
    ]

    All-step :
        (x y : A) (zs : List A)
        → less y x ≡ false
        → All (λ z. less z y ≡ false) zs
        → All (λ z. less z x ≡ false) zs
    All-step x y [] h hs = tt
    All-step x y (z ∷ zs) h (hz, hs) = (step x y z h hz, All-step x y zs h hs)

    insert_sorted-IsSorted : (x : A) (ys : List A) → IsSorted ys → IsSorted (insert_sorted x ys)
    unfolding insert_sorted
    insert_sorted-IsSorted x [] h = (tt, tt)
    insert_sorted-IsSorted x (y ∷ ys) (hy, hs) = elim (Bool-cases (less y x)) [
      | inl e ↦ rw e (insert_sorted-All x y ys (asym y x e) hy, insert_sorted-IsSorted x ys hs)
      | inr e ↦ rw e ((e, All-step x y ys e hy), (hy, hs))
    ]

    pub sort-IsSorted : (xs : List A) → IsSorted (sort xs)
    unfolding sort
    sort-IsSorted [] = tt
    sort-IsSorted (x ∷ xs) = insert_sorted-IsSorted x (sort xs) (sort-IsSorted xs)

module _ {ℓ κ} {A : Type ℓ} (less : A → A → Bool) (P : A → Type κ) where
  insert_sorted-every : (x : A) (ys : List A) → P x → All P ys → All P (insert_sorted less x ys)
  unfolding insert_sorted
  insert_sorted-every x [] h hs = (h, tt)
  insert_sorted-every x (y ∷ ys) h (hy, hs) =
      if_intro (All P) (less y x) (hy, insert_sorted-every x ys h hs) (h, (hy, hs))

  -- What holds of every item holds of every sorted item.
  pub sort-every : (xs : List A) → All P xs → All P (sort less xs)
  unfolding sort
  sort-every [] h = tt
  sort-every (x ∷ xs) (h, hs) = insert_sorted-every x (sort less xs) h (sort-every xs hs)

-- Where one item at most passes a test, it is the one that passes in the sorted list.
module _ {ℓ} {A : Type ℓ} (less : A → A → Bool) (p : A → Bool) where
  insert_sorted-select_skip :
      (x : A) (ys : List A) → p x ≡ false → select p (insert_sorted less x ys) ≡ select p ys
  unfolding insert_sorted
  insert_sorted-select_skip x [] h = rw h
  insert_sorted-select_skip x (y ∷ ys) h = elim (Bool-cases (less y x)) [
    | inl e ↦ rw (e, insert_sorted-select_skip x ys h)
    | inr e ↦ rw (e, h)
  ]

  insert_sorted-select_take :
      (x : A) (ys : List A)
      → p x ≡ true
      → select p ys ≡ []
      → select p (insert_sorted less x ys) ≡ x ∷ []
  unfolding insert_sorted
  insert_sorted-select_take x [] h none = rw h
  insert_sorted-select_take x (y ∷ ys) h none = elim (Bool-cases (less y x)) [
    | inl e ↦ elim (Bool-cases (p y)) [
      | inl q ↦ absurd (cons-ne-nil y (select p ys) (sym (rw q refl) ∙ none))
      | inr q ↦ rw (e, q) (insert_sorted-select_take x ys h (sym (rw q refl) ∙ none))
    ]
    | inr e ↦ rw (e, h) (ap (λ zs. x ∷ zs) none)
  ]

  pub sort-select_none : (xs : List A) → select p xs ≡ [] → select p (sort less xs) ≡ []
  unfolding sort
  sort-select_none [] h = refl
  sort-select_none (x ∷ xs) h = elim (Bool-cases (p x)) [
    | inl q ↦ absurd (cons-ne-nil x (select p xs) (sym (rw q refl) ∙ h))
    | inr q ↦
        insert_sorted-select_skip x (sort less xs) q ∙ sort-select_none xs (sym (rw q refl) ∙ h)
  ]

  pub sort-select_one :
      (y : A) (xs : List A) → select p xs ≡ y ∷ [] → select p (sort less xs) ≡ y ∷ []
  unfolding sort
  sort-select_one y [] h = absurd (cons-ne-nil y [] (sym h))
  sort-select_one y (x ∷ xs) h = elim (Bool-cases (p x)) [
    | inl q ↦
        let e : x ∷ select p xs ≡ y ∷ [] = sym (rw q refl) ∙ h in
        insert_sorted-select_take x (sort less xs) q (sort-select_none xs (cc e))
        ∙ ap (λ z. z ∷ []) (cc e)
    | inr q ↦
        insert_sorted-select_skip x (sort less xs) q ∙ sort-select_one y xs (sym (rw q refl) ∙ h)
  ]
