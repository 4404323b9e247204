-- ===== src/Prelude/Loop.antt =====
-- A loop that goes on while its step says so, on a state whose size every step makes smaller: the size
-- is enough fuel, and the loop meets the equation that one expects of it.
use Prim.Native.Nat.{ℕ, zero, suc, ◌<◌}
use mathlib.Core.Path.{◌≡◌, refl, ap, ◌∙◌}
use mathlib.Core.Logic.{inl, inr, ◌⊎◌}
use native.Mathlib.Omega.{arith}

pub data Next {ℓ κ} (S : Type ℓ) (R : Type κ) : Type (ℓ ⊔ κ) where
  go : S → Next S R
  stop : R → Next S R

Next-cases {ℓ κ} :
    {S : Type ℓ} {R : Type κ} (n : Next S R) → ((s : S) × (n ≡ go s)) ⊎ ((r : R) × (n ≡ stop r))
Next-cases (go s) = inl (s, refl)
Next-cases (stop r) = inr (r, refl)

module _ {ℓ κ} {S : Type ℓ} {R : Type κ} (size : S → ℕ) (step : S → Next S R) (default : R) where
  loop : ℕ → S → R
  loop zero s = default
  loop (suc fuel) s = elim (step s) [ go s' ↦ loop fuel s' | stop r ↦ r ]

  -- The whole loop. The default is what it never returns.
  unfoldable pub iterate : S → R
  unfolding loop
  iterate s = loop (suc (size s)) s

  -- What follows a step.
  abbrev pub follow : (S → R) → Next S R → R
  follow f (go s) = f s
  follow f (stop r) = r

  abbrev pub Shrinks : Type (ℓ ⊔ κ)
  Shrinks = (s s' : S) → step s ≡ go s' → size s' < size s

  loop-fuel : (shrinks : Shrinks) (f g : ℕ) (s : S) → size s < f → size s < g → loop f s ≡ loop g s
  unfolding loop
  loop-fuel shrinks zero g s h k = absurd (omega arith)
  loop-fuel shrinks (suc f) zero s h k = absurd (omega arith)
  loop-fuel shrinks (suc f) (suc g) s h k = elim (Next-cases (step s)) [
    | inl (s', e) ↦
        rw (loop, e)
          (loop-fuel shrinks f g s' (omega (arith, shrinks s s' e)) (omega (arith, shrinks s s' e)))
    | inr (r, e) ↦ rw (loop, e)
  ]

  loop_inv {ℓ'} :
      (P : S → Type ℓ') (Q : R → Type ℓ')
      → Shrinks
      → ((s s' : S) → step s ≡ go s' → P s → P s')
      → ((s : S) (r : R) → step s ≡ stop r → P s → Q r)
      → (f : ℕ) (s : S) → size s < f
      → P s
      → Q (loop f s)
  unfolding loop
  loop_inv P Q shrinks keep last zero s h p = absurd (omega arith)
  loop_inv P Q shrinks keep last (suc f) s h p = elim (Next-cases (step s)) [
    | inl (s', e) ↦
        rw (loop, e)
          (loop_inv P Q shrinks keep last f s' (omega (arith, shrinks s s' e)) (keep s s' e p))
    | inr (r, e) ↦ rw (loop, e) (last s r e p)
  ]

  pub iterate_lem : (shrinks : Shrinks) (s : S) → iterate s ≡ follow iterate (step s)
  unfolding iterate
  iterate_lem shrinks s = elim (Next-cases (step s)) [
    | inl (s', e) ↦
        rw (loop, e) (loop-fuel shrinks (size s) (suc (size s')) s' (shrinks s s' e) (omega arith))
    | inr (r, e) ↦ rw (loop, e)
  ]

  pub iterate-go : (shrinks : Shrinks) (s s' : S) → step s ≡ go s' → iterate s ≡ iterate s'
  iterate-go shrinks s s' e = iterate_lem shrinks s ∙ ap (follow iterate) e

  pub iterate-stop : (shrinks : Shrinks) (s : S) (r : R) → step s ≡ stop r → iterate s ≡ r
  iterate-stop shrinks s r e = iterate_lem shrinks s ∙ ap (follow iterate) e

  -- What every step keeps holds of the state at which the loop stops.
  pub iterate_inv {ℓ'} :
      (P : S → Type ℓ') (Q : R → Type ℓ')
      → Shrinks
      → ((s s' : S) → step s ≡ go s' → P s → P s')
      → ((s : S) (r : R) → step s ≡ stop r → P s → Q r)
      → (s : S) → P s
      → Q (iterate s)
  unfolding iterate
  iterate_inv P Q shrinks keep last s h =
      loop_inv P Q shrinks keep last (suc (size s)) s (omega arith) h
