-- ===== src/Prelude/Text/Parts.antt =====
-- Trimming and splitting of texts that are put together from parts.
use browzer_cli.Prelude.Lists.{All, All-append}
use browzer_cli.Prelude.Text.{Text, trim_space, trim_left, is_space, split, join}
use browzer_cli.Prelude.Text.Laws.{Lacks}
use Prim.Native.Nat.{ℕ}
use mathlib.Core.Path.{◌≡◌, refl, ◌∙◌, ap}
use mathlib.Core.Bool.{false}
use mathlib.Core.List.{List, [], ◌∷◌, ◌++◌, reverse, reverse-cons, reverse-reverse}
use native.Mathlib.Omega.{arith}

All-reverse {κ} : (P : ℕ → Type κ) (s : Text) → All P s → All P (reverse s)
All-reverse P [] h = tt
All-reverse P (c ∷ s) (hc, h) =
    rw (reverse-cons c s) (All-append P (reverse s) (c ∷ []) (All-reverse P s h) (hc, tt))

abbrev pub IsSolid : Text → Type 0
IsSolid = All (λ c. is_space c ≡ false)

trim_left-IsSolid : (s : Text) → IsSolid s → trim_left s ≡ s
unfolding trim_left
trim_left-IsSolid [] h = refl
trim_left-IsSolid (c ∷ s) (e, h) = rw e refl

-- There is nothing to trim where there is no space.
pub trim_space-IsSolid : (s : Text) → IsSolid s → trim_space s ≡ s
unfolding trim_space
trim_space-IsSolid s h =
    ap (λ t. reverse (trim_left (reverse t))) (trim_left-IsSolid s h)
    ∙ ap reverse (trim_left-IsSolid (reverse s) (All-reverse (λ c. is_space c ≡ false) s h))
    ∙ reverse-reverse s

module _ (sep : ℕ) where
  split-part : (p : Text) → Lacks sep p → split sep p ≡ p ∷ []
  unfolding split
  split-part [] h = refl
  split-part (c ∷ p) (hc, h) = ground (arith, split-part p h)

  split-append : (p s : Text) → Lacks sep p → split sep (p ++ sep ∷ s) ≡ p ∷ split sep s
  unfolding split
  split-append [] s h = ground arith
  split-append (c ∷ p) s (hc, h) = ground (arith, split-append p s h)

  -- Splitting undoes joining.
  pub split-join :
      (p : Text) (ps : List Text)
      → All (Lacks sep) (p ∷ ps)
      → split sep (join (p ∷ ps) (sep ∷ [])) ≡ p ∷ ps
  unfolding join
  split-join p [] (h, hs) = split-part p h
  split-join p (q ∷ ps) (h, hs) =
      split-append p (join (q ∷ ps) (sep ∷ [])) h ∙ ap (λ rest. p ∷ rest) (split-join q ps hs)

-- A property of the parts and of the separator's characters holds of the joined text.
pub All-join {κ} :
    (P : ℕ → Type κ) (sep : Text) (ps : List Text)
    → All P sep
    → All (All P) ps
    → All P (join ps sep)
unfolding join
All-join P sep [] hs h = tt
All-join P sep (p ∷ []) hs (hp, h) = hp
All-join P sep (p ∷ q ∷ ps) hs (hp, h) =
    All-append P p (sep ++ join (q ∷ ps) sep) hp
      (All-append P sep (join (q ∷ ps) sep) hs (All-join P sep (q ∷ ps) hs h))
