-- ===== src/Prelude/Text/Numerals.antt =====
-- Texts of decimal digits: what strconv.Itoa prints, and what strings.TrimSpace leaves of it.
use browzer_cli.Prelude.Tests.{ltb, Bool-cases}
use browzer_cli.Prelude.Lists.{All, All-append}
use browzer_cli.Prelude.Text.{Text, trim_space, trim_left, is_space}
use browzer_cli.Prelude.Decimal.{decimal, digits}
use Prim.Native.Nat.{ℕ, zero, suc, ◌+◌, ◌/◌, ◌%◌, ◌≤◌}
use mathlib.Core.Path.{◌≡◌, refl, ◌∙◌, ap}
use mathlib.Core.List.{[], ◌∷◌, reverse, reverse-cons, reverse-reverse}
use mathlib.Core.Logic.{inl, inr}
use native.Mathlib.Omega.{arith}

abbrev pub IsDigit : ℕ → Type 0
IsDigit c = (b'0' ≤ c) × (c ≤ b'9')

digits-All : (f n : ℕ) (acc : Text) → All IsDigit acc → All IsDigit (digits f n acc)
unfolding digits
digits-All zero n acc h = h
digits-All (suc f) n acc h = elim (Bool-cases (ltb n 10)) [
  | inl e ↦ rw e ((omega arith, ground arith), h)
  | inr e ↦ rw e (digits-All f (n / 10) ((b'0' + n % 10) ∷ acc) ((omega arith, omega arith), h))
]

pub decimal-All : (n : ℕ) → All IsDigit (decimal n)
unfolding decimal
decimal-All n = digits-All (suc n) n [] tt

All-reverse : (s : Text) → All IsDigit s → All IsDigit (reverse s)
All-reverse [] h = tt
All-reverse (c ∷ s) (hc, h) =
    rw (reverse-cons c s) (All-append IsDigit (reverse s) (c ∷ []) (All-reverse s h) (hc, tt))

trim_left-digits : (s : Text) → All IsDigit s → trim_left s ≡ s
unfolding trim_left is_space
trim_left-digits [] h = refl
trim_left-digits (c ∷ s) ((lo, hi), h) = ground arith

pub trim_space-digits : (s : Text) → All IsDigit s → trim_space s ≡ s
unfolding trim_space
trim_space-digits s h =
    ap (λ t. reverse (trim_left (reverse t))) (trim_left-digits s h)
    ∙ ap reverse (trim_left-digits (reverse s) (All-reverse s h))
    ∙ reverse-reverse s
