-- ===== src/Prelude/Decimal.antt =====
-- strconv.Itoa and the verb %d on a natural number, and that the print can be read back.
use browzer_cli.Prelude.Lists.{length, All}
use browzer_cli.Prelude.Tests.{ltb, if◌then◌else◌, Bool-cases}
use Prim.Native.Nat.{ℕ, zero, suc, ◌+◌, ◌-◌, ◌*◌, ◌/◌, ◌%◌, ◌<◌, ◌≤◌}
use mathlib.Core.Path.{◌≡◌, refl, sym, ◌∙◌, ap}
use mathlib.Core.Logic.{inl, inr}
use mathlib.Core.List.{[], ◌∷◌}
use native.Mathlib.Omega.{arith}
use browzer_cli.Prelude.Text.{Text, codes}

-- The digits of `n` in front of `acc`; a number below the fuel needs no more of it.
unfoldable pub digits : ℕ → ℕ → Text → Text
digits zero n acc = acc
digits (suc f) n acc =
    let more = digits f (n / 10) ((b'0' + n % 10) ∷ acc) in
    if ltb n 10 then (b'0' + n) ∷ acc else more

unfoldable pub decimal : ℕ → Text
unfolding digits
decimal n = digits (suc n) n []

-- The number that a run of digits spells behind `n`.
abbrev pub value : ℕ → Text → ℕ
value n [] = n
value n (c ∷ s) = value (n * 10 + (c - b'0')) s

value-digits : (f n : ℕ) (acc : Text) → n < f → value 0 (digits f n acc) ≡ value n acc
unfolding digits
value-digits zero n acc h = absurd (omega arith)
value-digits (suc f) n acc h = ground (arith, value-digits f (n / 10) ((b'0' + n % 10) ∷ acc))

pub value-decimal : (n : ℕ) → value 0 (decimal n) ≡ n
unfolding decimal
value-decimal n = value-digits (suc n) n [] (omega arith)

-- Two numbers with one print are equal.
pub decimal-injective : (m n : ℕ) → decimal m ≡ decimal n → m ≡ n
decimal-injective m n e = sym (value-decimal m) ∙ ap (value 0) e ∙ value-decimal n

decimal_runs : decimal 1204 ≡ codes "1204"
unfolding decimal
decimal_runs = refl

abbrev zeros : ℕ → Text → Text
zeros zero s = s
zeros (suc k) s = b'0' ∷ zeros k s

-- The verb %03d: zeros in front, up to three digits.
unfoldable pub decimal3 : ℕ → Text
unfolding decimal
decimal3 n = zeros (3 - length (decimal n)) (decimal n)

value-zeros : (k : ℕ) (s : Text) → value 0 (zeros k s) ≡ value 0 s
value-zeros zero s = refl
value-zeros (suc k) s = value-zeros k s

pub value-decimal3 : (n : ℕ) → value 0 (decimal3 n) ≡ n
unfolding decimal3
value-decimal3 n = value-zeros (3 - length (decimal n)) (decimal n) ∙ value-decimal n

length-zeros : (k : ℕ) (s : Text) → length (zeros k s) ≡ k + length s
length-zeros zero s = omega arith
length-zeros (suc k) s = omega (arith, length-zeros k s)

pub length-decimal3 : (n : ℕ) → 3 ≤ length (decimal3 n)
unfolding decimal3
length-decimal3 n = omega (arith, length-zeros (3 - length (decimal n)) (decimal n))

-- The code points of digits.
abbrev pub IsDigits : Text → Type 0
IsDigits = All (λ c. (b'0' ≤ c) × (c ≤ b'9'))

digits-IsDigits : (f n : ℕ) (acc : Text) → IsDigits acc → IsDigits (digits f n acc)
unfolding digits
digits-IsDigits zero n acc h = h
digits-IsDigits (suc f) n acc h = elim (Bool-cases (ltb n 10)) [
  | inl e ↦ rw e (ground arith, h)
  | inr e ↦ rw e (digits-IsDigits f (n / 10) ((b'0' + n % 10) ∷ acc) (ground arith, h))
]

zeros-IsDigits : (k : ℕ) (s : Text) → IsDigits s → IsDigits (zeros k s)
zeros-IsDigits zero s h = h
zeros-IsDigits (suc k) s h = (omega arith, zeros-IsDigits k s h)

pub decimal3-IsDigits : (n : ℕ) → IsDigits (decimal3 n)
unfolding decimal3 decimal
decimal3-IsDigits n =
    zeros-IsDigits (3 - length (decimal n)) (decimal n) (digits-IsDigits (suc n) n [] tt)

pub decimal3-injective : (m n : ℕ) → decimal3 m ≡ decimal3 n → m ≡ n
decimal3-injective m n e = sym (value-decimal3 m) ∙ ap (value 0) e ∙ value-decimal3 n
