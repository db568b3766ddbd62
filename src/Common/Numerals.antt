-- ===== src/Common/Numerals.antt =====
-- A decimal numeral reads back as its number.
use Prim.Native.Char.{code}
use Prim.Native.Nat.{ℕ, zero, suc, ◌+◌, ◌-◌, ◌*◌, ◌/◌, ◌%◌, ◌≤◌, ◌<◌}
use Prim.Native.String.{String}
use mathlib.Core.Path.{◌≡◌, refl}
use mathlib.Core.Bool.{true}
use mathlib.Core.Logic.{inl, inr}
use mathlib.Core.Option.{some}
use native.Mathlib.Omega.{arith}
use yuchen_panel.Common.Tests.{ltb, if◌then◌else◌, Bool-cases}
use yuchen_panel.Common.Int.{pos}
use yuchen_panel.Common.Text.{digit, digits_before, scan_digits, itoa, is_digit, nth_char}

-- the character of a digit is one, and has its value
digit-code : (d : ℕ) → d < 10 → (is_digit (code (digit d)) ≡ true) × (code (digit d) - b'0' ≡ d)
unfolding digit nth_char is_digit
digit-code zero h = (refl, refl)
digit-code (suc zero) h = (refl, refl)
digit-code (suc (suc zero)) h = (refl, refl)
digit-code (suc (suc (suc zero))) h = (refl, refl)
digit-code (suc (suc (suc (suc zero)))) h = (refl, refl)
digit-code (suc (suc (suc (suc (suc zero))))) h = (refl, refl)
digit-code (suc (suc (suc (suc (suc (suc zero)))))) h = (refl, refl)
digit-code (suc (suc (suc (suc (suc (suc (suc zero))))))) h = (refl, refl)
digit-code (suc (suc (suc (suc (suc (suc (suc (suc zero)))))))) h = (refl, refl)
digit-code (suc (suc (suc (suc (suc (suc (suc (suc (suc zero))))))))) h = (refl, refl)
digit-code (suc (suc (suc (suc (suc (suc (suc (suc (suc (suc d)))))))))) h = absurd (omega arith)

scan_digit :
    (acc d : ℕ) (out : String)
    → d < 10
    → scan_digits acc (String.◌∷◌ (digit d) out) ≡ scan_digits (acc * 10 + d) out
unfolding scan_digits
scan_digit acc d out h = let (is, value) = digit-code d h in rw (is, value, if◌then◌else◌) refl

scan_digits-before :
    (fuel n : ℕ) (out : String)
    → n ≤ fuel
    → scan_digits 0 (digits_before fuel n out) ≡ scan_digits n out
unfolding digits_before
scan_digits-before zero n out h =
    let z : n ≡ 0 = omega arith in rw z (scan_digit 0 0 out (omega arith))
scan_digits-before (suc fuel) n out h = elim (Bool-cases (ltb n 10)) [
  | inl small ↦
      let same : 0 * 10 + n % 10 ≡ n = ground arith in
      rw (small, if◌then◌else◌, scan_digit 0 (n % 10) out (omega arith), same) refl
  | inr large ↦
      let same : n / 10 * 10 + n % 10 ≡ n = omega arith in
      rw
        (
          large,
          if◌then◌else◌,
          scan_digits-before fuel (n / 10) (String.◌∷◌ (digit (n % 10)) out) (ground arith),
          scan_digit (n / 10) (n % 10) out (omega arith),
          same,
        )
        refl
]

pub scan_digits-itoa : (n : ℕ) → scan_digits 0 (itoa (pos n)) ≡ some n
unfolding itoa scan_digits
scan_digits-itoa n = scan_digits-before n n "" (omega arith)
