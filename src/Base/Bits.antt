-- ===== src/Base/Bits.antt =====
-- `x << k | y`, for a `y` that fits `k` bits, is a sum.
use Prim.Native.Nat.{
  ℕ, zero, suc, ◌+◌, ◌*◌, ◌/◌, ◌^◌, ◌≤◌, ◌<◌, max, digits, bit_or, bit_or-bitwise,
}
use mathlib.Core.Path.{◌≡◌, refl, ap, ◌∙◌}
use native.Mathlib.Nat.{pow-suc, le_refl}
use native.Mathlib.Omega.{arith}

-- The digits of `a | b`, for `n` at least the number of digits of `a`.
abbrev or_digits : ℕ → ℕ → ℕ → ℕ
or_digits = digits (λ y. y) max

or_digits-zero : (n a : ℕ) → a ≤ n → or_digits n a 0 ≡ a
or_digits-zero zero zero h = refl
or_digits-zero zero (suc a) h = absurd (omega arith)
or_digits-zero (suc n) zero h = refl
or_digits-zero (suc n) (suc a) h = omega (arith, or_digits-zero n (suc a / 2) (omega arith))

-- Each step takes one low bit off both numbers.
or_digits_fields : (k n a q r : ℕ) → a ≡ q * 2 ^ k → a ≤ n → r < 2 ^ k → or_digits n a r ≡ a + r
or_digits_fields zero n a q zero e h fits = omega (arith, or_digits-zero n a h)
or_digits_fields zero n a q (suc r) e h fits = absurd (omega arith)
or_digits_fields (suc k) zero zero q r e h fits = omega arith
or_digits_fields (suc k) zero (suc a) q r e h fits = absurd (omega arith)
or_digits_fields (suc k) (suc n) zero q r e h fits = omega arith
or_digits_fields (suc k) (suc n) (suc a) q r e h fits =
    let twice : q * 2 ^ suc k ≡ 2 * (q * 2 ^ k) =
      omega (arith, ap (λ (t : ℕ). q * t) (pow-suc 2 k)) in
    omega (
      arith,
      twice,
      pow-suc 2 k,
      or_digits_fields k n (suc a / 2) q (r / 2) (omega (arith, twice)) (omega arith)
          (omega (arith, pow-suc 2 k)),
    )

pub bit_or_fields : (k q r : ℕ) → r < 2 ^ k → bit_or (q * 2 ^ k) r ≡ q * 2 ^ k + r
bit_or_fields k q r fits =
    bit_or-bitwise (q * 2 ^ k) r ∙ or_digits_fields k _ (q * 2 ^ k) q r refl (le_refl _) fits
