-- ===== src/Base/Bits.antt =====
-- `a | (b << k)` where `a` has no bit from `k` on is a sum.
use Prim.Native.Nat.{
  ℕ, zero, suc, ◌+◌, ◌*◌, ◌/◌, ◌%◌, ◌^◌, ◌≤◌, ◌<◌, max, digits, bit_or, bit_or-bitwise,
}
use mathlib.Core.Path.{◌≡◌, refl, ap, ◌∙◌}
use native.Mathlib.Nat.{pow-suc}
use native.Mathlib.Omega.{arith}

or_digits : ℕ → ℕ → ℕ → ℕ
or_digits n a b = digits (λ b. b) max n a b

-- More fuel than digits makes no difference.
or_digits_enough : (n k a b : ℕ) → a ≤ n → a ≤ k → or_digits n a b ≡ or_digits k a b
unfolding or_digits
or_digits_enough zero zero a b p q = refl
or_digits_enough n k zero b p q = both n k b
  where
    both : (n k b : ℕ) → digits (λ b. b) max n 0 b ≡ digits (λ b. b) max k 0 b
    both zero zero b = refl
    both zero (suc k) b = refl
    both (suc n) zero b = refl
    both (suc n) (suc k) b = refl
or_digits_enough zero k (suc a) b p q = absurd (omega arith)
or_digits_enough (suc n) zero (suc a) b p q = absurd (omega arith)
or_digits_enough (suc n) (suc k) (suc a) b p q =
    omega (arith, or_digits_enough n k (suc a / 2) (b / 2) (omega arith) (omega arith))

zero-bit_or : (b : ℕ) → bit_or 0 b ≡ b
zero-bit_or b = bit_or-bitwise 0 b

-- The lowest digit, and the rest.
bit_or_halves : (a b : ℕ) → bit_or a b ≡ bit_or (a / 2) (b / 2) * 2 + max (a % 2) (b % 2)
unfolding or_digits
bit_or_halves zero b = omega (arith, zero-bit_or b, zero-bit_or (b / 2))
bit_or_halves (suc a) b = omega (
  arith,
  bit_or-bitwise (suc a) b,
  bit_or-bitwise (suc a / 2) (b / 2),
  or_digits_enough a (suc a / 2) (suc a / 2) (b / 2) (omega arith) (omega arith),
)

pub bit_or_shifted : (k a b : ℕ) → a < 2 ^ k → bit_or a (b * 2 ^ k) ≡ a + b * 2 ^ k
bit_or_shifted zero a b h =
    let e : a ≡ 0 = omega arith in rw e (zero-bit_or (b * 2 ^ 0) ∙ omega arith)
bit_or_shifted (suc k) a b h =
    let twice : b * 2 ^ suc k ≡ 2 * (b * 2 ^ k) =
      omega (arith, ap (λ (t : ℕ). b * t) (pow-suc 2 k)) in
    rw twice (
      bit_or_halves a (2 * (b * 2 ^ k))
      ∙ split (bit_or_shifted k (a / 2) b (omega (arith, pow-suc 2 k))))
  where
    split :
        bit_or (a / 2) (b * 2 ^ k) ≡ a / 2 + b * 2 ^ k
        → bit_or (a / 2) (2 * (b * 2 ^ k) / 2) * 2 + max (a % 2) (2 * (b * 2 ^ k) % 2)
          ≡ a + 2 * (b * 2 ^ k)
    split ih =
        let half : 2 * (b * 2 ^ k) / 2 ≡ b * 2 ^ k = omega arith in rw half (omega (arith, ih))
