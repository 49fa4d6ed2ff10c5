-- ===== src/Base/Bits.antt =====
-- Bitwise `|` of fields that do not overlap, as a sum, and `&` with a mask of low bits.
use Prim.Native.Nat.{
  ℕ, zero, suc, ◌+◌, ◌*◌, ◌/◌, ◌^◌, ◌≤◌, ◌<◌, max, bit_or, digits, bit_or-bitwise, bit_and,
  bit_and-bitwise, min, ◌%◌,
}
use mathlib.Core.Path.{◌≡◌, refl, ap, ◌∙◌}
use native.Mathlib.Nat.{pow-suc}
use native.Mathlib.Omega.{arith}

-- The recursion on binary digits that `bit_or` stands for, on any fuel that is enough.
or_digits-sum :
    (n k a x b : ℕ) → x ≡ a * 2 ^ k → x ≤ n → b < 2 ^ k → digits (λ y. y) max n x b ≡ x + b
or_digits-sum zero k a zero b e h l = omega arith
or_digits-sum zero k a (suc x) b e h l = absurd (omega arith)
or_digits-sum (suc n) k a zero b e h l = omega arith
or_digits-sum (suc n) zero a (suc x) b e h l =
    omega (arith, or_digits-sum n zero (suc x / 2) (suc x / 2) (b / 2))
or_digits-sum (suc n) (suc k) a (suc x) b e h l =
    let twice : suc x ≡ 2 * (a * 2 ^ k) = omega (arith, e, ap (λ (t : ℕ). a * t) (pow-suc 2 k)) in
    let half : b / 2 < 2 ^ k = omega (arith, pow-suc 2 k) in
    omega (arith, or_digits-sum n k a (suc x / 2) (b / 2) (omega arith) (omega arith) half)

-- `(hi << k) | lo` is a sum where `lo` fits in k bits.
pub bit_or-sum : (k hi lo : ℕ) → lo < 2 ^ k → bit_or (hi * 2 ^ k) lo ≡ hi * 2 ^ k + lo
bit_or-sum k hi lo h =
    bit_or-bitwise (hi * 2 ^ k) lo
    ∙ or_digits-sum (hi * 2 ^ k) k hi (hi * 2 ^ k) lo refl (omega arith) h

and_digits-mask :
    (n k a x b r : ℕ)
    → x ≡ a * 2 ^ k + r
    → x ≤ n
    → r < 2 ^ k
    → b + 1 ≡ 2 ^ k
    → digits (λ y. 0) min n x b ≡ r
and_digits-mask zero k a zero b r e h l m = omega arith
and_digits-mask zero k a (suc x) b r e h l m = absurd (omega arith)
and_digits-mask (suc n) k a zero b r e h l m = omega arith
and_digits-mask (suc n) zero a (suc x) b r e h l m =
    omega (arith, and_digits-mask n zero (suc x / 2) (suc x / 2) (b / 2) 0)
and_digits-mask (suc n) (suc k) a (suc x) b r e h l m =
    let twice : suc x ≡ 2 * (a * 2 ^ k) + r =
      omega (arith, e, ap (λ (t : ℕ). a * t) (pow-suc 2 k)) in
    let half : b / 2 + 1 ≡ 2 ^ k = omega (arith, pow-suc 2 k) in
    let small : r / 2 < 2 ^ k = omega (arith, pow-suc 2 k) in
    let odd : b % 2 ≡ 1 = omega (arith, pow-suc 2 k) in
    omega (
      arith,
      and_digits-mask n k a (suc x / 2) (b / 2) (r / 2) (omega arith) (omega arith) small half,
    )

-- The low k bits of a sum.
pub bit_and-mask :
    (k hi lo mask : ℕ) → lo < 2 ^ k → mask + 1 ≡ 2 ^ k → bit_and (hi * 2 ^ k + lo) mask ≡ lo
bit_and-mask k hi lo mask h m =
    bit_and-bitwise (hi * 2 ^ k + lo) mask
    ∙ and_digits-mask (hi * 2 ^ k + lo) k hi (hi * 2 ^ k + lo) mask lo refl (omega arith) h m
