-- ===== src/Base/Totals.antt =====
-- Sums of a function over the numbers below a bound.
use Prim.Native.Nat.{ℕ, zero, suc, ◌+◌, ◌<◌, ◌≤◌}
use mathlib.Core.Path.{◌≡◌, refl, ap}
use mathlib.Core.Logic.{inl, inr, ◌≢◌}
use mathlib.Core.Bool.{Bool, true, false}
use native.Mathlib.Omega.{arith}
use embr.Base.Tests.{Bool-cases, ltb, ◌==◌, ==_iff}

abbrev pub one_if : Bool → ℕ
one_if true = 1
one_if false = 0

unfoldable pub total : (ℕ → ℕ) → ℕ → ℕ
total f zero = 0
total f (suc n) = total f n + f n

pub total-add : (f g : ℕ → ℕ) (n : ℕ) → total (λ i. f i + g i) n ≡ total f n + total g n
unfolding total
total-add f g zero = refl
total-add f g (suc n) = omega (arith, total-add f g n)

pub total-one_if : (x n : ℕ) → total (λ i. one_if (x == i)) n ≡ one_if (ltb x n)
unfolding total
total-one_if x zero = ground arith
total-one_if x (suc n) = ground (arith, total-one_if x n)

pub total-ones : (f : ℕ → ℕ) (n : ℕ) → ((i : ℕ) → i < n → f i ≡ 1) → total f n ≡ n
unfolding total
total-ones f zero h = refl
total-ones f (suc n) h =
    omega (arith, total-ones f n (λ i lt. h i (omega arith)), h n (omega arith))

pub total-zero : (f : ℕ → ℕ) (n i : ℕ) → total f n ≡ 0 → i < n → f i ≡ 0
unfolding total
total-zero f zero i z lt = absurd (omega arith)
total-zero f (suc n) i z lt = elim (Bool-cases (i == n)) [
  | inl last ↦ ground (arith, ap f ((==_iff i n).0 last))
  | inr more ↦ total-zero f n i (omega arith) (ground arith)
]

pub total-none : (n : ℕ) → total (λ i. 0) n ≡ 0
unfolding total
total-none zero = refl
total-none (suc n) = omega (arith, total-none n)

pub total-same : (f g : ℕ → ℕ) (n : ℕ) → ((j : ℕ) → j < n → f j ≡ g j) → total f n ≡ total g n
unfolding total
total-same f g zero h = refl
total-same f g (suc n) h =
    omega (arith, total-same f g n (λ j lt. h j (omega arith)), h n (omega arith))

-- A change at one number.
pub total-change :
    (f g : ℕ → ℕ) (i n : ℕ)
    → ((j : ℕ) → j ≢ i → f j ≡ g j)
    → i < n
    → total f n + g i ≡ total g n + f i
unfolding total
total-change f g i zero h lt = absurd (omega arith)
total-change f g i (suc n) h lt = elim (Bool-cases (i == n)) [
  | inl last ↦
      let e = (==_iff i n).0 last in
      omega (arith, ap f e, ap g e, total-same f g n (λ j k. h j (omega arith)))
  | inr before ↦ omega (arith, total-change f g i n h (ground arith), h n (ground arith))
]

-- No summand is above one.
pub total-le : (f : ℕ → ℕ) (n : ℕ) → ((j : ℕ) → f j ≤ 1) → total f n ≤ n
unfolding total
total-le f zero h = omega arith
total-le f (suc n) h = omega (arith, total-le f n h, h n)

pub total-ge : (f : ℕ → ℕ) (n i : ℕ) → i < n → f i ≤ total f n
unfolding total
total-ge f zero i lt = absurd (omega arith)
total-ge f (suc n) i lt = elim (Bool-cases (i == n)) [
  | inl last ↦ omega (arith, ap f ((==_iff i n).0 last))
  | inr before ↦ omega (arith, total-ge f n i (ground arith))
]
