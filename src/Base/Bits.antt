-- ===== src/Base/Bits.antt =====
-- `&` on words, bit by bit.
use native.Mathlib.Nat.{pow-suc, div-div-eq-div-mul}
use archarch.Base.{ℕ, zero, suc, ◌+◌, ◌-◌, ◌*◌, ◌/◌, ◌%◌, ◌^◌, ◌≤◌, ◌<◌, ◌≡◌, sym, ap, ◌∙◌, arith}

-- The lowest `n` bits of `a & b`.
unfoldable pub and_bits : (n a b : ℕ) → ℕ
and_bits zero a b = 0
and_bits (suc n) a b = a % 2 * (b % 2) + 2 * and_bits n (a / 2) (b / 2)

pub power_positive : (k : ℕ) → 0 < 2 ^ k
power_positive zero = omega arith
power_positive (suc k) = omega (arith, pow-suc 2 k, power_positive k)

power_monotone : (k n : ℕ) → k ≤ n → 2 ^ k ≤ 2 ^ n
power_monotone zero n h = power_positive n
power_monotone (suc k) zero h = absurd (omega arith)
power_monotone (suc k) (suc n) h =
    omega (arith, pow-suc 2 k, pow-suc 2 n, power_monotone k n (omega arith))

-- `a & ~(2 ^ k - 1)`
pub and_bits-mask :
    (n k a : ℕ) → k ≤ n → a < 2 ^ n → and_bits n a (2 ^ n - 2 ^ k) ≡ a / 2 ^ k * 2 ^ k
unfolding and_bits
and_bits-mask zero zero a h low = omega arith
and_bits-mask zero (suc k) a h low = absurd (omega arith)
and_bits-mask (suc n) zero a h low =
    let positive = power_positive n in
    let double : 2 ^ suc n ≡ 2 * 2 ^ n = omega (arith, pow-suc 2 n) in
    let odd : (2 ^ suc n - 1) % 2 ≡ 1 = omega (arith, double, positive) in
    let half : (2 ^ suc n - 1) / 2 ≡ 2 ^ n - 1 = omega (arith, double, positive) in
    let rest = and_bits-mask n zero (a / 2) (omega arith) (omega (arith, double)) in
    rw (odd, half, rest) (omega arith)
and_bits-mask (suc n) (suc k) a h low =
    let double : 2 ^ suc n ≡ 2 * 2 ^ n = omega (arith, pow-suc 2 n) in
    let double' : 2 ^ suc k ≡ 2 * 2 ^ k = omega (arith, pow-suc 2 k) in
    let even : (2 ^ suc n - 2 ^ suc k) % 2 ≡ 0 = omega (arith, double, double') in
    let half : (2 ^ suc n - 2 ^ suc k) / 2 ≡ 2 ^ n - 2 ^ k = omega (arith, double, double') in
    let rest = and_bits-mask n k (a / 2) (omega arith) (omega (arith, double)) in
    let down : a / 2 ^ suc k ≡ a / 2 / 2 ^ k =
      ap (λ x. a / x) double' ∙ sym (div-div-eq-div-mul a 2 (2 ^ k)) in
    rw (even, half, rest, down, double') (omega arith)
