-- ===== src/Random/Words.antt =====
-- Operations on binary digits stay within the bits of their arguments.
use rdma_synchronization.Common.{ℕ, zero, suc, ◌/◌, ◌%◌, ◌^◌, ◌<◌, ◌≤◌, arith, bit_and, min}
use Prim.Native.Nat.{
  bit_or, bit_xor, digits, differ, max, bit_and-bitwise, bit_or-bitwise, bit_xor-bitwise,
}
use native.Mathlib.Nat.{pow-suc, div-le_self}

module _ (z : ℕ → ℕ) (f : ℕ → ℕ → ℕ) (z_le : (b : ℕ) → z b ≤ b)
    (f_le : (x y : ℕ) → x ≤ 1 → y ≤ 1 → f x y ≤ 1) where
  digits-lt : (n a b k : ℕ) → a < 2 ^ k → b < 2 ^ k → digits z f n a b < 2 ^ k
  digits-lt zero a b k la lb = omega (arith, z_le b)
  digits-lt (suc n) zero b k la lb = omega (arith, z_le b)
  digits-lt (suc n) (suc a) b zero la lb = absurd (omega arith)
  digits-lt (suc n) (suc a) b (suc k) la lb = omega (
    arith,
    pow-suc 2 k,
    digits-lt n (suc a / 2) (b / 2) k (omega (arith, pow-suc 2 k)) (omega (arith, pow-suc 2 k)),
    f_le (suc a % 2) (b % 2) (omega arith) (omega arith),
  )

differ-le : (x y : ℕ) → x ≤ 1 → y ≤ 1 → differ x y ≤ 1
differ-le zero y lx ly = ly
differ-le (suc x) zero lx ly = lx
differ-le (suc x) (suc y) lx ly = differ-le x y (omega arith) (omega arith)

module _ (k a b : ℕ) (la : a < 2 ^ k) (lb : b < 2 ^ k) where
  pub bit_and-lt : bit_and a b < 2 ^ k
  bit_and-lt = omega (
    arith,
    bit_and-bitwise a b,
    digits-lt (λ _. 0) min (λ _. omega arith) (λ x y lx ly. omega arith) a a b k la lb,
  )

  pub bit_or-lt : bit_or a b < 2 ^ k
  bit_or-lt = omega (
    arith,
    bit_or-bitwise a b,
    digits-lt (λ b. b) max (λ _. omega arith) (λ x y lx ly. omega arith) a a b k la lb,
  )

  pub bit_xor-lt : bit_xor a b < 2 ^ k
  bit_xor-lt = omega (
    arith,
    bit_xor-bitwise a b,
    digits-lt (λ b. b) differ (λ _. omega arith) differ-le a a b k la lb,
  )

pub shr-lt : (x k n : ℕ) → x < n → x / 2 ^ k < n
shr-lt x k n lt = omega (arith, div-le_self x (2 ^ k))
