-- ===== src/Common/Word.antt =====
-- 64-bit words: wrap-around sums, masks, and the laws of masks at variables.
use Prim.Native.Nat.{
  ℕ, zero, suc, ◌+◌, ◌-◌, ◌*◌, ◌/◌, ◌%◌, ◌^◌, ◌≤◌, ◌<◌, min, bit_and, digits, bit_and-bitwise,
}
use mathlib.Core.Path.{◌≡◌, refl, ◌∙◌, ap}
use native.Mathlib.Nat.{pow-suc, mod-lt, mod-eq_of_lt, mod-add-div', add-mul-mod_self_right}
use native.Mathlib.Omega.{arith}

abbrev pub add_u64 : ℕ → ℕ → ℕ
add_u64 a b = (a + b) % 2 ^ 64

-- For `b < 2 ^ 64`.
abbrev pub sub_u64 : ℕ → ℕ → ℕ
sub_u64 a b = (a + 2 ^ 64 - b) % 2 ^ 64

abbrev and_digits : ℕ → ℕ → ℕ → ℕ
and_digits n a b = digits (λ _. 0) min n a b

-- The count of digits to go does not matter once it covers the first number.
and_digits-more : (n m a b : ℕ) → a ≤ n → n ≤ m → and_digits m a b ≡ and_digits n a b
and_digits-more zero zero a b h k = refl
and_digits-more zero (suc m) zero b h k = refl
and_digits-more zero (suc m) (suc a) b h k = absurd (omega arith)
and_digits-more (suc n) zero a b h k = absurd (omega arith)
and_digits-more (suc n) (suc m) zero b h k = refl
and_digits-more (suc n) (suc m) (suc a) b h k =
    omega (arith, and_digits-more n m (suc a / 2) (b / 2) (omega arith) (omega arith))

-- The lowest digit of a conjunction, and the rest.
bit_and-digit : (a b : ℕ) → bit_and a b ≡ bit_and (a / 2) (b / 2) * 2 + min (a % 2) (b % 2)
bit_and-digit zero b = omega (arith, bit_and-bitwise 0 (b / 2), bit_and-bitwise 0 b)
bit_and-digit (suc a) b =
    let more = and_digits-more (suc a / 2) a (suc a / 2) (b / 2) (omega arith) (omega arith) in
    omega (arith, more, bit_and-bitwise (suc a / 2) (b / 2), bit_and-bitwise (suc a) b)

bit_and-zero_below : (n a : ℕ) → a ≤ n → bit_and a 0 ≡ 0
bit_and-zero_below zero zero h = refl
bit_and-zero_below zero (suc a) h = absurd (omega arith)
bit_and-zero_below (suc n) a h =
    omega (arith, bit_and-digit a 0, bit_and-zero_below n (a / 2) (omega arith))

bit_and-zero : (a : ℕ) → bit_and a 0 ≡ 0
bit_and-zero a = bit_and-zero_below a a (omega arith)

-- A remainder by an even number, from the halves.
mod_double : (a m : ℕ) → 0 < m → a % (m * 2) ≡ a / 2 % m * 2 + a % 2
mod_double a m h =
    ap (λ t. t % (m * 2)) split
    ∙ add-mul-mod_self_right low (a / 2 / m) (m * 2)
    ∙ mod-eq_of_lt (omega (arith, mod-lt (a / 2) h))
  where
    low : ℕ
    low = a / 2 % m * 2 + a % 2

    split : a ≡ low + a / 2 / m * (m * 2)
    split = omega (arith, mod-add-div' (a / 2) m)

pub pow_pos : (k : ℕ) → 0 < 2 ^ k
pow_pos zero = omega arith
pow_pos (suc k) = omega (arith, pow-suc 2 k, pow_pos k)

-- A mask of `k` ones keeps the remainder by `2 ^ k`.
pub bit_and-mask : (k a : ℕ) → bit_and a (2 ^ k - 1) ≡ a % 2 ^ k
bit_and-mask zero a = omega (arith, bit_and-zero a)
bit_and-mask (suc k) a =
    rw
      (
        bit_and-digit,
        half,
        odd,
        bit_and-mask k (a / 2),
        pow-suc 2 k,
        mod_double a (2 ^ k) (pow_pos k),
      )
      (omega arith)
  where
    half : (2 ^ suc k - 1) / 2 ≡ 2 ^ k - 1
    half = omega (arith, pow-suc 2 k, pow_pos k)

    odd : (2 ^ suc k - 1) % 2 ≡ 1
    odd = omega (arith, pow-suc 2 k, pow_pos k)

-- `x & 0b10`, the latch bit of a version word.
pub bit_and-two : (a : ℕ) → bit_and a 2 ≡ a / 2 % 2 * 2
bit_and-two a = omega (arith, bit_and-digit a 2, bit_and-digit (a / 2) 1, bit_and-zero (a / 2 / 2))
