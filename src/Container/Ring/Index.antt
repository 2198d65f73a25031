-- ===== src/Container/Ring/Index.antt =====
-- Indices modulo a power of two: a wrapped counter has the remainder of the unwrapped one, and
-- fewer than `n` steps round an array of `n` places do not come back to the start.
use Prim.Native.Nat.{◌∣◌}
use rdma_synchronization.Common.{
  ℕ, zero, suc, ◌+◌, ◌-◌, ◌%◌, ◌^◌, ◌≤◌, ◌<◌, ◌≡◌, ◌≢◌, arith, dec_lt,
}
use native.Mathlib.Nat.{
  add-zero, add-suc, pow-suc, mod-lt, mod-eq_of_lt, mod-eq-sub-mod, mod-mod_of_dvd, mod-add-mod,
  dvd_refl, dvd-mul_right_of_dvd, pow-le-pow_right,
}

pow-dvd-add : (k m : ℕ) → 2 ^ k ∣ 2 ^ (k + m)
pow-dvd-add k zero = rw add-zero (dvd_refl (2 ^ k))
pow-dvd-add k (suc m) = rw (add-suc, pow-suc) (dvd-mul_right_of_dvd (2 ^ k) (pow-dvd-add k m) 2)

pow-dvd : (k n : ℕ) → k ≤ n → 2 ^ k ∣ 2 ^ n
pow-dvd k n h = let e : n ≡ k + (n - k) = omega arith in rw e (pow-dvd-add k (n - k))

pub wrap-mod : (k x : ℕ) → k ≤ 64 → x % 2 ^ 64 % 2 ^ k ≡ x % 2 ^ k
wrap-mod k x h = mod-mod_of_dvd (2 ^ k) {b = 2 ^ 64} x (pow-dvd k 64 h)

pub pow-le : (k : ℕ) → k ≤ 63 → 2 ^ k ≤ 2 ^ 63
pow-le k h = pow-le-pow_right {n = 2} (omega arith) h

pub add-mod-ne : (n h s : ℕ) → suc s < n → (h + suc s) % n ≢ h % n
add-mod-ne n h s lt e = elim (dec_lt (h % n + suc s) n) [
  | yes below ↦ omega (arith, e, mod-add-mod h n (suc s), mod-eq_of_lt below)
  | no above ↦ omega (
    arith,
    e,
    mod-lt h {m = n} (omega arith),
    mod-add-mod h n (suc s),
    mod-eq-sub-mod {n = h % n + suc s} {m = n} (omega arith),
    mod-eq_of_lt {n = h % n + suc s - n} {m = n} (omega (arith, mod-lt h {m = n} (omega arith))),
  )
]
