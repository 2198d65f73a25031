-- ===== src/Random/Bounds.antt =====
-- The numbers of `RandomGenerator` and `ScrambledZipfGenerator` are in the ranges asked for.
use rdma_synchronization.Common.{
  ℕ, ◌-◌, ◌%◌, ◌^◌, ◌<◌, ◌≤◌, ◌≡◌, ap, ◌∙◌, true, false, some, ◌==◌, ltb, leb, ◌&&◌, arith, ne→==,
  bit_and, Bool-cases, inl, inr,
}
use rdma_synchronization.Common.Word.{add_u64, sub_u64, bit_and-mask, pow_pos}
use rdma_synchronization.Common.Options.{◌>>=◌, Returns, Returns-result}
use rdma_synchronization.Random.{
  MersenneTwister, rnd, get_rand_u64, get_rand_u64_power_two, hash, scrambled_rand,
}
use rdma_synchronization.Random.Twister.{IsValid, rnd_lem}
use native.Mathlib.Nat.{mod-lt, pow-le-pow_right}

module _ (min max : ℕ) (lt : min < max) (fits : max < 2 ^ 64) where
  width : sub_u64 max min ≡ max - min
  width = omega arith

  wide : (sub_u64 max min == 0) ≡ false
  wide = ne→== _ _ (omega (arith, width))

  in_range : (x : ℕ) → let r = add_u64 min (x % sub_u64 max min) in (min ≤ r) × (r < max)
  in_range x =
      let below : x % sub_u64 max min < sub_u64 max min = mod-lt x (omega (arith, width)) in
      omega (arith, below, width)

  -- A generator that is ready draws, for a range that is not empty, a number of the range, so that
  -- neither `ensure` of `getRandU64` throws; and it is ready again.
  pub get_rand_u64_lem :
      (g : MersenneTwister)
      → IsValid g
      → Returns
          (do (drawn, g') ← rnd g; r ← get_rand_u64 drawn min max; some (r, g'))
          (λ (r, g'). (min ≤ r) × (r < max) × IsValid g')
  unfolding get_rand_u64
  get_rand_u64_lem g v =
      let ((x, g'), e, w) = Returns-result (rnd g) (rnd_lem g v) in
      let r = in_range x in
      let fine : (ltb (add_u64 min (x % sub_u64 max min)) max
            && leb min (add_u64 min (x % sub_u64 max min)))
          ≡ true =
        ground (arith, r) in
      rw (e, wide, fine) (r.0, r.1, w.1)

  -- `ScrambledZipfGenerator::rand` stays in a range that is not empty, whatever the distribution and
  -- the offset.
  scrambled_rand_lem :
      (zipf_value offset : ℕ)
      → Returns (scrambled_rand zipf_value offset min max) (λ r. (min ≤ r) × (r < max))
  unfolding scrambled_rand
  scrambled_rand_lem zipf_value offset = rw wide (in_range (hash (add_u64 zipf_value offset)))

-- `getRandU64PowerTwo` on a power of two is the remainder by it.
get_rand_u64_power_two_lem :
    (drawn k : ℕ) → k < 64 → get_rand_u64_power_two drawn (2 ^ k) ≡ drawn % 2 ^ k
unfolding get_rand_u64_power_two
get_rand_u64_power_two_lem drawn k lt = ap (bit_and drawn) less_one ∙ bit_and-mask k drawn
  where
    less_one : sub_u64 (2 ^ k) 1 ≡ 2 ^ k - 1
    less_one =
        omega
          (arith, pow_pos k, pow-le-pow_right {n = 2} (omega arith) {i = k} {j = 63} (omega arith))

-- A number that `getRandU64` returns has passed both `ensure`.
pub get_rand_u64_bounds :
    (drawn min max r : ℕ) → get_rand_u64 drawn min max ≡ some r → (min ≤ r) × (r < max)
unfolding get_rand_u64
get_rand_u64_bounds drawn min max r e = elim (Bool-cases (sub_u64 max min == 0)) [
  | inl h ↦ absurd (ground (arith, e, h))
  | inr h ↦
      let rand = add_u64 min (drawn % sub_u64 max min) in
      elim (Bool-cases (ltb rand max && leb min rand)) [
        | inl k ↦ ground (arith, e, h, k)
        | inr k ↦ absurd (ground (arith, e, h, k))
      ]
]
