-- ===== src/Random.antt =====
-- The generators of backend/nam/utils: `MersenneTwister`, `Xorshift64star` and `RandomGenerator` of
-- RandomGenerator.hpp and RandomGenerator.cpp, `FNV` of FNVHash.cpp and `ScrambledZipfGenerator`. What
-- `std::random_device` and the Zipf distribution draw are arguments.
pub mod Words
pub mod Twister
pub mod Bounds
use rdma_synchronization.Common.{
  ℕ, zero, suc, ◌+◌, ◌-◌, ◌*◌, ◌/◌, ◌%◌, ◌^◌, Bool, true, false, Option, none, some, List, [], ◌∷◌,
  ◌==◌, ltb, leb, ◌&&◌, if◌then◌else◌, length, set, replicate, bit_and,
}
use rdma_synchronization.Common.Options.{◌>>=◌}
use rdma_synchronization.Common.Word.{add_u64, sub_u64}
use Prim.Native.Nat.{bit_or, bit_xor}

-- `x >> k` and `x << k` on 64 bits
abbrev pub shr : ℕ → ℕ → ℕ
shr x k = x / 2 ^ k

abbrev pub shl : ℕ → ℕ → ℕ
shl x k = (x * 2 ^ k) % 2 ^ 64

abbrev pub mul_u64 : ℕ → ℕ → ℕ
mul_u64 x y = (x * y) % 2 ^ 64

-- `mt[i]` and `mt[i] = v`; `none` is an index out of range.
unfoldable pub at : List ℕ → ℕ → Option ℕ
at [] i = none
at (x ∷ xs) zero = some x
at (x ∷ xs) (suc i) = at xs i

unfoldable pub put : List ℕ → ℕ → ℕ → Option (List ℕ)
put xs i v = if ltb i (length xs) then some (set xs i v) else none

abbrev pub nn : ℕ
nn = 312

abbrev pub mm : ℕ
mm = 156

pub record MersenneTwister : Type 0 where
  pub mt : List ℕ
  pub mti : ℕ

-- The loop of `init`, from index `mti` on, `count` rounds.
unfoldable pub init_loop : ℕ → ℕ → List ℕ → Option (List ℕ)
init_loop zero mti mt = some mt
init_loop (suc count) mti mt = do
  previous ← at mt (mti - 1)
  next ← put mt mti (add_u64 (mul_u64 6364136223846793005 (bit_xor previous (shr previous 62))) mti)
  init_loop count (mti + 1) next

unfoldable pub init : ℕ → List ℕ → Option MersenneTwister
init seed mt = do
  first ← put mt 0 seed
  filled ← init_loop (nn - 1) 1 first
  some (record { mt = filled; mti = nn })

-- The constructor: the counter of generators and what the random device draws go into the seed.
pub new_twister : ℕ → ℕ → ℕ → Option MersenneTwister
unfolding init
new_twister seed mt_counter drawn = init (bit_xor (bit_xor seed mt_counter) drawn) (replicate nn 0)

-- `(a & UM) | (b & LM)`, and the word that `c` is combined with it.
abbrev pub joined : ℕ → ℕ → ℕ
joined a b = bit_or (bit_and a 0xFFFFFFFF80000000) (bit_and b 0x7FFFFFFF)

abbrev pub mag01 : ℕ → ℕ
mag01 zero = 0
mag01 (suc x) = 0xB5026F5AA96619E9

abbrev pub mixed : ℕ → ℕ → ℕ
mixed c x = bit_xor (bit_xor c (shr x 1)) (mag01 (bit_and x 1))

-- The word at place `i` from its upper bits, the lower bits of the word after it and the word at `from`.
unfoldable pub twist : ℕ → ℕ → ℕ → List ℕ → Option (List ℕ)
twist i next from mt = do
  a ← at mt i
  b ← at mt next
  c ← at mt from
  put mt i (mixed c (joined a b))

-- The two loops, `count` rounds from `i` on.
unfoldable pub twist_up : ℕ → ℕ → List ℕ → Option (List ℕ)
twist_up zero i mt = some mt
twist_up (suc count) i mt = do mt1 ← twist i (i + 1) (i + mm) mt; twist_up count (i + 1) mt1

unfoldable pub twist_down : ℕ → ℕ → List ℕ → Option (List ℕ)
twist_down zero i mt = some mt
twist_down (suc count) i mt = do
  mt1 ← twist i (i + 1) (i + mm - nn) mt
  twist_down count (i + 1) mt1

unfoldable pub generate : List ℕ → Option (List ℕ)
generate mt = do
  mt1 ← twist_up (nn - mm) 0 mt
  mt2 ← twist_down (mm - 1) (nn - mm) mt1
  twist (nn - 1) 0 (mm - 1) mt2

abbrev pub temper : ℕ → ℕ
temper x =
    let x1 = bit_xor x (bit_and (shr x 29) 0x5555555555555555) in
    let x2 = bit_xor x1 (bit_and (shl x1 17) 0x71D67FFFEDA60000) in
    let x3 = bit_xor x2 (bit_and (shl x2 37) 0xFFF7EEE000000000) in bit_xor x3 (shr x3 43)

unfoldable pub refresh : MersenneTwister → Option MersenneTwister
refresh g =
    if leb nn g.mti then (do mt ← generate g.mt; some (record { mt = mt; mti = 0 })) else some g

unfoldable pub rnd : MersenneTwister → Option (ℕ × MersenneTwister)
rnd g = do g1 ← refresh g; x ← at g1.mt g1.mti; some (temper x, record g1 { mti = g1.mti + 1 })

-- `Xorshift64star::rnd`: the number, and the next seed.
unfoldable xorshift_rnd : ℕ → ℕ × ℕ
xorshift_rnd seed =
    let x1 = bit_xor seed (shr seed 12) in
    let x2 = bit_xor x1 (shl x1 25) in
    let x3 = bit_xor x2 (shr x2 27) in (mul_u64 x3 0x2545F4914F6CDD1D, x3)

-- `getRandU64` on the number that the generator draws; `none` is a division by 0 or an `ensure`.
unfoldable pub get_rand_u64 : ℕ → ℕ → ℕ → Option ℕ
get_rand_u64 drawn min max =
    if sub_u64 max min == 0
    then none
    else (let rand = add_u64 min (drawn % sub_u64 max min) in
        if ltb rand max && leb min rand then some rand else none)

unfoldable pub get_rand_u64_power_two : ℕ → ℕ → ℕ
get_rand_u64_power_two drawn max_power_two = bit_and drawn (sub_u64 max_power_two 1)

-- `FNV::hash`, `count` rounds of its loop.
unfoldable pub hash_loop : ℕ → ℕ → ℕ → ℕ
hash_loop zero val hash_val = hash_val
hash_loop (suc count) val hash_val =
    let octet = bit_and val 0x00ff in
    hash_loop count (shr val 8) (mul_u64 (bit_xor hash_val octet) 1099511628211)

unfoldable pub hash : ℕ → ℕ
hash val = hash_loop 8 val 0xCBF29CE484222325

-- `ScrambledZipfGenerator::rand` on the value that the distribution draws, `n` being `max - min`;
-- `none` is a division by 0.
unfoldable pub scrambled_rand : ℕ → ℕ → ℕ → ℕ → Option ℕ
scrambled_rand zipf_value offset min max =
    let n = sub_u64 max min in
    if n == 0 then none else some (add_u64 min (hash (add_u64 zipf_value offset) % n))
