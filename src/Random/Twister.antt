-- ===== src/Random/Twister.antt =====
-- `MersenneTwister` never reads or writes outside its array, and draws 64-bit words.
use rdma_synchronization.Common.{
  ℕ, zero, suc, ◌+◌, ◌-◌, ◌^◌, ◌<◌, ◌≤◌, ◌≡◌, ◌∙◌, true, List, [], ◌∷◌, leb, ltb, arith, length,
  set, length-set, replicate, length-replicate, All, Bool-cases, inl, inr, bit_and,
}
use rdma_synchronization.Common.Word.{add_u64}
use rdma_synchronization.Common.Options.{Returns, Returns-result}
use rdma_synchronization.Random.{
  at, put, nn, mm, MersenneTwister, init_loop, init, new_twister, joined, mag01, mixed, twist,
  twist_up, twist_down, generate, temper, refresh, rnd, shr, shl, mul_u64,
}
use rdma_synchronization.Random.Words.{bit_and-lt, bit_or-lt, bit_xor-lt, shr-lt}
use Prim.Native.Nat.{bit_xor}

abbrev pub Word : ℕ → Type 0
Word x = x < 2 ^ 64

-- The array: `NN` words of 64 bits.
pub record Words (mt : List ℕ) : Type 0 where
  pub size : length mt ≡ nn
  pub words : All Word mt

pub record IsValid (g : MersenneTwister) : Type 0 where
  pub array : Words g.mt
  pub index : g.mti ≤ nn

at_lem : (xs : List ℕ) (i : ℕ) → All Word xs → i < length xs → Returns (at xs i) Word
unfolding at
at_lem [] i a lt = absurd (omega arith)
at_lem (x ∷ xs) zero a lt = a.0
at_lem (x ∷ xs) (suc i) a lt = at_lem xs i a.1 (omega arith)

All-set : (xs : List ℕ) (i v : ℕ) → All Word xs → Word v → All Word (set xs i v)
All-set [] i v a w = tt
All-set (x ∷ xs) zero v a w = (w, a.1)
All-set (x ∷ xs) (suc i) v a w = (a.0, All-set xs i v a.1 w)

All-replicate : (n : ℕ) → All Word (replicate n 0)
All-replicate zero = tt
All-replicate (suc n) = (omega arith, All-replicate n)

module _ (mt : List ℕ) (w : Words mt) where
  put_lem : (i v : ℕ) → i < nn → Word v → Returns (put mt i v) Words
  unfolding put
  put_lem i v lt word =
      let inside : ltb i (length mt) ≡ true = ground (arith, w.size) in
      rw inside (record { size = length-set mt i v ∙ w.size; words = All-set mt i v w.words word })

  read : (i : ℕ) → i < nn → Returns (at mt i) Word
  read i lt = at_lem mt i w.words (omega (arith, w.size))

mag01-Word : (x : ℕ) → Word (mag01 x)
mag01-Word zero = omega arith
mag01-Word (suc x) = omega arith

mixed-Word : (a b c : ℕ) → Word a → Word b → Word c → Word (mixed c (joined a b))
mixed-Word a b c wa wb wc =
    let high = bit_and-lt 64 a 0xFFFFFFFF80000000 wa (omega arith) in
    let low = bit_and-lt 64 b 0x7FFFFFFF wb (omega arith) in
    let x = bit_or-lt 64 _ _ high low in
    bit_xor-lt 64 _ _ (bit_xor-lt 64 _ _ wc (shr-lt (joined a b) 1 (2 ^ 64) x))
      (mag01-Word (bit_and (joined a b) 1))

twist_lem :
    (i next from : ℕ) (mt : List ℕ)
    → i < nn
    → next < nn
    → from < nn
    → Words mt
    → Returns (twist i next from mt) Words
unfolding twist
twist_lem i next from mt li ln lf w =
    let (a, ea, wa) = Returns-result (at mt i) (read mt w i li) in
    let (b, eb, wb) = Returns-result (at mt next) (read mt w next ln) in
    let (c, ec, wc) = Returns-result (at mt from) (read mt w from lf) in
    rw (ea, eb, ec) (put_lem mt w i (mixed c (joined a b)) li (mixed-Word a b c wa wb wc))

twist_up_lem :
    (count i : ℕ) (mt : List ℕ)
    → i + count ≤ nn - mm
    → Words mt
    → Returns (twist_up count i mt) Words
unfolding twist_up
twist_up_lem zero i mt le w = w
twist_up_lem (suc count) i mt le w =
    let (mt1, e, w1) =
      Returns-result (twist i (i + 1) (i + mm) mt)
        (twist_lem i (i + 1) (i + mm) mt (omega arith) (omega arith) (omega arith) w) in
    rw e (twist_up_lem count (i + 1) mt1 (omega arith) w1)

twist_down_lem :
    (count i : ℕ) (mt : List ℕ)
    → nn - mm ≤ i
    → i + count < nn
    → Words mt
    → Returns (twist_down count i mt) Words
unfolding twist_down
twist_down_lem zero i mt ge lt w = w
twist_down_lem (suc count) i mt ge lt w =
    let (mt1, e, w1) =
      Returns-result (twist i (i + 1) (i + mm - nn) mt)
        (twist_lem i (i + 1) (i + mm - nn) mt (omega arith) (omega arith) (omega arith) w) in
    rw e (twist_down_lem count (i + 1) mt1 (omega arith) (omega arith) w1)

generate_lem : (mt : List ℕ) → Words mt → Returns (generate mt) Words
unfolding generate
generate_lem mt w =
    let (mt1, e1, w1) =
      Returns-result (twist_up (nn - mm) 0 mt) (twist_up_lem (nn - mm) 0 mt (omega arith) w) in
    let (mt2, e2, w2) =
      Returns-result (twist_down (mm - 1) (nn - mm) mt1)
        (twist_down_lem (mm - 1) (nn - mm) mt1 (omega arith) (omega arith) w1) in
    rw (e1, e2) (twist_lem (nn - 1) 0 (mm - 1) mt2 (omega arith) (omega arith) (omega arith) w2)

temper-Word : (x : ℕ) → Word x → Word (temper x)
temper-Word x w = bit_xor-lt 64 x3 (shr x3 43) w3 (shr-lt x3 43 (2 ^ 64) w3)
  where
    x1 : ℕ
    x1 = bit_xor x (bit_and (shr x 29) 0x5555555555555555)

    w1 : Word x1
    w1 =
        bit_xor-lt 64 _ _ w
          (bit_and-lt 64 (shr x 29) 0x5555555555555555 (shr-lt x 29 (2 ^ 64) w) (omega arith))

    x2 : ℕ
    x2 = bit_xor x1 (bit_and (shl x1 17) 0x71D67FFFEDA60000)

    w2 : Word x2
    w2 =
        bit_xor-lt 64 _ _ w1
          (bit_and-lt 64 (shl x1 17) 0x71D67FFFEDA60000 (omega arith) (omega arith))

    x3 : ℕ
    x3 = bit_xor x2 (bit_and (shl x2 37) 0xFFF7EEE000000000)

    w3 : Word x3
    w3 =
        bit_xor-lt 64 _ _ w2
          (bit_and-lt 64 (shl x2 37) 0xFFF7EEE000000000 (omega arith) (omega arith))

refresh_lem :
    (g : MersenneTwister) → IsValid g → Returns (refresh g) (λ g'. Words g'.mt × (g'.mti < nn))
unfolding refresh
refresh_lem g v = elim (Bool-cases (leb nn g.mti)) [
  | inl h ↦
      let (mt, e, w) = Returns-result (generate g.mt) (generate_lem g.mt v.array) in
      rw (h, e) (w, omega arith)
  | inr h ↦ rw h (v.array, ground (arith, h))
]

-- `rnd` returns a 64-bit word and leaves the generator ready for the next call.
pub rnd_lem : (g : MersenneTwister) → IsValid g → Returns (rnd g) (λ (x, g'). Word x × IsValid g')
unfolding rnd
rnd_lem g v =
    let (g1, e, ready) = Returns-result (refresh g) (refresh_lem g v) in
    let (x, e2, w) = Returns-result (at g1.mt g1.mti) (read g1.mt ready.0 g1.mti ready.1) in
    rw (e, e2) (temper-Word x w, record { array = ready.0; index = omega (arith, ready.1) })

init_loop_lem :
    (count mti : ℕ) (mt : List ℕ)
    → 1 ≤ mti
    → mti + count ≤ nn
    → Words mt
    → Returns (init_loop count mti mt) Words
unfolding init_loop
init_loop_lem zero mti mt ge le w = w
init_loop_lem (suc count) mti mt ge le w =
    let (previous, e, wp) = Returns-result (at mt (mti - 1)) (read mt w (mti - 1) (omega arith)) in
    let v = add_u64 (mul_u64 6364136223846793005 (bit_xor previous (shr previous 62))) mti in
    let (next, e2, wn) =
      Returns-result (put mt mti v) (put_lem mt w mti v (omega arith) (omega arith)) in
    rw (e, e2) (init_loop_lem count (mti + 1) next (omega arith) (omega arith) wn)

init_lem : (seed : ℕ) (mt : List ℕ) → Word seed → Words mt → Returns (init seed mt) IsValid
unfolding init
init_lem seed mt ws w =
    let (first, e, wf) = Returns-result (put mt 0 seed) (put_lem mt w 0 seed (omega arith) ws) in
    let (filled, e2, w2) =
      Returns-result (init_loop (nn - 1) 1 first)
        (init_loop_lem (nn - 1) 1 first (omega arith) (omega arith) wf) in
    rw (e, e2) (record { array = w2; index = omega arith })

-- The constructor returns a generator that is ready, whatever the seed and the random device draw.
pub new_twister_lem :
    (seed mt_counter drawn : ℕ)
    → Word seed
    → Word mt_counter
    → Word drawn
    → Returns (new_twister seed mt_counter drawn) IsValid
unfolding new_twister
new_twister_lem seed mt_counter drawn ws wc wd =
    init_lem _ (replicate nn 0) (bit_xor-lt 64 _ drawn (bit_xor-lt 64 seed mt_counter ws wc) wd)
      (record { size = length-replicate {A = ℕ} nn 0; words = All-replicate nn })
