-- ===== src/Container/Ring/Refine.antt =====
-- A ring buffer is a FIFO queue of at most `2 ^ k` elements, for every `k` below 64, also when its
-- counters wrap.
use rdma_synchronization.Common.{
  ℕ, zero, suc, ◌+◌, ◌-◌, ◌%◌, ◌^◌, ◌≤◌, ◌<◌, ◌≡◌, ◌≢◌, refl, sym, ◌∙◌, ap, List, [], ◌∷◌, ◌++◌,
  inl, inr, arith, Bool-cases, ==→eq, eq→==, ◌==◌, length, length-set, get_or, set, get_or-set_self,
  get_or-set_ne, length-replicate,
}
use rdma_synchronization.Common.Word.{add_u64, sub_u64, bit_and-mask}
use rdma_synchronization.Container.Interface.{Container, bounded_push, pop_front}
use rdma_synchronization.Container.Ring.{
  RingBuffer, new_ring, mask, get_size, try_push, try_pop, reset,
}
use rdma_synchronization.Container.Ring.Index.{wrap-mod, pow-le, add-mod-ne}
use mathlib.Core.Path.{ap₂}
use native.Mathlib.Nat.{add-zero, mod-lt, mod-add-mod}

module _ {A : Type 0} (d : A) (n : ℕ) where
  -- The `m` elements from the unmasked index `i` on.
  abbrev pub window : List A → ℕ → ℕ → List A
  window buf i zero = []
  window buf i (suc m) = get_or buf (i % n) d ∷ window buf (i + 1) m

  pub length-window : (buf : List A) (i m : ℕ) → length (window buf i m) ≡ m
  length-window buf i zero = refl
  length-window buf i (suc m) = ap suc (length-window buf (i + 1) m)

  pub window-mod : (buf : List A) (i j m : ℕ) → i % n ≡ j % n → window buf i m ≡ window buf j m
  window-mod buf i j zero e = refl
  window-mod buf i j (suc m) e = ap₂ ◌∷◌ (ap (λ t. get_or buf t d) e) (
      window-mod buf (i + 1) (j + 1) m
        (sym (mod-add-mod i n 1) ∙ ap (λ t. (t + 1) % n) e ∙ mod-add-mod j n 1))

  pub window-set :
      (buf : List A) (x : A) (m i j : ℕ)
      → length buf ≡ n
      → m < n
      → j ≡ (i + m) % n
      → window (set buf j x) i (suc m) ≡ window buf i m ++ (x ∷ [])
  window-set buf x zero i j l lt e =
      ap (λ t. t ∷ []) (rw (e, add-zero) (get_or-set_self buf (i % n) x d (rw l (mod-lt i lt))))
  window-set buf x (suc m) i j l lt e =
      ap₂ ◌∷◌ (get_or-set_ne buf j (i % n) x d (rw e (add-mod-ne n i m lt)))
        (window-set buf x m (i + 1) j l (omega arith) (e ∙ ap (λ t. t % n) (omega arith)))

module _ {A : Type 0} (k : ℕ) (d : A) (small : k ≤ 63) where
  abbrev pub contents : RingBuffer A → List A
  contents r = window d (2 ^ k) r.buffer r.read (get_size k d r)

  pub record IsValid (r : RingBuffer A) : Type 0 where
    pub read_fits : r.read < 2 ^ 64
    pub write_fits : r.write < 2 ^ 64
    pub size_le : get_size k d r ≤ 2 ^ k
    pub storage : length r.buffer ≡ 2 ^ k

  pub length-contents : (r : RingBuffer A) → length (contents r) ≡ get_size k d r
  length-contents r = length-window d (2 ^ k) r.buffer r.read (get_size k d r)

  mask-eq-mod : (x : ℕ) → mask k d x ≡ x % 2 ^ k
  unfolding mask
  mask-eq-mod x = bit_and-mask k x

  -- The place that a push writes, counted from `read` without wrapping.
  mask-write : {r : RingBuffer A} → IsValid r → mask k d r.write ≡ (r.read + get_size k d r) % 2 ^ k
  unfolding get_size
  mask-write {r} v =
      mask-eq-mod r.write ∙ ap (λ t. t % 2 ^ k) unwrap ∙ wrap-mod k (r.read + size) (omega arith)
    where
      open v use {read_fits, write_fits}

      size : ℕ
      size = get_size k d r

      unwrap : r.write ≡ (r.read + size) % 2 ^ 64
      unwrap = omega arith

  pub new_lem : IsValid (new_ring k d) × (contents (new_ring k d) ≡ [])
  unfolding new_ring get_size
  new_lem = (
    record {
      read_fits = omega arith;
      write_fits = omega arith;
      size_le = omega arith;
      storage = length-replicate (2 ^ k) d;
    },
    refl,
  )

  -- What a push that finds room leaves behind.
  put_lem :
      (e : A) (r : RingBuffer A)
      → IsValid r
      → get_size k d r ≢ 2 ^ k
      → let r' = record r {
        buffer = set r.buffer (mask k d r.write) e;
        write = add_u64 r.write 1;
      } in
        IsValid r' × (contents r' ≡ contents r ++ (e ∷ []))
  unfolding get_size
  put_lem e r v room = (
    record {
      read_fits = v.read_fits;
      write_fits = omega arith;
      size_le = rw grown (omega (arith, v.size_le, room));
      storage = length-set r.buffer (mask k d r.write) e ∙ v.storage;
    },
    rw grown (
        window-set d (2 ^ k) r.buffer e size r.read (mask k d r.write) v.storage
          (omega (arith, v.size_le, room)) (mask-write v)),
  )
    where
      size : ℕ
      size = get_size k d r

      grown : sub_u64 (add_u64 r.write 1) r.read ≡ suc size
      grown = omega (arith, v.size_le, v.read_fits, v.write_fits, pow-le k small)

  pub push_lem :
      (e : A) (r : RingBuffer A)
      → IsValid r
      → let (b, r') = try_push k d e r in
        IsValid r' × ((b, contents r') ≡ bounded_push (λ x l. l ++ (x ∷ [])) (2 ^ k) e (contents r))
  unfolding try_push bounded_push
  push_lem e r v = elim (Bool-cases (get_size k d r == 2 ^ k)) [
    | inl filled ↦ ground (arith, length-contents r)
    | inr room ↦ ground (arith, length-contents r, put_lem e r v (λ q. cc (eq→== _ _ q)))
  ]

  -- What a pop that finds an element leaves behind.
  take_lem :
      (r : RingBuffer A)
      → IsValid r
      → r.read ≢ r.write
      → let r' = record r { read = add_u64 r.read 1 } in
        IsValid r' × (contents r ≡ get_or r.buffer (mask k d r.read) d ∷ contents r')
  unfolding get_size
  take_lem r v some_left = (
    record {
      read_fits = omega arith;
      write_fits = v.write_fits;
      size_le = rw shrunk (omega (arith, v.size_le));
      storage = v.storage;
    },
    rw (mask-eq-mod, shrunk, ← rest) (ap (λ t. window d (2 ^ k) r.buffer r.read t) counted),
  )
    where
      size : ℕ
      size = get_size k d r

      shrunk : sub_u64 r.write (add_u64 r.read 1) ≡ size - 1
      shrunk = omega (arith, v.read_fits, v.write_fits, some_left)

      counted : size ≡ suc (size - 1)
      counted = omega (arith, v.read_fits, v.write_fits, some_left)

      rest :
          window d (2 ^ k) r.buffer (r.read + 1) (size - 1)
          ≡ window d (2 ^ k) r.buffer (add_u64 r.read 1) (size - 1)
      rest =
          window-mod d (2 ^ k) r.buffer (r.read + 1) (add_u64 r.read 1) (size - 1)
            (sym (wrap-mod k (r.read + 1) (omega arith)))

  contents-eq-nil : (r : RingBuffer A) → IsValid r → r.read ≡ r.write → contents r ≡ []
  unfolding get_size
  contents-eq-nil r v e =
      let gone : sub_u64 r.write r.read ≡ 0 = omega (arith, v.read_fits) in rw gone

  pub pop_lem :
      (r : RingBuffer A)
      → IsValid r
      → let (e, r') = try_pop k d r in IsValid r' × ((e, contents r') ≡ pop_front (contents r))
  unfolding try_pop pop_front
  pop_lem r v = elim (Bool-cases (r.read == r.write)) [
    | inl gone ↦ ground (arith, contents-eq-nil r v (==→eq _ _ gone))
    | inr left ↦ ground (arith, take_lem r v (λ q. cc (eq→== _ _ q)))
  ]

  pub reset_lem :
      (r : RingBuffer A) → IsValid r → IsValid (reset k d r) × (contents (reset k d r) ≡ [])
  unfolding reset get_size
  reset_lem r v = (
    record {
      read_fits = omega arith;
      write_fits = omega arith;
      size_le = omega arith;
      storage = v.storage;
    },
    refl,
  )

  pub get_size_fits : (r : RingBuffer A) → IsValid r → get_size k d r < 2 ^ 64
  get_size_fits r v = omega (arith, v.size_le, pow-le k small)

  -- A ring buffer of capacity `2 ^ k` is a container for batches, with first-in first-out order.
  abbrev pub ring_container : Container A
  ring_container = record {
    State = RingBuffer A;
    capacity = 2 ^ k;
    new = new_ring k d;
    try_push = try_push k d;
    try_pop = try_pop k d;
    get_size = get_size k d;
    reset = reset k d;
    IsValid = IsValid;
    contents = contents;
    add = λ x l. l ++ (x ∷ []);
    new_lem = new_lem;
    try_push_lem = push_lem;
    try_pop_lem = pop_lem;
    get_size_lem = λ r v. sym (length-contents r);
    get_size_fits = get_size_fits;
    reset_lem = reset_lem;
  }
