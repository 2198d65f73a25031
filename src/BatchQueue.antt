-- ===== src/BatchQueue.antt =====
-- `SpinLock`, `Batch` and `BatchQueue` of backend/nam/utils/BatchQueue.hpp. The batches are an array
-- and a `B*` is an index into it, with `none` for nullptr; `next` links them into the two lists.
-- An operation that waits for the latch gives `none` while another thread holds it. The container
-- is a parameter, as in the source.
pub mod Chain
pub mod Inv
pub mod Histories
use rdma_synchronization.Common.{
  ℕ, zero, suc, ◌+◌, ◌-◌, ◌^◌, Bool, true, false, not, Option, none, some, List, [], ◌∷◌, ◌==◌,
  if◌then◌else◌, update, ℕ_discrete, ltb, length, set, get_or, replicate,
}
use rdma_synchronization.Common.Options.{◌>>=◌}
use rdma_synchronization.Common.Word.{add_u64, sub_u64}
use rdma_synchronization.Container.Interface.{Container}

-- `lock_.exchange(v)`: the old value, and the new one.
exchange : Bool → Bool → Bool × Bool
exchange lock_ v = (lock_, v)

-- One round of `lock`; `none` is another round of spinning.
pub spin_lock : Bool → Option Bool
unfolding exchange
spin_lock lock_ = let (old, lock') = exchange lock_ true in if old then none else some lock'

pub spin_try_lock : Bool → Bool × Bool
unfolding exchange
spin_try_lock lock_ =
    if lock_ then (false, lock_) else (let (old, lock') = exchange lock_ true in (not old, lock'))

pub spin_unlock : Bool → Bool
spin_unlock lock_ = false

pub record Metadata : Type 0 where
  pub head : Option ℕ
  pub size : ℕ

pub record Batch {A : Type 0} (C : Container A) : Type 0 where
  pub container : C.State
  pub next : Option ℕ

pub record BatchQueue {A : Type 0} (C : Container A) : Type 0 where
  pub elements : ℕ
  pub size : ℕ
  pub batches : ℕ → Batch C
  pub latch : Bool
  pub full : Metadata
  pub empty : Metadata

-- `histogram[idx(current)]++`; `none` is an index out of range.
pub bump : List ℕ → ℕ → Option (List ℕ)
bump histogram b =
    if ltb b (length histogram)
    then some (set histogram b (add_u64 (get_or histogram b 0) 1))
    else none

module _ {A : Type 0} (C : Container A) where
  abbrev pub Queue : Type 0
  Queue = BatchQueue C

  -- `batch->container.get_size()`
  abbrev pub size_at : Queue → ℕ → ℕ
  size_at q b = C.get_size (q.batches b).container

  -- `batch->next = p`
  abbrev pub set_next : ℕ → Option ℕ → Queue → Queue
  set_next b p q = record q { batches = update q.batches b (record (q.batches b) { next = p }) }

  unfoldable pub increment_elements : ℕ → Queue → Queue
  increment_elements inc_size q = record q { elements = add_u64 q.elements inc_size }

  pub decrement_elements : ℕ → Queue → Queue
  decrement_elements dec_size q = record q { elements = sub_u64 q.elements dec_size }

  abbrev pub lock_latch : Queue → Option Queue
  lock_latch q = spin_lock q.latch >>= λ l. some (record q { latch = l })

  abbrev pub unlock_latch : Queue → Queue
  unlock_latch q = record q { latch = spin_unlock q.latch }

  -- `batch->next = full.head; increment_elements(…); full.head = batch; full.size++`
  abbrev pub link_full : ℕ → Queue → Queue
  link_full b q =
      let q1 = set_next b q.full.head q in
      let q2 = increment_elements (size_at q1 b) q1 in
      record q2 { full = record { head = some b; size = add_u64 q2.full.size 1 } }

  -- `batch->next = empty.head; empty.head = batch; empty.size++`
  abbrev pub link_empty : ℕ → Queue → Queue
  link_empty b q =
      let q1 = set_next b q.empty.head q in
      record q1 { empty = record { head = some b; size = add_u64 q1.empty.size 1 } }

  -- `empty.head = empty.head->next; empty.size--`, where the old head is `b`
  abbrev pub unlink_empty : ℕ → Queue → Queue
  unlink_empty b q = record q {
    empty = record { head = (q.batches b).next; size = sub_u64 q.empty.size 1 };
  }

  -- `full.head = full.head->next; decrement_elements(…); full.size--`, where the old head is `b`
  abbrev pub unlink_full : ℕ → Queue → Queue
  unlink_full b q =
      let q1 = record q { full = record q.full { head = (q.batches b).next } } in
      let q2 = decrement_elements (size_at q1 b) q1 in
      record q2 { full = record q2.full { size = sub_u64 q2.full.size 1 } }

  pub try_push_full : ℕ → Queue → Option (Bool × Queue)
  unfolding spin_lock spin_unlock increment_elements
  try_push_full b q = do q1 ← lock_latch q; some (true, unlock_latch (link_full b q1))

  pub try_push_empty : ℕ → Queue → Option (Bool × Queue)
  unfolding spin_lock spin_unlock
  try_push_empty b q = do q1 ← lock_latch q; some (true, unlock_latch (link_empty b q1))

  -- The batch that goes out through the reference, `none` where the call returns false.
  pub try_pop_empty : Queue → Option (Option ℕ × Queue)
  unfolding spin_lock spin_unlock
  try_pop_empty q = do
    q1 ← lock_latch q
    elim q1.empty.head [
      | none ↦ some (none, unlock_latch q1)
      | some b ↦ some (some b, unlock_latch (unlink_empty b q1))
    ]

  -- The pops that must not wait return at once where the latch is taken.
  pub try_pop_full : Queue → Option ℕ × Queue
  unfolding spin_try_lock spin_unlock decrement_elements
  try_pop_full q =
      if q.elements == 0
      then (none, q)
      else (let (locked, l) = spin_try_lock q.latch in
          let q1 = record q { latch = l } in
          if not locked then (none, q1) else elim q1.full.head [
            | none ↦ (none, unlock_latch q1)
            | some b ↦ (some b, unlock_latch (unlink_full b q1))
          ])

  -- What the caller's reference names afterwards, and whether the call returns true.
  -- `while (!latch.try_lock()) ;` waits as `lock` does.
  pub push_full_and_try_pop_empty : ℕ → Queue → Option (Bool × ℕ × Queue)
  unfolding spin_try_lock spin_unlock increment_elements
  push_full_and_try_pop_empty batch q =
      let (locked, l) = spin_try_lock q.latch in
      let q1 = record q { latch = l } in
      if not locked then none else elim q1.empty.head [
        | none ↦ some (false, batch, unlock_latch q1)
        | some b ↦ let q2 = link_full batch q1 in some (true, b, unlock_latch (unlink_empty b q2))
      ]

  pub push_empty_and_try_pop_full : ℕ → Queue → Bool × ℕ × Queue
  unfolding spin_try_lock spin_unlock decrement_elements
  push_empty_and_try_pop_full batch q =
      if q.elements == 0
      then (false, batch, q)
      else (let (locked, l) = spin_try_lock q.latch in
          let q1 = record q { latch = l } in
          if not locked then (false, batch, q1) else elim q1.full.head [
            | none ↦ (false, batch, unlock_latch q1)
            | some b ↦ let q2 = link_empty batch q1 in (true, b, unlock_latch (unlink_full b q2))
          ])

  -- The calls that wait: each is repeated until it returns true. `none` is a wait that has not
  -- ended after `fuel` rounds.
  pub pop_empty : ℕ → Queue → Option (ℕ × Queue)
  pop_empty zero q = none
  pop_empty (suc fuel) q = do
    (ret, q1) ← try_pop_empty q
    elim ret [ none ↦ pop_empty fuel q1 | some b ↦ some (b, q1) ]

  pub pop_full : ℕ → Queue → Option (ℕ × Queue)
  pop_full zero q = none
  pop_full (suc fuel) q =
      let (ret, q1) = try_pop_full q in elim ret [ none ↦ pop_full fuel q1 | some b ↦ some (b, q1) ]

  -- The pushes always return true, so that one round is enough.
  pub push_empty : ℕ → Queue → Option Queue
  push_empty b q = do (done, q1) ← try_push_empty b q; some q1

  pub push_full : ℕ → Queue → Option Queue
  push_full b q = do (done, q1) ← try_push_full b q; some q1

  pub approx_size : Queue → ℕ
  approx_size q = q.elements

  -- False is the exception.
  pub assert_no_leaks : Queue → Bool
  assert_no_leaks q = add_u64 q.empty.size q.full.size == q.size

  -- The constructor, given the number of batches: each is pushed on the empty list in turn.
  push_empties : ℕ → ℕ → Queue → Option Queue
  push_empties zero b q = some q
  push_empties (suc n) b q = do (done, q1) ← try_push_empty b q; push_empties n (b + 1) q1

  -- The members as they are initialised, before the body of the constructor runs.
  abbrev pub initial : ℕ → Queue
  initial size = record {
    elements = 0;
    size = size;
    batches = λ _. record { container = C.new; next = none };
    latch = false;
    full = record { head = none; size = 0 };
    empty = record { head = none; size = 0 };
  }

  pub new_queue : ℕ → Option Queue
  new_queue size = push_empties size 0 (initial size)

  -- One round of the loop of `reset`, given what `try_pop_full` does; `again` is the next round.
  reset_round : Option ℕ × Queue → (Queue → Option Queue) → Option Queue
  reset_round (none, q1) again = some q1
  reset_round (some b, q1) again =
      let cleaned = record (q1.batches b) { container = C.reset (q1.batches b).container } in
      do (rc, q2) ← try_push_empty b (record q1 { batches = update q1.batches b cleaned }); again q2

  -- Each full batch is popped, cleaned and pushed on the empty list, until a pop fails. `fuel`
  -- bounds the rounds; `none` also stands for a latch that another thread holds.
  reset_loop : ℕ → Queue → Option Queue
  reset_loop zero q = none
  reset_loop (suc fuel) q = reset_round (try_pop_full q) (reset_loop fuel)

  -- The two walks over `next`; `none` is a walk that has not ended after `fuel` steps.
  pub count_fulls : ℕ → Queue → Option ℕ → List ℕ → Option (List ℕ)
  count_fulls fuel q none histogram = some histogram
  count_fulls zero q (some current) histogram = none
  count_fulls (suc fuel) q (some current) histogram = do
    counted ← bump histogram current
    count_fulls fuel q (q.batches current).next counted

  -- False is the exception.
  pub check_empties : ℕ → Queue → Option ℕ → List ℕ → Option Bool
  check_empties fuel q none histogram = some true
  check_empties zero q (some current) histogram = none
  check_empties (suc fuel) q (some current) histogram = do
    counted ← bump histogram current
    elim (ltb 1 (get_or counted current 0)) [
      | true ↦ some false
      | false ↦ check_empties fuel q (q.batches current).next counted
    ]

  -- A list of distinct batches ends within as many steps as there are batches.
  pub assert_no_duplicates : Queue → Option Bool
  assert_no_duplicates q = do
    histogram ← count_fulls q.size q q.full.head (replicate q.size 0)
    check_empties q.size q q.empty.head histogram

  -- An exception of the last check is `none`, too.
  pub reset : ℕ → Queue → Option Queue
  reset fuel q = if q.full.size == 0 then some q else (do
    q1 ← reset_loop fuel q
    unique ← assert_no_duplicates q1
    if unique then some q1 else none)
