-- ===== src/Lock/Tail/Word.antt =====
-- What the functions of frontend/locking_benchmark_tail.cpp do to the tuple and its lock word.
use rdma_synchronization.Common.{
  ℕ, ◌+◌, ◌-◌, ◌*◌, ◌/◌, ◌<◌, ◌≡◌, refl, ◌∙◌, Bool, true, false, some, List, ◌∷◌, ◌==◌,
  if◌then◌else◌, arith, bit_and, Bool-cases, inl, inr,
}
use rdma_synchronization.Rdma.Request.{post_read}
use rdma_synchronization.Rdma.Memory.{Memory, store, copy, copy_inside}
use rdma_synchronization.Rdma.Client.{
  Nic, IsVerbs, Client, Poll, Returns, ok, faa_lem, read_lem, write_lem,
}
use rdma_synchronization.Lock.Tail.{
  Worker, lock_offset_byte, lock_offset_index, tuple_size, poll_list, poll_cq, basic_s_lock,
  s_order_release, x_unlock,
}
use rdma_synchronization.Lock.Tail.System.{Request, next_word}

module _ (nic : Nic) (verbs : IsVerbs nic) (others : ℕ → Memory → Memory) (t : Worker) (a : ℕ)
    (c : Client) where
  abbrev seen : Memory
  seen = others c.now c.world.remote

  abbrev lock_at : ℕ
  lock_at = a + lock_offset_byte

  -- The client after the fetch-and-add of a reader.
  abbrev pub after_s_lock : Client
  after_s_lock = record c {
    world = record {
      local = store c.world.local (t.old + lock_offset_byte) (seen lock_at);
      remote = store seen lock_at (next_word Request.s_lock (seen lock_at));
    };
    now = c.now + 1;
  }

  -- The client after it has read the tuple too.
  abbrev pub after_s_read : List Poll → Client
  after_s_read rest =
      let r = others after_s_lock.now after_s_lock.world.remote in
      record {
        world = record {
          local =
              copy ((tuple_size - 8) / 8)
                (nic.view (post_read t.old t.rctx true a (tuple_size - 8) 0) r) a
                after_s_lock.world.local t.old;
          remote = r;
        };
        polls = rest;
        now = c.now + 1 + 1;
      }

  -- With two successful completions to come, `basic_s_lock` adds 2 to the lock word. If the word that
  -- it fetched has the lowest bit it returns false at once, and leaves what it has added; if not, it
  -- reads the tuple and returns true.
  pub basic_s_lock-next_word :
      (more1 more2 : List Bool) (rest : List Poll)
      → c.polls ≡ some (true ∷ more1) ∷ some (true ∷ more2) ∷ rest
      → basic_s_lock nic others t a c ≡ (
          if bit_and (seen lock_at) 1 == 1
          then ok false (record after_s_lock { polls = some (true ∷ more2) ∷ rest })
          else ok true (after_s_read rest))
  unfolding basic_s_lock poll_cq poll_list next_word
  basic_s_lock-next_word more1 more2 rest polls = rw (faa_lem nic others verbs) (
      rw polls (
        rw fetched (elim (Bool-cases (bit_and (seen lock_at) 1 == 1)) [
          | inl e ↦ rw e refl
          | inr e ↦ rw e (rw (read_lem nic others verbs) refl)
        ])))
    where
      fetched :
          store c.world.local (t.old + lock_offset_byte) (seen lock_at) (t.old + lock_offset_byte)
          ≡ seen lock_at
      fetched = ground arith

  -- The write back returns, at once or with a successful completion to come; it has stored the words
  -- of the buffer in the tuple and freed the lock, whatever readers have added to its word.
  pub x_unlock-publishes :
      (more : List Bool) (rest : List Poll)
      → c.polls ≡ some (true ∷ more) ∷ rest
      → Returns (x_unlock nic others t a c) (λ c'.
        ((i : ℕ)
          → i < lock_offset_index
          → c'.world.remote (a + 8 * i) ≡ c.world.local (t.old + 8 * i))
        × (c'.world.remote lock_at ≡ next_word Request.x_unlock (seen lock_at)))
  unfolding x_unlock poll_cq poll_list next_word
  x_unlock-publishes more rest polls = elim (Bool-cases t.order_release) [
    | inl e ↦ rw (e, write_lem nic others verbs) (words, free)
    | inr e ↦ rw (e, write_lem nic others verbs) (rw polls (words, free))
  ]
    where
      l : Memory
      l = store c.world.local (t.old + lock_offset_byte) 0

      words :
          (i : ℕ)
          → i < lock_offset_index
          → copy (tuple_size / 8) l t.old seen a (a + 8 * i) ≡ c.world.local (t.old + 8 * i)
      words i lt = copy_inside (tuple_size / 8) l t.old seen a i (omega arith) ∙ ground arith

      free : copy (tuple_size / 8) l t.old seen a lock_at ≡ 0
      free = copy_inside (tuple_size / 8) l t.old seen a 7 (omega arith) ∙ ground arith

  -- The release of a reader under FLAGS_order_release does not touch the lock word: it adds to the
  -- address that is the index of that word, not its offset, behind the start of the tuple.
  pub s_order_release_misses :
      Returns (s_order_release nic others t a c) (λ c'. c'.world.remote lock_at ≡ seen lock_at)
  unfolding s_order_release
  s_order_release_misses = rw (faa_lem nic others verbs) (ground arith)
