-- ===== src/Lock/ReaderWriter/Word.antt =====
-- What the functions of frontend/locking_benchmark.cpp do to the lock word: each request is one step
-- of `next_word`.
use rdma_synchronization.Common.{
  ℕ, ◌+◌, ◌-◌, ◌/◌, ◌≡◌, refl, Bool, true, false, some, List, ◌∷◌, ◌==◌, leb, if◌then◌else◌, arith,
  Bool-cases, inl, inr, ◌∙◌,
}
use rdma_synchronization.Rdma.Request.{post_read}
use rdma_synchronization.Rdma.Memory.{Memory, store, store_self, copy, copy_outside}
use rdma_synchronization.Rdma.Client.{
  Nic, IsVerbs, Client, Poll, ok, wait_completion, wait_list, cas_lem, faa_lem, read_lem,
}
use rdma_synchronization.Lock.Config.{exclusive_locked, unlocked}
use rdma_synchronization.Lock.ReaderWriter.{
  Worker, x_unlock, basic_x_lock, speculative_read_x_lock, s_unlock, basic_s_lock,
  speculative_read_s_lock,
}
use rdma_synchronization.Lock.ReaderWriter.System.{Request, next_word}

module _ (nic : Nic) (verbs : IsVerbs nic) (others : ℕ → Memory → Memory) where
  -- The client after one atomic request on the lock word.
  pub after_atomic : Request → Worker → ℕ → Client → Client
  after_atomic request t a c =
      let r = others c.now c.world.remote in
      record c {
        world = record {
          local = store c.world.local t.old (r a);
          remote = store r a (next_word request (r a));
        };
        now = c.now + 1;
      }

  -- The client after a read of `size` bytes.
  pub after_read : ℕ → ℕ → ℕ → Worker → Client → Client
  after_read at from size t c =
      let r = others c.now c.world.remote in
      record c {
        world = record {
          local =
              copy (size / 8) (nic.view (post_read at t.rctx true from size 0) r) from c.world.local
                at;
          remote = r;
        };
        now = c.now + 1;
      }

  s_unlock_lem :
      (t : Worker) (a : ℕ) (c : Client) (status : Bool) (more : List Bool) (rest : List Poll)
      → c.polls ≡ some (status ∷ more) ∷ rest
      → s_unlock nic others t a c
        ≡ ok tt (record (after_atomic Request.s_unlock t a c) { polls = rest })
  unfolding s_unlock after_atomic next_word wait_completion wait_list
  s_unlock_lem t a c status more rest polls = rw (faa_lem nic others verbs) (rw polls refl)

  x_unlock_lem :
      (t : Worker) (a : ℕ) (c : Client) (status : Bool) (more : List Bool) (rest : List Poll)
      → c.polls ≡ some (status ∷ more) ∷ rest
      → x_unlock nic others t a c
        ≡ ok tt (record (after_atomic Request.x_unlock t a c) { polls = rest })
  unfolding x_unlock after_atomic next_word wait_completion wait_list
  x_unlock_lem t a c status more rest polls = rw (faa_lem nic others verbs) (rw polls refl)

  -- With two completions to come, `basic_s_lock` adds 1 to the word. If the word that it fetched is
  -- `EXCLUSIVE_LOCKED` or more it subtracts 1 again and returns false, else it reads the tuple and
  -- returns true.
  pub basic_s_lock_lem :
      (t : Worker) (a : ℕ) (c : Client) (s1 s2 : Bool) (more1 more2 : List Bool) (rest : List Poll)
      → c.polls ≡ some (s1 ∷ more1) ∷ some (s2 ∷ more2) ∷ rest
      → basic_s_lock nic others t a c ≡ (
          let c1 = after_atomic Request.s_lock t a c in
          if leb exclusive_locked (others c.now c.world.remote a)
          then ok false (record (after_atomic Request.s_unlock t a c1) { polls = rest })
          else ok true (record (after_read t.old a t.tuple_size t c1) { polls = rest }))
  unfolding basic_s_lock s_unlock after_atomic after_read next_word wait_completion wait_list
  basic_s_lock_lem t a c s1 s2 more1 more2 rest polls = rw (faa_lem nic others verbs) (
      rw polls (
        rw here (elim (Bool-cases (leb exclusive_locked (others c.now c.world.remote a))) [
          | inl e ↦ rw e (rw (faa_lem nic others verbs) refl)
          | inr e ↦ rw e (rw (read_lem nic others verbs) refl)
        ])))
    where
      here : (t.old == t.old) ≡ true
      here = ground arith

  -- With two completions to come, `basic_x_lock` takes the lock, reads the tuple and returns true if
  -- the word was `UNLOCKED` when the request ran; if not it returns false and has changed no word of
  -- the remote memory.
  basic_x_lock_lem :
      (t : Worker) (a : ℕ) (c : Client) (s1 s2 : Bool) (more1 more2 : List Bool) (rest : List Poll)
      → c.polls ≡ some (s1 ∷ more1) ∷ some (s2 ∷ more2) ∷ rest
      → basic_x_lock nic others t a c ≡ (
          let c1 = after_atomic Request.x_lock t a c in
          if others c.now c.world.remote a == unlocked
          then ok true (record (after_read t.old a t.tuple_size t c1) { polls = rest })
          else ok false (record c1 { polls = some (s2 ∷ more2) ∷ rest }))
  unfolding basic_x_lock after_atomic after_read next_word wait_completion wait_list
  basic_x_lock_lem t a c s1 s2 more1 more2 rest polls = rw (cas_lem nic others verbs) (
      rw polls (
        rw here (elim (Bool-cases (others c.now c.world.remote a == unlocked)) [
          | inl e ↦ rw e (rw (read_lem nic others verbs) refl)
          | inr e ↦ rw e (rw (store_self (others c.now c.world.remote) a) refl)
        ])))
    where
      here : (t.old == t.old) ≡ true
      here = ground arith

  -- With a completion to come, `speculative_read_x_lock` returns whether the word was `UNLOCKED`, with
  -- the word set if so, and the rest of the tuple read in any case.
  speculative_read_x_lock_lem :
      (t : Worker) (a : ℕ) (c : Client) (status : Bool) (more : List Bool) (rest : List Poll)
      → c.polls ≡ some (status ∷ more) ∷ rest
      → speculative_read_x_lock nic others t a c ≡ (
          let c1 = after_atomic Request.x_lock t a c in
          ok
            (others c.now c.world.remote a == unlocked)
            (record (after_read (t.old + 8) (a + 8) (t.tuple_size - 8) t c1) { polls = rest }))
  unfolding speculative_read_x_lock after_atomic after_read next_word wait_completion wait_list
  speculative_read_x_lock_lem t a c status more rest polls = rw (cas_lem nic others verbs) (
      rw (read_lem nic others verbs) (
        rw polls (elim (Bool-cases (others c.now c.world.remote a == unlocked)) [
          | inl e ↦ rw e (rw (kept c (others c.now c.world.remote a) _) (rw e refl))
          | inr e ↦ rw e (
              rw
                (
                  store_self (others c.now c.world.remote) a,
                  kept c (others c.now c.world.remote a) _,
                )
                (rw e refl))
        ])))
    where
      -- The fetched word stands below what the read overwrites.
      kept :
          (c0 : Client) (v : ℕ) (r : Memory)
          → copy ((t.tuple_size - 8) / 8) r (a + 8) (store c0.world.local t.old v) (t.old + 8) t.old
            ≡ v
      kept c0 v r =
          copy_outside ((t.tuple_size - 8) / 8) r (a + 8) (store c0.world.local t.old v) (t.old + 8)
            t.old (inl (omega arith))
          ∙ ground arith

  -- With two completions to come, `speculative_read_s_lock` adds 1 to the word and reads the rest of the
  -- tuple. If the word that it fetched is `EXCLUSIVE_LOCKED` or more it subtracts 1 again and returns
  -- false, else it returns true with one wait.
  speculative_read_s_lock_lem :
      (t : Worker) (a : ℕ) (c : Client) (s1 s2 : Bool) (more1 more2 : List Bool) (rest : List Poll)
      → c.polls ≡ some (s1 ∷ more1) ∷ some (s2 ∷ more2) ∷ rest
      → speculative_read_s_lock nic others t a c ≡ (
          let c1 = after_atomic Request.s_lock t a c in
          let c2 = after_read (t.old + 8) (a + 8) (t.tuple_size - 8) t c1 in
          if leb exclusive_locked (others c.now c.world.remote a)
          then ok false (record (after_atomic Request.s_unlock t a c2) { polls = rest })
          else ok true (record c2 { polls = some (s2 ∷ more2) ∷ rest }))
  unfolding speculative_read_s_lock s_unlock after_atomic after_read next_word wait_completion
      wait_list
  speculative_read_s_lock_lem t a c s1 s2 more1 more2 rest polls = rw (faa_lem nic others verbs) (
      rw (read_lem nic others verbs) (
        rw polls (
          rw (kept c (others c.now c.world.remote a) _)
            (elim (Bool-cases (leb exclusive_locked (others c.now c.world.remote a))) [
              | inl e ↦ rw e (rw (faa_lem nic others verbs) refl)
              | inr e ↦ rw e refl
            ]))))
    where
      kept :
          (c0 : Client) (v : ℕ) (r : Memory)
          → copy ((t.tuple_size - 8) / 8) r (a + 8) (store c0.world.local t.old v) (t.old + 8) t.old
            ≡ v
      kept c0 v r =
          copy_outside ((t.tuple_size - 8) / 8) r (a + 8) (store c0.world.local t.old v) (t.old + 8)
            t.old (inl (omega arith))
          ∙ ground arith
