-- ===== src/Lock/Optimistic/Reads.antt =====
-- The calls `lock` and `unlock` of an optimistic reader under `V2` with the lock in the footer: what they
-- read, and the client after `lock`.
use rdma_synchronization.Common.{
  ℕ, ◌+◌, ◌-◌, ◌*◌, ◌/◌, ◌≡◌, refl, Bool, true, some, List, ◌∷◌, ◌==◌, if◌then◌else◌, Bool-cases,
  inl, inr,
}
use rdma_synchronization.Rdma.Request.{WorkRequest, post_read, post_read_fenced}
use rdma_synchronization.Rdma.Memory.{Memory, store, copy}
use rdma_synchronization.Rdma.Client.{
  Nic, IsVerbs, Client, Poll, Result, M, ◌>>=◌, ok, restart, fails, waits, wait_completion,
  wait_list, read_lem, fenced_lem,
}
use rdma_synchronization.Lock.Config.{Config, v2, footer, w_unlocked}
use rdma_synchronization.Lock.Optimistic.{
  OptimisticLock, check_lock, version_address, lock, lock_v2, unlock,
}

-- The call ends, and if it returns, the client satisfies `P`.
abbrev pub Ends : {A : Type 0} → Result A → (Client → Type 0) → Type 0
Ends (ok a c) P = P c
Ends (restart c) P = Unit
Ends fails P = ⊥
Ends waits P = ⊥

module _ (nic : Nic) (verbs : IsVerbs nic) (others : ℕ → Memory → Memory) (config : Config) where
  -- The two reads of `lock`.
  abbrev pub footer_read : OptimisticLock → WorkRequest
  footer_read t =
      post_read_fenced (version_address nic others config v2 footer t) t.rctx true
        (t.remote_address + (t.bytes - 16)) 16 0

  abbrev pub body_read : OptimisticLock → WorkRequest
  body_read t = post_read t.tuple_buffer t.rctx true t.remote_address (t.bytes - 16) 0

  -- The client after them.
  unfoldable pub after_lock : OptimisticLock → Client → List Poll → Client
  unfolding version_address
  after_lock t c rest =
      let at = version_address nic others config v2 footer t in
      let r1 = others c.now c.world.remote in
      let r2 = others (c.now + 1) r1 in
      record {
        world = record {
          local =
              copy ((t.bytes - 16) / 8) (nic.view (body_read t) r2) t.remote_address
                (copy (16 / 8) (nic.view (footer_read t) r1) (t.remote_address + (t.bytes - 16))
                  (store (store c.world.local at 0) (at + 8) 0) at)
                t.tuple_buffer;
          remote = r2;
        };
        polls = rest;
        now = c.now + 1 + 1;
      }

  pub v2_lock_lem :
      (t : OptimisticLock) (prev : ℕ) (c : Client) (s1 s2 : Bool) (more1 more2 : List Bool)
      (rest : List Poll)
      → c.polls ≡ some (s1 ∷ more1) ∷ some (s2 ∷ more2) ∷ rest
      → lock nic others config v2 footer t prev c ≡ (
          let c' = after_lock t c rest in
          if c'.world.local (t.tuple_buffer + 8 * (t.bytes / 8 - 1)) == w_unlocked
          then ok (c'.world.local (version_address nic others config v2 footer t)) c'
          else restart c')
  unfolding lock lock_v2 check_lock version_address wait_completion wait_list after_lock
  v2_lock_lem t prev c s1 s2 more1 more2 rest polls = rw (fenced_lem nic others verbs) (
      rw polls (
        rw (read_lem nic others verbs)
          (elim (Bool-cases (free == w_unlocked)) [ inl f ↦ rw f refl | inr f ↦ rw f refl ])))
    where
      free : ℕ
      free = (after_lock t c rest).world.local (t.tuple_buffer + 8 * (t.bytes / 8 - 1))

  abbrev pub version_read : OptimisticLock → WorkRequest
  version_read t =
      post_read (version_address nic others config v2 footer t) t.rctx true
        (t.remote_address + (t.bytes - 16)) 16 0

  abbrev pub read_twice : OptimisticLock → ℕ → M (ℕ × ℕ)
  read_twice t prev =
      lock nic others config v2 footer t prev >>= unlock nic others config v2 footer t
