-- ===== src/Lock/Optimistic/Header/Snapshot.antt =====
-- What an optimistic reader under `V2` with the lock in the header has in its buffer once `lock` and
-- `unlock` have returned.
use rdma_synchronization.Common.{
  ℕ, ◌+◌, ◌-◌, ◌*◌, ◌/◌, ◌^◌, ◌<◌, ◌≡◌, refl, sym, ap, ◌∙◌, Bool, true, some, List, ◌∷◌, ◌==◌,
  ==→eq, if◌then◌else◌, arith, Bool-cases, inl, inr,
}
use rdma_synchronization.Rdma.Request.{WorkRequest, post_read, post_read_fenced}
use rdma_synchronization.Rdma.Memory.{Memory, copy, copy_inside, copy_outside}
use rdma_synchronization.Rdma.Client.{
  Nic, IsVerbs, Client, Poll, M, ◌>>=◌, ok, restart, wait_completion, wait_list, read_lem,
  fenced_lem,
}
use rdma_synchronization.Lock.Config.{Config, v2, crc, header, w_unlocked}
use rdma_synchronization.Lock.Optimistic.{
  OptimisticLock, check_lock, version_address, validate, unlock_reads, lock, lock_v2, unlock,
}
use rdma_synchronization.Lock.Optimistic.Writers.{State}
use rdma_synchronization.Lock.Optimistic.Reads.{Ends}
use rdma_synchronization.Lock.Optimistic.Validate.{crc_unlock_lem, after_read}
use rdma_synchronization.Lock.Optimistic.Header.Writers.{
  latch_at, Moves, Inv, between-SameWords, between-version,
}

module _ (nic : Nic) (verbs : IsVerbs nic) (others : ℕ → Memory → Memory) (config : Config) where
  -- The two reads of `lock` and the one of `unlock`.
  abbrev pub head_read : OptimisticLock → WorkRequest
  head_read t = post_read_fenced t.tuple_buffer t.rctx true t.remote_address 16 0

  abbrev pub words_read : OptimisticLock → WorkRequest
  words_read t =
      post_read (t.tuple_buffer + 16) t.rctx true (t.remote_address + 16) (t.bytes - 16) 0

  abbrev pub again_read : OptimisticLock → WorkRequest
  again_read t = post_read t.tuple_buffer t.rctx true t.remote_address 8 0

  -- The client after `lock`.
  unfoldable pub after_lock : OptimisticLock → Client → List Poll → Client
  after_lock t c rest =
      let r1 = others c.now c.world.remote in
      let r2 = others (c.now + 1) r1 in
      record {
        world = record {
          local =
              copy ((t.bytes - 16) / 8) (nic.view (words_read t) r2) (t.remote_address + 16)
                (copy (16 / 8) (nic.view (head_read t) r1) t.remote_address c.world.local
                  t.tuple_buffer)
                (t.tuple_buffer + 16);
          remote = r2;
        };
        polls = rest;
        now = c.now + 1 + 1;
      }

  header_lock_lem :
      (t : OptimisticLock) (prev : ℕ) (c : Client) (s1 s2 : Bool) (more1 more2 : List Bool)
      (rest : List Poll)
      → c.polls ≡ some (s1 ∷ more1) ∷ some (s2 ∷ more2) ∷ rest
      → lock nic others config v2 header t prev c ≡ (
          let c' = after_lock t c rest in
          if c'.world.local (t.tuple_buffer + 8 * 1) == w_unlocked
          then ok (c'.world.local t.tuple_buffer) c'
          else restart c')
  unfolding lock lock_v2 check_lock wait_completion wait_list after_lock
  header_lock_lem t prev c s1 s2 more1 more2 rest polls = rw (fenced_lem nic others verbs) (
      rw polls (
        rw (read_lem nic others verbs)
          (elim (Bool-cases (free == w_unlocked)) [ inl f ↦ rw f refl | inr f ↦ rw f refl ])))
    where
      free : ℕ
      free = (after_lock t c rest).world.local (t.tuple_buffer + 8 * 1)

  -- `unlock` reads one word again, as it does under `CRC`.
  header_unlock-crc :
      (t : OptimisticLock) (prev : ℕ) (c : Client)
      → unlock nic others config v2 header t prev c ≡ unlock nic others config crc header t prev c
  unfolding unlock unlock_reads validate version_address
  header_unlock-crc t prev c = refl

  abbrev pub header_read_twice : OptimisticLock → ℕ → M (ℕ × ℕ)
  header_read_twice t prev =
      lock nic others config v2 header t prev >>= unlock nic others config v2 header t

  module _ (t : OptimisticLock) (k : ℕ) (size : t.bytes ≡ 8 * k + 16) (c : Client)
      (rest : List Poll) where
    abbrev c1 : Client
    c1 = after_lock t c rest

    abbrev r1 : Memory
    r1 = others c.now c.world.remote

    abbrev r2 : Memory
    r2 = others (c.now + 1) r1

    head_word :
        (j : ℕ)
        → j < 2
        → c1.world.local (t.tuple_buffer + 8 * j)
          ≡ nic.view (head_read t) r1 (t.remote_address + 8 * j)
    unfolding after_lock
    head_word j lt =
        copy_outside ((t.bytes - 16) / 8) _ _ _ (t.tuple_buffer + 16) _ (inl (omega arith))
        ∙ copy_inside 2 _ t.remote_address _ t.tuple_buffer j lt

    body_word :
        (i : ℕ)
        → i < k
        → c1.world.local (t.tuple_buffer + 16 + 8 * i)
          ≡ nic.view (words_read t) r2 (t.remote_address + 16 + 8 * i)
    unfolding after_lock
    body_word i lt =
        copy_inside ((t.bytes - 16) / 8) _ (t.remote_address + 16) _ (t.tuple_buffer + 16) i
          (omega arith)

    module _ (prev : ℕ) (s1 s2 s3 : Bool) (more1 more2 more3 : List Bool)
        (polls : c.polls ≡ some (s1 ∷ more1) ∷ some (s2 ∷ more2) ∷ rest) (last : List Poll)
        (third : rest ≡ some (s3 ∷ more3) ∷ last) where
      -- Where the first read, of 16 bytes, sees the version no later than the lock word, writers come
      -- only by their steps, fewer than 2 ^ 64 updates come between the two reads of the version, and
      -- the three reads complete: `lock` and then `unlock` end, by a return or a restart. If they
      -- return, then nobody held the lock at the moment when its word was read, and the buffer holds
      -- the version and the words of the tuple of that moment, although each of these words may have
      -- been read at a later one, and although the lock word is not read again.
      pub header_snapshot :
          (s l u : State) (moment : ℕ → State)
          → Inv t.remote_address k s
          → Moves t.remote_address k s l
          → ((i : ℕ) → i < k → Moves t.remote_address k l (moment i))
          → ((i : ℕ) → i < k → Moves t.remote_address k (moment i) u)
          → Moves t.remote_address k l u
          → u.bumps < s.bumps + 2 ^ 64
          → nic.view (head_read t) r1 t.remote_address ≡ s.memory t.remote_address
          → nic.view (head_read t) r1 (t.remote_address + 8) ≡ l.memory (t.remote_address + 8)
          → ((i : ℕ)
              → i < k
              → nic.view (words_read t) r2 (t.remote_address + 16 + 8 * i)
                ≡ (moment i).memory (t.remote_address + 16 + 8 * i))
          → nic.view (again_read t) (others (c.now + 1 + 1) r2) t.remote_address
            ≡ u.memory t.remote_address
          → Ends (header_read_twice t prev c) (λ c'.
            (l.memory (latch_at t.remote_address k) ≡ w_unlocked)
            × (c'.world.local t.tuple_buffer ≡ l.memory t.remote_address)
            × ((i : ℕ)
                → i < k
                → c'.world.local (t.tuple_buffer + 16 + 8 * i)
                  ≡ l.memory (t.remote_address + 16 + 8 * i)))
      unfolding after_lock after_read
      header_snapshot s l u moment v before reach reach' whole few version_seen latch_seen
            words_seen again_seen =
          rw (header_lock_lem t prev c s1 s2 more1 more2 rest polls)
            (elim (Bool-cases (free == w_unlocked)) [
              | inr e ↦ rw e tt
              | inl e ↦
                  rw
                    (
                      e,
                      header_unlock-crc t version c1,
                      crc_unlock_lem nic verbs others config header t version c1 s3 more3 last
                          third,
                    )
                    (elim (Bool-cases (version == again)) [
                      | inr f ↦ rw f tt
                      | inl f ↦
                          rw f
                            (elim (Bool-cases
                              (c2.world.local (t.tuple_buffer + 8 * 1) == w_unlocked)) [
                                | inr g ↦ rw g tt
                                | inl g ↦ rw g (accepted (==→eq _ _ e) (==→eq _ _ f))
                              ])
                    ])
            ])
        where
          free : ℕ
          free = c1.world.local (t.tuple_buffer + 8 * 1)

          version : ℕ
          version = c1.world.local t.tuple_buffer

          c2 : Client
          c2 = after_read nic verbs others config t.tuple_buffer t.remote_address 8 t c1 last

          again : ℕ
          again = c2.world.local t.tuple_buffer

          version_again : again ≡ u.memory t.remote_address
          version_again =
              ap c2.world.local (omega arith)
              ∙ copy_inside 1 _ t.remote_address _ t.tuple_buffer 0 (omega arith)
              ∙ ap (nic.view (again_read t) (others (c.now + 1 + 1) r2)) (omega arith)
              ∙ again_seen

          accepted :
              free ≡ w_unlocked
              → version ≡ again
              → (l.memory (latch_at t.remote_address k) ≡ w_unlocked)
                × (again ≡ l.memory t.remote_address)
                × ((i : ℕ)
                    → i < k
                    → c2.world.local (t.tuple_buffer + 16 + 8 * i)
                      ≡ l.memory (t.remote_address + 16 + 8 * i))
          accepted e f = (
            l_free,
            version_again
                ∙ sym same
                ∙ sym (between-version t.remote_address k v before whole same few),
            λ i lt.
                copy_outside 1 _ _ _ t.tuple_buffer _ (inr (omega arith))
                ∙ body_word i lt
                ∙ words_seen i lt
                ∙ between-SameWords t.remote_address k v before (reach i lt) (reach' i lt) l_free
                    same few i lt,
          )
            where
              l_free : l.memory (latch_at t.remote_address k) ≡ w_unlocked
              l_free = sym latch_seen ∙ sym (head_word 1 (omega arith)) ∙ e

              same : s.memory t.remote_address ≡ u.memory t.remote_address
              same =
                  sym version_seen
                  ∙ ap (nic.view (head_read t) r1) (omega arith)
                  ∙ sym (head_word 0 (omega arith))
                  ∙ ap c1.world.local (omega arith)
                  ∙ f
                  ∙ version_again
