-- ===== src/Lock/Optimistic/Snapshot.antt =====
-- What an optimistic reader under `V2` with the lock in the footer has in its buffer once `lock` and
-- `unlock` have returned.
use rdma_synchronization.Common.{
  ℕ, ◌+◌, ◌-◌, ◌*◌, ◌/◌, ◌^◌, ◌<◌, ◌≡◌, refl, sym, ap, ◌∙◌, Bool, some, List, ◌∷◌, ◌==◌, ==→eq,
  arith, dec_lt, Bool-cases, inl, inr,
}
use rdma_synchronization.Rdma.Memory.{Memory, copy, copy_inside, copy_outside}
use rdma_synchronization.Rdma.Client.{Nic, IsVerbs, Client, Poll}
use rdma_synchronization.Lock.Config.{Config, v2, footer, w_unlocked}
use rdma_synchronization.Lock.Optimistic.{OptimisticLock, version_address}
use rdma_synchronization.Lock.Optimistic.Writers.{
  State, version_at, lock_at, Reach, Inv, between-SameWords, between-version,
}
use rdma_synchronization.Lock.Optimistic.Validate.{v2_footer-validates, after_read}
use rdma_synchronization.Lock.Optimistic.Reads.{
  Ends, footer_read, body_read, after_lock, v2_lock_lem, version_read, read_twice,
}

module _ (nic : Nic) (verbs : IsVerbs nic) (others : ℕ → Memory → Memory) (config : Config) where
  module _ (t : OptimisticLock) (k : ℕ) (size : t.bytes ≡ 8 * k + 16) (c : Client)
      (rest : List Poll) where
    abbrev at : ℕ
    at = version_address nic others config v2 footer t

    abbrev from : ℕ
    from = t.remote_address + (t.bytes - 16)

    abbrev c1 : Client
    c1 = after_lock nic verbs others config t c rest

    abbrev r1 : Memory
    r1 = others c.now c.world.remote

    abbrev r2 : Memory
    r2 = others (c.now + 1) r1

    at_lem : at ≡ t.tuple_buffer + 8 * k
    unfolding version_address
    at_lem = omega arith

    footer_word :
        (j : ℕ)
        → j < 2
        → c1.world.local (t.tuple_buffer + 8 * (k + j))
          ≡ nic.view (footer_read nic verbs others config t) r1 (t.remote_address + 8 * (k + j))
    unfolding after_lock version_address
    footer_word j lt =
        copy_outside ((t.bytes - 16) / 8) _ _ _ t.tuple_buffer _ (inr (omega arith))
        ∙ ap (copy (16 / 8) _ from _ at) (omega arith)
        ∙ copy_inside 2 _ from _ at j lt
        ∙ ap (nic.view (footer_read nic verbs others config t) r1) (omega arith)

    body_word :
        (i : ℕ)
        → i < k
        → c1.world.local (t.tuple_buffer + 8 * i)
          ≡ nic.view (body_read nic verbs others config t) r2 (t.remote_address + 8 * i)
    unfolding after_lock
    body_word i lt =
        copy_inside ((t.bytes - 16) / 8) _ t.remote_address _ t.tuple_buffer i (omega arith)

    -- The words of the buffer after the second read of the version, which `prev` is compared with.
    module _ (c2 : Client) (seen : Memory)
        (again : c2.world.local ≡ copy (16 / 8) seen from c1.world.local at) where
      kept_word :
          (i : ℕ)
          → i < k
          → c2.world.local (t.tuple_buffer + 8 * i) ≡ c1.world.local (t.tuple_buffer + 8 * i)
      kept_word i lt =
          ap (λ (m : Memory). m (t.tuple_buffer + 8 * i)) again
          ∙ copy_outside 2 seen from c1.world.local at _ (inl (omega (arith, at_lem)))

      version_again : c2.world.local (t.tuple_buffer + 8 * k) ≡ seen (version_at t.remote_address k)
      version_again =
          ap (λ (m : Memory). m (t.tuple_buffer + 8 * k)) again
          ∙ ap (copy 2 seen from c1.world.local at) (omega (arith, at_lem))
          ∙ copy_inside 2 seen from c1.world.local at 0 (omega arith)
          ∙ ap seen (omega arith)

    -- The program, as a test on what the three reads see.
    module _ (prev : ℕ) (s1 s2 s3 : Bool) (more1 more2 more3 : List Bool)
        (polls : c.polls ≡ some (s1 ∷ more1) ∷ some (s2 ∷ more2) ∷ rest) (last : List Poll)
        (third : rest ≡ some (s3 ∷ more3) ∷ last) where
      -- Where the read of `unlock`, of 16 bytes, sees the lock word no later than the version, writers
      -- come only by their steps, fewer than 2 ^ 64 updates come between the two reads of the version,
      -- and the three reads complete: `lock` and then `unlock` end, by a return or a restart. If they
      -- return, then nobody held the lock at the moment when its word was read again, and the buffer
      -- holds the version and the words of the tuple of that moment, although each of these words may
      -- have been read at an earlier one.
      pub v2_snapshot :
          (s w u : State) (moment : ℕ → State)
          → Inv t.remote_address k s
          → ((i : ℕ) → i < k → Reach t.remote_address k s (moment i))
          → ((i : ℕ) → i < k → Reach t.remote_address k (moment i) w)
          → Reach t.remote_address k s w
          → Reach t.remote_address k w u
          → u.bumps < s.bumps + 2 ^ 64
          → nic.view (footer_read nic verbs others config t) r1 (version_at t.remote_address k)
            ≡ s.memory (version_at t.remote_address k)
          → ((i : ℕ)
              → i < k
              → nic.view (body_read nic verbs others config t) r2 (t.remote_address + 8 * i)
                ≡ (moment i).memory (t.remote_address + 8 * i))
          → nic.view
              (version_read nic verbs others config t)
              (others (c.now + 1 + 1) r2)
              (lock_at t.remote_address k)
            ≡ w.memory (lock_at t.remote_address k)
          → nic.view
              (version_read nic verbs others config t)
              (others (c.now + 1 + 1) r2)
              (version_at t.remote_address k)
            ≡ u.memory (version_at t.remote_address k)
          → Ends (read_twice nic verbs others config t prev c) (λ c'.
            (w.memory (lock_at t.remote_address k) ≡ w_unlocked)
            × ((i : ℕ)
                → i < k + 1
                → c'.world.local (t.tuple_buffer + 8 * i) ≡ w.memory (t.remote_address + 8 * i)))
      unfolding after_lock after_read
      v2_snapshot s w u moment v reach reach' before whole few first_seen body_seen latch_seen
            version_seen =
          rw (v2_lock_lem nic verbs others config t prev c s1 s2 more1 more2 rest polls)
            (elim (Bool-cases (free == w_unlocked)) [
              | inr e ↦ rw e tt
              | inl e ↦
                  rw
                    (
                      e,
                      v2_footer-validates nic verbs others config t version c1 s3 more3 last third
                          (omega arith) (omega arith),
                    )
                    (elim (Bool-cases (version == seen from)) [
                      | inr f ↦ rw f tt
                      | inl f ↦ rw f (elim (Bool-cases (seen (from + 8) == w_unlocked)) [
                        | inr g ↦ rw g tt
                        | inl g ↦ rw g (accepted (==→eq _ _ f) (==→eq _ _ g))
                      ])
                    ])
            ])
        where
          free : ℕ
          free = c1.world.local (t.tuple_buffer + 8 * (t.bytes / 8 - 1))

          version : ℕ
          version = c1.world.local at

          seen : Memory
          seen = nic.view (version_read nic verbs others config t) (others (c.now + 1 + 1) r2)

          base : ℕ
          base = t.remote_address

          c2 : Client
          c2 = after_read nic verbs others config at from 16 t c1 last

          again : c2.world.local ≡ copy (16 / 8) seen from c1.world.local at
          again = refl

          accepted :
              version ≡ seen from
              → seen (from + 8) ≡ w_unlocked
              → (w.memory (lock_at base k) ≡ w_unlocked)
                × ((i : ℕ)
                    → i < k + 1
                    → c2.world.local (t.tuple_buffer + 8 * i) ≡ w.memory (base + 8 * i))
          accepted f g = (
            w_free,
            λ i lt. elim (dec_lt i k) [
              | yes inner ↦
                  kept_word c2 seen again i inner
                  ∙ body_word i inner
                  ∙ body_seen i inner
                  ∙ sym (
                      between-SameWords base k v (reach i inner) (reach' i inner) whole w_free same
                        few i inner)
              | no outer ↦
                  ap c2.world.local (omega arith)
                  ∙ version_again c2 seen again
                  ∙ version_seen
                  ∙ sym (between-version base k v before whole same few)
                  ∙ ap w.memory (omega arith)
            ],
          )
            where
              w_free : w.memory (lock_at base k) ≡ w_unlocked
              w_free = sym latch_seen ∙ ap seen (omega arith) ∙ g

              same : s.memory (version_at base k) ≡ u.memory (version_at base k)
              same =
                  sym first_seen
                  ∙ ap (nic.view (footer_read nic verbs others config t) r1) (omega arith)
                  ∙ sym (footer_word 0 (omega arith))
                  ∙ ap c1.world.local (omega (arith, at_lem))
                  ∙ f
                  ∙ ap seen (omega arith)
                  ∙ version_seen
