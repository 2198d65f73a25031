-- ===== src/Rdma/Memory.antt =====
-- Memory as 64-bit words at byte addresses, and copies of whole words.
use rdma_synchronization.Common.{
  ℕ, zero, suc, ◌+◌, ◌*◌, ◌<◌, ◌≤◌, ◌≡◌, refl, ap, ◌∙◌, sym, ◌==◌, if◌then◌else◌, arith, fun_ext,
  Bool-cases, ==→eq, List, [], ◌∷◌, ◌⊎◌, inl, inr,
}

-- The word at a byte address; the code only uses addresses that are multiples of 8.
abbrev pub Memory : Type 0
Memory = ℕ → ℕ

abbrev pub store : Memory → ℕ → ℕ → Memory
store m a v x = if x == a then v else m x

-- `n` words from `src` in `from` to `dst` in `to`, in the order of the addresses.
unfoldable pub copy : ℕ → Memory → ℕ → Memory → ℕ → Memory
copy zero from src to dst = to
copy (suc n) from src to dst = copy n from (src + 8) (store to dst (from src)) (dst + 8)

-- The `n` words from the address `a` on.
pub words : Memory → ℕ → ℕ → List ℕ
words m a zero = []
words m a (suc n) = m a ∷ words m (a + 8) n

-- A word below or above the target of a copy is left alone.
pub copy_outside :
    (n : ℕ) (from : Memory) (src : ℕ) (to : Memory) (dst x : ℕ)
    → (x < dst) ⊎ (dst + 8 * n ≤ x)
    → copy n from src to dst x ≡ to x
unfolding copy
copy_outside zero from src to dst x h = refl
copy_outside (suc n) from src to dst x h =
    copy_outside n from (src + 8) (store to dst (from src)) (dst + 8) x (ground arith)
    ∙ ground arith

-- The word with number `i` of a copy.
pub copy_inside :
    (n : ℕ) (from : Memory) (src : ℕ) (to : Memory) (dst i : ℕ)
    → i < n
    → copy n from src to dst (dst + 8 * i) ≡ from (src + 8 * i)
unfolding copy
copy_inside zero from src to dst i h = absurd (omega arith)
copy_inside (suc n) from src to dst zero h =
    copy_outside n from (src + 8) (store to dst (from src)) (dst + 8) (dst + 8 * 0)
      (inl (omega arith))
    ∙ ground (arith, first)
  where
    first : from (src + 8 * 0) ≡ from src
    first = ap from (omega arith)
copy_inside (suc n) from src to dst (suc i) h =
    ap (copy n from (src + 8) (store to dst (from src)) (dst + 8)) next_dst
    ∙ copy_inside n from (src + 8) (store to dst (from src)) (dst + 8) i (omega arith)
    ∙ ap from next_src
  where
    next_dst : dst + 8 * suc i ≡ dst + 8 + 8 * i
    next_dst = omega arith

    next_src : src + 8 + 8 * i ≡ src + 8 * suc i
    next_src = omega arith

-- Two memories with the same words from two addresses on.
pub words-same :
    (n : ℕ) (m m' : Memory) (a a' : ℕ)
    → ((i : ℕ) → i < n → m' (a' + 8 * i) ≡ m (a + 8 * i))
    → words m' a' n ≡ words m a n
unfolding words
words-same zero m m' a a' same = refl
words-same (suc n) m m' a a' same = rw (first, words-same n m m' (a + 8) (a' + 8) next) refl
  where
    first : m' a' ≡ m a
    first = ap m' (omega arith) ∙ same 0 (omega arith) ∙ ap m (omega arith)

    next : (i : ℕ) → i < n → m' (a' + 8 + 8 * i) ≡ m (a + 8 + 8 * i)
    next i h = ap m' (omega arith) ∙ same (suc i) (omega arith) ∙ ap m (omega arith)

-- A word stored where it already stands.
pub store_self : (m : Memory) (a : ℕ) → store m a (m a) ≡ m
store_self m a = fun_ext (λ x. elim (Bool-cases (x == a)) [
  | inl e ↦ rw e (ap m (sym (==→eq x a e)))
  | inr e ↦ rw e refl
])
