-- ===== src/Connection/Exchange.antt =====
-- `exchangeRdmaInfo` and `exchangeInitialMesssage`: a message is sent, one is received, and the two
-- completions are polled from the one completion queue.
use rdma_synchronization.Common.{
  ℕ, zero, suc, ◌+◌, ◌-◌, ◌<◌, ◌≤◌, ◌≡◌, Bool, true, Option, none, some, List, [], ◌∷◌, ◌++◌, ◌==◌,
  ◌&&◌, if◌then◌else◌, length,
}

-- `ibv_wc`
pub record Completion : Type 0 where
  pub success : Bool
  pub qp_num : ℕ

-- A completion queue, which is not code of the repository: `ibv_poll_cq` with the most completions
-- that the caller takes (`none` is a negative result), and, read by no code, the completions that it
-- has now.
pub record CompletionQueue : Type 1 where
  pub State : Type 0
  pub poll_cq : ℕ → State → Option (List Completion) × State
  pub pending : State → List Completion

-- A poll takes completions from the front, as many as wanted at most, and one at least where there
-- are any; others may come meanwhile.
pub record Polled (C : CompletionQueue) (expected : ℕ) (q : C.State) : Type 0 where
  pub taken : List Completion
  pub rest : List Completion
  pub fresh : List Completion
  pub answer : (C.poll_cq expected q).0 ≡ some taken
  pub few : length taken ≤ expected
  pub some_taken : 0 < expected → 0 < length (C.pending q) → 0 < length taken
  pub front : C.pending q ≡ taken ++ rest
  pub behind : C.pending (C.poll_cq expected q).1 ≡ rest ++ fresh

abbrev pub IsVerbs : CompletionQueue → Type 0
IsVerbs C = (expected : ℕ) (q : C.State) → Polled C expected q

-- How the exchange ends; `polling` is a loop that still waits after its fuel.
pub data Ending (C : CompletionQueue) : Type 0 where
  done : C.State → Ending C
  throws : Ending C
  polling : Ending C

unfoldable pub all_pass : (Completion → Bool) → List Completion → Bool
all_pass check [] = true
all_pass check (wc ∷ wcs) = check wc && all_pass check wcs

module _ (C : CompletionQueue) (check : Completion → Bool) where
  -- `while (completions != 2)`, each round one poll.
  unfoldable pub poll_loop : ℕ → ℕ → C.State → Ending C
  poll_loop zero completions q = polling
  poll_loop (suc fuel) completions q =
      if completions == 2
      then done q
      else (let (comp, q') = C.poll_cq (2 - completions) q in
          elim comp [
            | none ↦ throws
            | some wcs ↦
                if all_pass check wcs then poll_loop fuel (completions + length wcs) q' else throws
          ])

-- What `exchangeInitialMesssage` asks of a completion.
unfoldable pub passes : ℕ → Completion → Bool
passes qp_num wc = wc.success && (wc.qp_num == qp_num)

module _ (C : CompletionQueue) where
  -- `posted` is whether the send could be posted.
  unfoldable pub exchange_rdma_info : Bool → ℕ → C.State → Ending C
  exchange_rdma_info posted fuel q =
      if posted then poll_loop C (λ wc. wc.success) fuel 0 q else throws

  unfoldable pub exchange_initial_message : ℕ → Bool → ℕ → C.State → Ending C
  exchange_initial_message qp_num posted fuel q =
      if posted then poll_loop C (passes qp_num) fuel 0 q else throws
