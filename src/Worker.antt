-- ===== src/Worker.antt =====
-- The constructor of `Worker` of backend/nam/threads/Worker.cpp: a thread of a compute node connects to
-- every storage node, and enters in its catalog where the first memory region of each lies.
pub mod Connected
pub mod Numbers
use rdma_synchronization.Common.{
  ℕ, zero, suc, ◌+◌, ◌-◌, ◌*◌, ◌%◌, ◌^◌, Bool, true, false, Option, none, some, List, [], ◌∷◌, ◌++◌,
  if◌then◌else◌, get_or,
}
use rdma_synchronization.Common.Word.{add_u64}
use rdma_synchronization.Connection.{Call}
use rdma_synchronization.Connection.Exchange.{
  CompletionQueue, Ending, done, throws, polling, exchange_initial_message,
}
use rdma_synchronization.Connection.Outgoing.{
  Outgoing, Attempt, Initiated, connected, threw, hangs, retrying, initiate_connection,
}
use rdma_synchronization.Storage.{MemoryRegionDesc, InitMessage, lookup}
use rdma_synchronization.Storage.Catalog.{no_region}

-- `ConnectionContext`; the context is the number of the attempt that has made it.
pub record ConnectionContext : Type 0 where
  pub rctx : ℕ
  pub wqe : ℕ

-- The members that the constructor fills in.
pub record Worker : Type 0 where
  pub worker_id : ℕ
  pub node_id : ℕ
  pub cctxs : List ConnectionContext
  pub catalog : List (ℕ × MemoryRegionDesc)

-- How the constructor ends; `unfinished` is a loop of the connection manager that still waits.
pub data Built (A : Type 0) : Type 0 where
  built : A → Built A
  failed : Built A
  unfinished : Built A

abbrev pub then_built : {A B : Type 0} → Built A → (A → Built B) → Built B
then_built (built a) f = f a
then_built failed f = failed
then_built unfinished f = unfinished

-- `catalog.insert`, which leaves an entry that is there.
unfoldable pub insert :
    ℕ → MemoryRegionDesc → List (ℕ × MemoryRegionDesc) → List (ℕ × MemoryRegionDesc)
insert n desc catalog = elim (lookup n catalog) [ some old ↦ catalog | none ↦ (n, desc) ∷ catalog ]

-- The first region of a message, with number 0.
abbrev pub first_region : InitMessage → MemoryRegionDesc
first_region m =
    let region = get_or m.mem_regions 0 no_region in
    record { start = region.offset; size_bytes = region.size_bytes; region_id = 0 }

-- `init->threadId`, of worker `worker_id` of `workers` on one node.
unfoldable pub thread_id : ℕ → ℕ → ℕ → ℕ
thread_id workers worker_id node_id = add_u64 worker_id (node_id * workers % 2 ^ 64)

module _ (C : CompletionQueue) where
  -- A storage node: how the attempts to connect to it go, the queue pair and the completion queue of the
  -- connection when the first messages are exchanged, and the message that it sends.
  pub record Node : Type 0 where
    pub succeeds : Call → Bool
    pub attempts : List (Attempt C)
    pub qp_num : ℕ
    pub posted : Bool
    pub queue : C.State
    pub message : InitMessage

  -- `cctxs[n_i]`
  abbrev pub entered : Initiated C → Built (Outgoing × ConnectionContext)
  entered (connected s) = built (s, record { rctx = s.attempts - 1; wqe = 0 })
  entered threw = failed
  entered hangs = unfinished
  entered (retrying s) = unfinished

  -- "First initiate connection"
  unfoldable pub initiate_all : ℕ → List Node → Outgoing → Built (Outgoing × List ConnectionContext)
  initiate_all fuel [] s = built (s, [])
  initiate_all fuel (n ∷ nodes) s =
      then_built (entered (initiate_connection C n.succeeds fuel n.attempts s)) λ (s1, cctx).
        then_built (initiate_all fuel nodes s1) λ (s2, cctxs). built (s2, cctx ∷ cctxs)

  -- "Second finish connection", from `n_i` on.
  unfoldable pub finish_all :
      ℕ → ℕ → List Node → List (ℕ × MemoryRegionDesc) → Built (List (ℕ × MemoryRegionDesc))
  finish_all fuel n_i [] catalog = built catalog
  finish_all fuel n_i (n ∷ nodes) catalog =
      elim (exchange_initial_message C n.qp_num n.posted fuel n.queue) [
        | done q ↦ finish_all fuel (n_i + 1) nodes (insert n_i (first_region n.message) catalog)
        | throws ↦ failed
        | polling ↦ unfinished
      ]

  -- `room` is whether the message can be allocated.
  unfoldable pub new_worker : ℕ → Bool → ℕ → ℕ → List Node → Outgoing → Built (Worker × Outgoing)
  new_worker fuel room worker_id node_id nodes s =
      then_built (initiate_all fuel nodes s) λ (s', cctxs).
        if room
        then (then_built (finish_all fuel 0 nodes []) λ catalog. built (
          record { worker_id = worker_id; node_id = node_id; cctxs = cctxs; catalog = catalog },
          s',
        ))
        else failed
