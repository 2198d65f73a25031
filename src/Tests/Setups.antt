-- ===== src/Tests/Setups.antt =====
-- A worker that connects to two storage nodes, and the end of a connection manager.
use rdma_synchronization.Common.{
  ℕ, zero, suc, ◌+◌, ◌<◌, ◌≡◌, refl, true, false, none, some, List, [], ◌∷◌, arith, length, get_or,
}
use mathlib.Core.List.{map}
use rdma_synchronization.Connection.Handler.{rejected, established, IncomingContext}
use rdma_synchronization.Connection.Exchange.{passes}
use rdma_synchronization.Connection.Outgoing.{Outgoing}
use rdma_synchronization.Connection.Teardown.{teardown}
use rdma_synchronization.Connection.Teardown.Discipline.{release_all}
use rdma_synchronization.Connection.Teardown.Order.{owned, teardown_lem}
use rdma_synchronization.Storage.{MemoryRegionDesc, InitMessage, lookup}
use rdma_synchronization.Storage.Catalog.{Told}
use rdma_synchronization.Worker.Numbers.{thread_id-distinct}
use rdma_synchronization.Worker.{Node, new_worker}
use rdma_synchronization.Worker.Connected.{Returns, IsReady, new_worker_lem}
use rdma_synchronization.Tests.Connections.{
  C, verbs, good, info, attempt, nothing_open, rejected-Refused, established-Accepted,
}

-- A connection manager with two connections that it has made and one that came in, after one refused
-- attempt.
abbrev used : Outgoing
used = record {
  outgoing_ids = record { attempt = 1; peer = info } ∷ record { attempt = 2; peer = info } ∷ [];
  outgoing_cqs = 1 ∷ 2 ∷ [];
  outgoing_channels = 1 ∷ 2 ∷ [];
  attempts = 3;
  live = record { channels = 2; ids = 2; cqs = 3; qps = 3; contexts = 2 };
}

abbrev came_in : List IncomingContext
came_in = record { id = 0; peer = none } ∷ []

-- The queue pair of the refused attempt keeps the protection domain alive.
teardown_example : release_all (teardown used came_in) (owned used came_in false) ≡ none
teardown_example = teardown_lem used came_in false refl refl

abbrev message : ℕ → InitMessage
message i = record {
  node_id = i;
  thread_id = 0;
  num_regions = 1;
  mem_regions = record { offset = 4096 + i; size_bytes = 512 } ∷ [];
}

abbrev desc : ℕ → MemoryRegionDesc
desc i = record { start = 4096 + i; size_bytes = 512; region_id = 0 }

abbrev node : ℕ → Node C
node i = record {
  succeeds = λ c. true;
  attempts = attempt rejected ∷ attempt established ∷ [];
  qp_num = 7;
  posted = true;
  queue = good ∷ good ∷ [];
  message = message i;
}

abbrev nodes : List (Node C)
nodes = node 0 ∷ node 1 ∷ []

node-IsReady : (i : ℕ) → IsReady C (node i)
unfolding passes
node-IsReady i = record {
  room = refl;
  refusals = attempt rejected ∷ [];
  last = attempt established;
  tries = refl;
  refused = (rejected-Refused, tt);
  accepted = established-Accepted;
  sent = refl;
  first = good;
  second = good;
  later = [];
  there = refl;
  fine = refl;
}

nodes-Told : (i : ℕ) → i < 2 → Told (get_or nodes i (node 0)).message.mem_regions (i, desc i)
nodes-Told zero lt = refl
nodes-Told (suc zero) lt = refl
nodes-Told (suc (suc i)) lt = absurd (omega arith)

new_worker_example : Returns (new_worker C 3 true 0 1 nodes nothing_open) (λ (w, s').
    (length w.cctxs ≡ 2)
    × (map (λ c. c.attempt) s'.outgoing_ids ≡ map (λ c. c.rctx) w.cctxs)
    × ((i : ℕ) → i < 2 → lookup i w.catalog ≡ some (desc i)))
new_worker_example =
    new_worker_lem C verbs 3 (omega arith) 0 1 nodes nothing_open (node 0) (λ i. i) desc
      (node-IsReady 0, (node-IsReady 1, tt)) nodes-Told (λ i lt. refl)

abbrev one : ℕ
one = 1

abbrev two : ℕ
two = 2

thread_id_example : (one ≡ one) × (two ≡ two)
thread_id_example =
    thread_id-distinct 4 one one two two (omega arith) (omega arith) (omega arith) (omega arith)
      refl
