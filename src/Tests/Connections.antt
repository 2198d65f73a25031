-- ===== src/Tests/Connections.antt =====
-- A completion queue that holds what has come, and connections over it.
use rdma_synchronization.Common.{
  ℕ, zero, suc, ◌<◌, ◌≤◌, ◌≡◌, refl, ap, sym, true, none, some, List, [], ◌∷◌, ◌++◌, arith, length,
  get_or,
}
use rdma_synchronization.Connection.{RdmaInfo, worker, all_succeed}
use rdma_synchronization.Connection.Exchange.{
  Completion, CompletionQueue, IsVerbs, throws, passes, exchange_initial_message,
}
use rdma_synchronization.Connection.Completions.{exchange_takes_two}
use rdma_synchronization.Connection.Handler.{
  Event, connect_request, established, disconnected, rejected, addr_resolved, route_resolved, State,
  running, stopped, Arrival, initial, handle,
}
use rdma_synchronization.Connection.Phases.{unknown, requested, closed, expects, known, opened}
use rdma_synchronization.Connection.Counts.{Counts, Works, Ordered, ends}
use rdma_synchronization.Connection.Endings.{Unrefused, handle_lem, refused_keeps_running}
use rdma_synchronization.Connection.Outgoing.{
  Outgoing, Attempt, resolves, prepares, Initiated, initiate_connection,
}
use rdma_synchronization.Connection.Outgoing.Retries.{
  Refused, Accepted, after_retries, initiate_connection_lem,
}
use mathlib.Core.List.{append-nil}

abbrev taken : ℕ → List Completion → List Completion
taken zero q = []
taken (suc n) [] = []
taken (suc n) (wc ∷ q) = wc ∷ taken n q

abbrev left : ℕ → List Completion → List Completion
left zero q = q
left (suc n) [] = []
left (suc n) (wc ∷ q) = left n q

abbrev pub C : CompletionQueue
C = record {
  State = List Completion;
  poll_cq = λ n q. (some (taken n q), left n q);
  pending = λ q. q;
}

taken-few : (n : ℕ) (q : List Completion) → length (taken n q) ≤ n
taken-few zero q = omega arith
taken-few (suc n) [] = omega arith
taken-few (suc n) (wc ∷ q) = omega (arith, taken-few n q)

taken-some : (n : ℕ) (q : List Completion) → 0 < n → 0 < length q → 0 < length (taken n q)
taken-some zero q pos some_left = absurd (omega arith)
taken-some (suc n) [] pos some_left = absurd (omega arith)
taken-some (suc n) (wc ∷ q) pos some_left = omega arith

taken-left : (n : ℕ) (q : List Completion) → q ≡ taken n q ++ left n q
taken-left zero q = refl
taken-left (suc n) [] = refl
taken-left (suc n) (wc ∷ q) = ap {B = List Completion} (λ l. wc ∷ l) (taken-left n q)

pub verbs : IsVerbs C
verbs expected q = record {
  taken = taken expected q;
  rest = left expected q;
  fresh = [];
  answer = refl;
  few = taken-few expected q;
  some_taken = taken-some expected q;
  front = taken-left expected q;
  behind = sym (append-nil (left expected q));
}

abbrev pub good : Completion
good = record { success = true; qp_num = 7 }

abbrev wrong : Completion
wrong = record { success = true; qp_num = 8 }

-- The second completion is of another queue pair.
exchange_takes_two_example : exchange_initial_message C 7 true 3 (good ∷ wrong ∷ good ∷ []) ≡ throws
unfolding passes
exchange_takes_two_example =
    exchange_takes_two C verbs 7 3 (good ∷ wrong ∷ good ∷ []) good wrong (good ∷ []) (omega arith)
      refl

abbrev pub info : RdmaInfo
info = record { rkey = 5; kind = worker; type_id = 0; node_id = 1 }

abbrev arrival : ℕ → Event → Arrival C
arrival i e = record {
  event = e;
  id = i;
  succeeds = λ c. true;
  posted = true;
  queue = good ∷ good ∷ [];
  message = info;
}

works : (i : ℕ) (e : Event) → Works C (arrival i e)
works i e = record {
  calls = λ c. refl;
  sent = refl;
  first = good;
  second = good;
  later = [];
  there = refl;
  fine = refl;
}

nothing_known :
    (i : ℕ) → i < 1 → known (get_or (unknown ∷ []) i unknown) ≡ true → initial.connections i ≡ true
nothing_known zero lt k = k
nothing_known (suc i) lt k = absurd (omega arith)

one_unknown-Unrefused : Unrefused (unknown ∷ [])
one_unknown-Unrefused zero = cc
one_unknown-Unrefused (suc i) = cc

Counts-initial : Counts opened initial (unknown ∷ [])
Counts-initial = record {
  connections = refl;
  connected = refl;
  contexts = nothing_known;
  small = omega arith;
}

-- Connection `i` comes, is established, and goes.
abbrev comes_and_goes : ℕ → List (Arrival C)
comes_and_goes i = arrival i connect_request ∷ arrival i established ∷ arrival i disconnected ∷ []

one_connection-Ordered : Ordered C (comes_and_goes 0) (unknown ∷ [])
unfolding Ordered expects
one_connection-Ordered = (
  omega arith,
  works 0 connect_request,
  (
    refl,
    (omega arith, works 0 established, (refl, (omega arith, works 0 disconnected, (refl, tt)))),
  ),
)

handle_example :
    (s : State) × (handle C 3 (comes_and_goes 0) initial ≡ stopped s)
    × Counts opened s (closed ∷ [])
unfolding ends expects
handle_example =
    handle_lem C verbs 3 (omega arith) (comes_and_goes 0) initial (unknown ∷ []) Counts-initial
      one_unknown-Unrefused (refl, (refl, (refl, tt))) one_connection-Ordered

-- The first of two connections has asked, and the second has not yet.
abbrev one_asked : State
one_asked = record {
  number_connections = 1;
  number_connections_established = 0;
  connections = λ _. true;
  incoming_ids = record { id = 0; peer = none } ∷ [];
  acknowledged = 1;
}

one_asked-Counts : Counts opened one_asked (requested ∷ unknown ∷ [])
one_asked-Counts = record {
  connections = refl;
  connected = refl;
  contexts = λ i lt k. refl;
  small = omega arith;
}

one_asked-Unrefused : Unrefused (requested ∷ unknown ∷ [])
one_asked-Unrefused zero = cc
one_asked-Unrefused (suc zero) = cc
one_asked-Unrefused (suc (suc i)) = cc

-- It is refused, and the second comes and goes.
one_refused-Ordered : Ordered C (arrival 0 rejected ∷ comes_and_goes 1) (requested ∷ unknown ∷ [])
unfolding Ordered expects
one_refused-Ordered = (
  omega arith,
  works 0 rejected,
  (
    refl,
    (
      omega arith,
      works 1 connect_request,
      (
        refl,
        (omega arith, works 1 established, (refl, (omega arith, works 1 disconnected, (refl, tt)))),
      ),
    ),
  ),
)

refused_example :
    (s : State) × (handle C 3 (arrival 0 rejected ∷ comes_and_goes 1) one_asked ≡ running s)
refused_example =
    refused_keeps_running C verbs 3 (omega arith) (arrival 0 rejected) (comes_and_goes 1) one_asked
      (requested ∷ unknown ∷ []) one_asked-Counts one_asked-Unrefused refl one_refused-Ordered

abbrev pub attempt : Event → Attempt C
attempt e = record {
  succeeds = λ c. true;
  addr_event = addr_resolved;
  route_event = route_resolved;
  answer = e;
  posted = true;
  queue = good ∷ good ∷ [];
  message = info;
}

pub rejected-Refused : Refused C (attempt rejected)
unfolding prepares resolves all_succeed
rejected-Refused = (refl, refl)

pub established-Accepted : Accepted C (attempt established)
unfolding prepares resolves all_succeed
established-Accepted = record {
  prepared = refl;
  answered = refl;
  sent = refl;
  first = good;
  second = good;
  later = [];
  there = refl;
  fine = refl;
}

abbrev pub nothing_open : Outgoing
nothing_open = record {
  outgoing_ids = [];
  outgoing_cqs = [];
  outgoing_channels = [];
  attempts = 0;
  live = record { channels = 0; ids = 0; cqs = 0; qps = 0; contexts = 0 };
}

-- Two attempts are refused, and their two completion queues are left.
initiate_connection_example :
    initiate_connection C
      (λ c. true)
      3
      (attempt rejected ∷ attempt rejected ∷ attempt established ∷ [])
      nothing_open
    ≡ Initiated.connected (after_retries C 2 info nothing_open)
initiate_connection_example =
    initiate_connection_lem C verbs 3 (omega arith) (λ c. true)
      (attempt rejected ∷ attempt rejected ∷ []) (attempt established) nothing_open refl
      (rejected-Refused, (rejected-Refused, tt)) established-Accepted
