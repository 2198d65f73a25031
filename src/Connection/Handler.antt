-- ===== src/Connection/Handler.antt =====
-- `CM::handle`, the loop of the thread that takes the events of incoming connections.
use rdma_synchronization.Common.{
  ℕ, ◌+◌, Bool, true, false, Option, none, some, List, [], ◌∷◌, ◌++◌, ◌==◌, if◌then◌else◌, update,
}
use rdma_synchronization.Common.Word.{add_u64, sub_u64}
use rdma_synchronization.Connection.{
  RdmaInfo, Call, create_cq, create_qp, allocate, post_receive, accept, all_succeed,
}
use rdma_synchronization.Connection.Exchange.{
  CompletionQueue, done, throws, polling, exchange_rdma_info,
}

-- The events that the switch names, and any other.
pub data Event : Type 0 where
  addr_resolved route_resolved connect_request established addr_error route_error connect_error
        unreachable rejected disconnected device_removal timewait_exit other :
      Event

-- An `RdmaContext` of `incomingIds`: its connection, and what the other end has told of itself.
pub record IncomingContext : Type 0 where
  pub id : ℕ
  pub peer : Option RdmaInfo

-- The members of `CM` that the loop uses. `connections` says which identifiers have a `ComSetupContext`.
pub record State : Type 0 where
  pub number_connections : ℕ
  pub number_connections_established : ℕ
  pub connections : ℕ → Bool
  pub incoming_ids : List IncomingContext
  pub acknowledged : ℕ

-- The loop goes on, has returned, has ended by an exception, or hangs in the exchange.
pub data Outcome : Type 0 where
  running : State → Outcome
  stopped : State → Outcome
  failed : Outcome
  hangs : Outcome

-- `currentId->context` gets what came with the other end's message.
unfoldable pub set_peer : ℕ → RdmaInfo → List IncomingContext → List IncomingContext
set_peer id info [] = []
set_peer id info (c ∷ cs) =
    (if c.id == id then record c { peer = some info } else c) ∷ set_peer id info cs

abbrev pub acknowledge : State → State
acknowledge s = record s { acknowledged = s.acknowledged + 1 }

-- `connections[currentId] = new ComSetupContext`
unfoldable pub add_context : Event → ℕ → State → State
add_context connect_request id s = record s { connections = update s.connections id true }
add_context _ id s = s

-- What is left of a round: `if (numberConnections == 0) … return`.
unfoldable pub stop_or_go_on : Outcome → Outcome
stop_or_go_on (running s) = if s.number_connections == 0 then stopped s else running s
stop_or_go_on (stopped s) = stopped s
stop_or_go_on failed = failed
stop_or_go_on hangs = hangs

-- `RDMA_CM_EVENT_DISCONNECTED`
unfoldable pub disconnect : State → State
disconnect s =
    let s1 = acknowledge s in
    record s1 {
      number_connections = sub_u64 s1.number_connections 1;
      number_connections_established = sub_u64 s1.number_connections_established 1;
    }

module _ (C : CompletionQueue) where
  -- An event for a connection: which calls succeed while it is handled, the completion queue of the
  -- connection, and what the other end's message holds.
  pub record Arrival : Type 0 where
    pub event : Event
    pub id : ℕ
    pub succeeds : Call → Bool
    pub posted : Bool
    pub queue : C.State
    pub message : RdmaInfo

  -- `RDMA_CM_EVENT_CONNECT_REQUEST`
  unfoldable pub request_connection : Arrival → State → Outcome
  request_connection a s =
      let s1 = acknowledge (record s { number_connections = add_u64 s.number_connections 1 }) in
      if all_succeed a.succeeds
        (create_cq ∷ create_qp ∷ allocate ∷ post_receive ∷ allocate ∷ post_receive ∷ accept ∷ [])
      then running
          (record s1 { incoming_ids = s1.incoming_ids ++ (record { id = a.id; peer = none } ∷ []) })
      else failed

  -- `RDMA_CM_EVENT_ESTABLISHED`
  unfoldable pub establish : ℕ → Arrival → State → Outcome
  establish fuel a s = elim (exchange_rdma_info C a.posted fuel a.queue) [
    | throws ↦ failed
    | polling ↦ hangs
    | done q ↦
        let s1 = acknowledge (record s { incoming_ids = set_peer a.id a.message s.incoming_ids }) in
        running (record s1 {
          number_connections_established = add_u64 s1.number_connections_established 1;
        })
  ]

  -- The switch. The events with which nothing is done are not acknowledged either.
  unfoldable pub switch : ℕ → Event → Arrival → State → Outcome
  switch fuel addr_resolved a s = running s
  switch fuel route_resolved a s = running s
  switch fuel connect_request a s = request_connection a s
  switch fuel established a s = establish fuel a s
  switch fuel addr_error a s = running s
  switch fuel route_error a s = running s
  switch fuel connect_error a s = running s
  switch fuel unreachable a s = running s
  switch fuel rejected a s = running s
  switch fuel disconnected a s = running (disconnect s)
  switch fuel device_removal a s = running s
  switch fuel timewait_exit a s = running (acknowledge s)
  switch fuel other a s = failed

  -- One round on event `e`: `ensure(context != nullptr)`, the switch, and the test at the end.
  unfoldable pub handle_event : ℕ → Event → Arrival → State → Outcome
  handle_event fuel e a s =
      let s1 = add_context e a.id s in
      if s1.connections a.id then stop_or_go_on (switch fuel e a s1) else failed

  -- The loop over the events that come.
  unfoldable pub handle : ℕ → List Arrival → State → Outcome
  handle fuel [] s = running s
  handle fuel (a ∷ rest) s = elim (handle_event fuel a.event a s) [
    | running s1 ↦ handle fuel rest s1
    | stopped s1 ↦ stopped s1
    | failed ↦ failed
    | hangs ↦ hangs
  ]

abbrev pub initial : State
initial = record {
  number_connections = 0;
  number_connections_established = 0;
  connections = λ _. false;
  incoming_ids = [];
  acknowledged = 0;
}
