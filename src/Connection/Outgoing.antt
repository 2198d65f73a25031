-- ===== src/Connection/Outgoing.antt =====
-- How `CM` makes a connection: `initiateConnection`, which tries again until the other end accepts,
-- with `resolveAddr`, and `bindHandler`, by which a storage node listens. Of what the libraries hand
-- out the model keeps how many are alive.
pub mod Retries
use rdma_synchronization.Common.{
  ℕ, zero, suc, ◌+◌, ◌-◌, Bool, true, false, Option, none, some, List, [], ◌∷◌, ◌++◌, ◌&&◌,
  if◌then◌else◌,
}
use rdma_synchronization.Connection.{
  RdmaInfo, Call, create_event_channel, create_id, resolve_addr, get_cm_event, resolve_route,
  create_cq, create_qp, allocate, post_receive, connect, bind_addr, listen, all_succeed,
}
use rdma_synchronization.Connection.Exchange.{
  CompletionQueue, Ending, done, throws, polling, exchange_rdma_info,
}
use rdma_synchronization.Connection.Handler.{Event, addr_resolved, route_resolved, established}

pub record Live : Type 0 where
  pub channels : ℕ
  pub ids : ℕ
  pub cqs : ℕ
  pub qps : ℕ
  pub contexts : ℕ

-- An `RdmaContext` of `outgoingIds`: the attempt that made it, and what the other end has told.
pub record OutgoingContext : Type 0 where
  pub attempt : ℕ
  pub peer : RdmaInfo

-- `outgoingIds`, `outgoingCqs` and `outgoingChannels`, the latter two by the attempt that made them.
pub record Outgoing : Type 0 where
  pub outgoing_ids : List OutgoingContext
  pub outgoing_cqs : List ℕ
  pub outgoing_channels : List ℕ
  pub attempts : ℕ
  pub live : Live

abbrev pub is_addr_resolved : Event → Bool
is_addr_resolved addr_resolved = true
is_addr_resolved _ = false

abbrev pub is_route_resolved : Event → Bool
is_route_resolved route_resolved = true
is_route_resolved _ = false

abbrev pub is_established : Event → Bool
is_established established = true
is_established _ = false

-- `bindHandler`, for an address of one of the two families; false is an exception.
unfoldable bind_handler : Bool → (Call → Bool) → Bool
bind_handler known_family succeeds = known_family && all_succeed succeeds (bind_addr ∷ listen ∷ [])

module _ (C : CompletionQueue) where
  -- One attempt: which calls succeed, the events that come on its channel, its completion queue, and
  -- what the other end's message holds.
  pub record Attempt : Type 0 where
    pub succeeds : Call → Bool
    pub addr_event : Event
    pub route_event : Event
    pub answer : Event
    pub posted : Bool
    pub queue : C.State
    pub message : RdmaInfo

  -- False is an exception.
  unfoldable pub resolves : Attempt → Bool
  resolves a =
      all_succeed a.succeeds (resolve_addr ∷ get_cm_event ∷ [])
      && is_addr_resolved a.addr_event
      && all_succeed a.succeeds (resolve_route ∷ get_cm_event ∷ [])
      && is_route_resolved a.route_event

  -- All up to the test of the answer.
  unfoldable pub prepares : Attempt → Bool
  prepares a =
      all_succeed a.succeeds (create_event_channel ∷ create_id ∷ [])
      && resolves a
      && all_succeed a.succeeds
          (create_cq ∷ create_qp ∷ post_receive ∷ post_receive ∷ connect ∷ get_cm_event ∷ [])

  -- What an attempt has made when the answer comes.
  abbrev pub made : Outgoing → Outgoing
  made s = record s {
    attempts = s.attempts + 1;
    live = record {
      channels = s.live.channels + 1;
      ids = s.live.ids + 1;
      cqs = s.live.cqs + 1;
      qps = s.live.qps + 1;
      contexts = s.live.contexts + 1;
    };
  }

  -- `rdma_destroy_id`, `rdma_destroy_event_channel` and `delete rdmaContext` before the next attempt.
  abbrev pub give_up : Outgoing → Outgoing
  give_up s = record s {
    live = record s.live {
      channels = s.live.channels - 1;
      ids = s.live.ids - 1;
      contexts = s.live.contexts - 1;
    };
  }

  -- The three `push_back`.
  abbrev pub enter : ℕ → RdmaInfo → Outgoing → Outgoing
  enter attempt info s = record s {
    outgoing_ids = s.outgoing_ids ++ (record { attempt = attempt; peer = info } ∷ []);
    outgoing_cqs = s.outgoing_cqs ++ (attempt ∷ []);
    outgoing_channels = s.outgoing_channels ++ (attempt ∷ []);
  }

  -- How the call ends; `retrying` is a call that has not ended with the attempts given.
  pub data Initiated : Type 0 where
    connected : Outgoing → Initiated
    threw : Initiated
    hangs : Initiated
    retrying : Outgoing → Initiated

  finish : ℕ → Attempt → Outgoing → Ending C → Initiated
  finish attempt a s (done q) = connected (enter attempt a.message s)
  finish attempt a s throws = threw
  finish attempt a s polling = hangs

  retry_loop : ℕ → List Attempt → Outgoing → Initiated
  unfolding finish
  retry_loop fuel [] s = retrying s
  retry_loop fuel (a ∷ rest) s =
      if prepares a
      then if is_established a.answer
        then finish s.attempts a (made s) (exchange_rdma_info C a.posted fuel a.queue)
        else retry_loop fuel rest (give_up (made s))
      else threw

  -- The two buffers are allocated once, before the first attempt.
  pub initiate_connection : (Call → Bool) → ℕ → List Attempt → Outgoing → Initiated
  initiate_connection succeeds fuel attempts s =
      if all_succeed succeeds (allocate ∷ allocate ∷ []) then retry_loop fuel attempts s else threw
