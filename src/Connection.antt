-- ===== src/Connection.antt =====
-- The class `CM` of backend/nam/rdma/CommunicationManager.hpp: how a node sets up its connections, and
-- the thread of a storage node that handles those that come in. The calls of librdmacm and libibverbs
-- are parameters: for each call, whether it succeeds.
pub mod Exchange
pub mod Completions
pub mod Handler
pub mod Phases
pub mod Counts
pub mod Endings
pub mod Outgoing
pub mod Teardown
use rdma_synchronization.Common.{ℕ, Bool, true, false, List, [], ◌∷◌, ◌&&◌}

-- `Type`
pub data Kind : Type 0 where
  rdma_cm worker page_provider message_handler : Kind

-- What the two ends tell one another.
pub record RdmaInfo : Type 0 where
  pub rkey : ℕ
  pub kind : Kind
  pub type_id : ℕ
  pub node_id : ℕ

-- The calls that can fail while a connection is made.
pub data Call : Type 0 where
  create_event_channel create_id resolve_addr get_cm_event resolve_route create_cq create_qp
        allocate post_receive connect accept bind_addr listen :
      Call

-- Every call of a list succeeds; the first that does not throws.
unfoldable pub all_succeed : (Call → Bool) → List Call → Bool
all_succeed succeeds [] = true
all_succeed succeeds (c ∷ cs) = succeeds c && all_succeed succeeds cs
