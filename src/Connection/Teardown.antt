-- ===== src/Connection/Teardown.antt =====
-- The destructor of `CM`: the calls that it makes, in their order. It ignores what they return.
pub mod Discipline
pub mod Order
use rdma_synchronization.Common.{ℕ, List, [], ◌∷◌, ◌++◌}
use rdma_synchronization.Connection.Handler.{IncomingContext}
use rdma_synchronization.Connection.Outgoing.{Outgoing}
use mathlib.Core.List.{map}

-- Whose identifier, queue pair, completion queue, channel or context it is: those of an attempt of
-- `initiateConnection`, of a connection that came in, or of the thread that listens.
pub data Owner : Type 0 where
  outgoing : ℕ → Owner
  incoming : ℕ → Owner
  listener : Owner

pub data Action : Type 0 where
  disconnect destroy_qp destroy_cq destroy_id delete_context : Owner → Action
  drain destroy_channel : Owner → Action
  dereg_mr dealloc_pd join_handler : Action

abbrev pub outgoing_owners : Outgoing → List Owner
outgoing_owners s = map (λ c. outgoing c.attempt) s.outgoing_ids

abbrev pub incoming_owners : List IncomingContext → List Owner
incoming_owners cs = map (λ c. incoming c.id) cs

unfoldable pub teardown : Outgoing → List IncomingContext → List Action
teardown s incoming_ids =
    let outs = outgoing_owners s in
    let ins = incoming_owners incoming_ids in
    let channels = map outgoing s.outgoing_channels in
    map disconnect outs
    ++ (map disconnect ins
        ++ (map drain channels
            ++ (map destroy_qp outs
                ++ (map destroy_cq (map outgoing s.outgoing_cqs)
                    ++ (map destroy_id outs
                        ++ (map destroy_qp ins
                            ++ (map destroy_cq ins
                                ++ (map destroy_id ins
                                    ++ (destroy_id listener ∷ destroy_channel listener ∷ []
                                        ++ (map destroy_channel channels
                                            ++ (dereg_mr ∷ dealloc_pd ∷ join_handler ∷ []
                                                ++ (map delete_context outs
                                                    ++ map delete_context ins))))))))))))
