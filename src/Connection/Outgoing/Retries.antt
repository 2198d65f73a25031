-- ===== src/Connection/Outgoing/Retries.antt =====
-- What `initiateConnection` leaves behind after refused attempts.
use rdma_synchronization.Common.{
  ℕ, ◌+◌, ◌<◌, ◌≡◌, ap, ◌∙◌, Bool, true, false, List, [], ◌∷◌, ◌++◌, ◌&&◌, arith, length, All,
}
use rdma_synchronization.Connection.{Call, RdmaInfo, all_succeed, allocate}
use rdma_synchronization.Connection.Exchange.{
  Completion, CompletionQueue, IsVerbs, exchange_rdma_info,
}
use rdma_synchronization.Connection.Completions.{exchange_rdma_info_lem}
use rdma_synchronization.Connection.Outgoing.{
  Outgoing, Attempt, prepares, is_established, connected, finish, retry_loop, initiate_connection,
  give_up, made,
}

module _ (C : CompletionQueue) where
  -- The attempt gets an answer other than that the connection is established.
  abbrev pub Refused : Attempt C → Type 0
  Refused a = (prepares C a ≡ true) × (is_established a.answer ≡ false)

  -- The other end accepts, and both messages get through.
  pub record Accepted (a : Attempt C) : Type 0 where
    pub prepared : prepares C a ≡ true
    pub answered : is_established a.answer ≡ true
    pub sent : a.posted ≡ true
    pub first : Completion
    pub second : Completion
    pub later : List Completion
    pub there : C.pending a.queue ≡ first ∷ second ∷ later
    pub fine : (first.success && second.success) ≡ true

  -- After `k` refused attempts and one that is accepted.
  abbrev pub after_retries : ℕ → RdmaInfo → Outgoing → Outgoing
  after_retries k info s = record {
    outgoing_ids = s.outgoing_ids ++ (record { attempt = s.attempts + k; peer = info } ∷ []);
    outgoing_cqs = s.outgoing_cqs ++ ((s.attempts + k) ∷ []);
    outgoing_channels = s.outgoing_channels ++ ((s.attempts + k) ∷ []);
    attempts = s.attempts + k + 1;
    live = record {
      channels = s.live.channels + 1;
      ids = s.live.ids + 1;
      cqs = s.live.cqs + k + 1;
      qps = s.live.qps + k + 1;
      contexts = s.live.contexts + 1;
    };
  }

  module _ (verbs : IsVerbs C) (fuel : ℕ) (enough : 2 < fuel) where
    retry_loop_lem :
        (refusals : List (Attempt C)) (a : Attempt C) (s : Outgoing)
        → All Refused refusals
        → Accepted a
        → retry_loop C fuel (refusals ++ (a ∷ [])) s
          ≡ connected (after_retries (length refusals) a.message s)
    unfolding retry_loop finish
    retry_loop_lem [] a s all last =
        let (q, new, ended, behind) =
          exchange_rdma_info_lem C verbs fuel a.queue last.first last.second last.later enough
            last.there last.fine in
        let run = ap (λ b. exchange_rdma_info C b fuel a.queue) last.sent ∙ ended in
        rw (last.prepared, last.answered, run) (ap connected (ground arith))
    retry_loop_lem (r ∷ refusals) a s (refused, all) last =
        rw (refused.0, refused.1)
          (retry_loop_lem refusals a (give_up C (made C s)) all last ∙ ap connected (ground arith))

    -- `initiateConnection` returns with the first attempt that the other end accepts, having entered
    -- one context with what the other end has told, its completion queue and its channel. Of the
    -- refused attempts before it, the channels and identifiers are gone, and each leaves behind a
    -- completion queue and a queue pair.
    pub initiate_connection_lem :
        (succeeds : Call → Bool) (refusals : List (Attempt C)) (a : Attempt C) (s : Outgoing)
        → succeeds allocate ≡ true
        → All Refused refusals
        → Accepted a
        → initiate_connection C succeeds fuel (refusals ++ (a ∷ [])) s
          ≡ connected (after_retries (length refusals) a.message s)
    unfolding initiate_connection all_succeed
    initiate_connection_lem succeeds refusals a s room all last =
        rw room (retry_loop_lem refusals a s all last)
