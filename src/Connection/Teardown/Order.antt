-- ===== src/Connection/Teardown/Order.antt =====
-- Whether the calls of the destructor come in an order that the verbs accept.
use rdma_synchronization.Common.{
  ℕ, Bool, true, false, ◌&&◌, not, ◌-◌, ◌≡◌, refl, ap, ◌∙◌, none, some, List, [], ◌∷◌, ◌++◌, ◌==◌,
  if◌then◌else◌, length, All, ==→eq, Bool-cases, inl, inr,
}
use rdma_synchronization.Connection.Handler.{IncomingContext}
use rdma_synchronization.Connection.Outgoing.{Outgoing, OutgoingContext}
use rdma_synchronization.Connection.Teardown.{
  Owner, Action, outgoing, listener, disconnect, destroy_qp, destroy_cq, destroy_id, delete_context,
  drain, destroy_channel, dereg_mr, dealloc_pd, join_handler, outgoing_owners, incoming_owners,
  teardown,
}
use mathlib.Core.List.{map, map-map}
use rdma_synchronization.Connection.Teardown.Discipline.{
  Owned, has, release, release_all, same_refl, has-append_right, has-append_left, All-has, All-map,
  All-trivial, then_release, consume, pass,
}

-- What `CM` owns when its destructor starts. `waiting` is whether the thread that listens has not ended
-- by the time that its channel is destroyed.
abbrev pub owned : Outgoing → List IncomingContext → Bool → Owned
owned s incoming_ids waiting =
    let outs = outgoing_owners s in
    let ins = incoming_owners incoming_ids in
    record {
      ids = outs ++ (ins ++ (listener ∷ []));
      qps = outs ++ (ins ++ []);
      cqs = outs ++ (ins ++ []);
      channels = listener ∷ outs ++ [];
      contexts = outs ++ (ins ++ []);
      orphans = s.live.qps - length s.outgoing_ids;
      mr = true;
      pd = true;
      handler = true;
      waiting = waiting;
    }

abbrev pub nothing : Owned
nothing = record {
  ids = [];
  qps = [];
  cqs = [];
  channels = [];
  contexts = [];
  orphans = 0;
  mr = false;
  pd = false;
  handler = false;
  waiting = false;
}

no_incoming :
    (outs : List OutgoingContext) (ins : List IncomingContext)
    → All (λ o. has o (incoming_owners ins ++ []) ≡ false) (map (λ c. outgoing c.attempt) outs)
no_incoming [] ins = tt
no_incoming (c ∷ outs) ins = (apart ins, no_incoming outs ins)
  where
    apart : (l : List IncomingContext) → has (outgoing c.attempt) (incoming_owners l ++ []) ≡ false
    apart [] = refl
    apart (d ∷ l) = apart l

module _ (s : Outgoing) (incoming_ids : List IncomingContext) where
  abbrev outs : List Owner
  outs = outgoing_owners s

  abbrev ins : List Owner
  ins = incoming_owners incoming_ids

  module _ (waiting : Bool) where
    abbrev w0 : Owned
    w0 = owned s incoming_ids waiting

    outs_gone : release_all (map disconnect outs) w0 ≡ some w0
    unfolding release
    outs_gone =
        pass disconnect w0 outs (
          All-map outs (λ o h. rw h refl) (All-has outs w0.ids (λ o h. has-append_left o outs _ h)))

    ins_gone : release_all (map disconnect ins) w0 ≡ some w0
    unfolding release
    ins_gone = pass disconnect w0 ins (
        All-map ins (λ o h. rw h refl)
          (All-has ins w0.ids (λ o h. has-append_right o outs _ (has-append_left o ins _ h))))

    drain_outs : release_all (map drain outs) w0 ≡ some w0
    unfolding release
    drain_outs = pass drain w0 outs (
        All-map outs (λ o h. rw h refl)
          (All-has outs w0.channels
            (λ o h. has-append_right o (listener ∷ []) _ (has-append_left o outs _ h))))

    abbrev w1 : Owned
    w1 = record w0 { qps = ins ++ [] }

    destroy_qp_outs : release_all (map destroy_qp outs) w0 ≡ some w1
    unfolding release
    destroy_qp_outs =
        consume destroy_qp (λ l. record w0 { qps = l }) (λ o. has o w0.ids ≡ true)
          (λ o l h. rw (h, same_refl o) refl) outs (ins ++ [])
          (All-has outs w0.ids (λ o h. has-append_left o outs _ h))

    abbrev w2 : Owned
    w2 = record w1 { cqs = ins ++ [] }

    destroy_cq_outs : release_all (map destroy_cq outs) w1 ≡ some w2
    unfolding release
    destroy_cq_outs =
        consume destroy_cq (λ l. record w1 { cqs = l }) (λ o. has o w1.qps ≡ false)
          (λ o l h. rw (h, same_refl o) refl) outs (ins ++ [])
          (no_incoming s.outgoing_ids incoming_ids)

    abbrev w3 : Owned
    w3 = record w2 { ids = ins ++ (listener ∷ []) }

    destroy_id_outs : release_all (map destroy_id outs) w2 ≡ some w3
    unfolding release
    destroy_id_outs =
        consume destroy_id (λ l. record w2 { ids = l }) (λ o. has o w2.qps ≡ false)
          (λ o l h. rw (h, same_refl o) refl) outs (ins ++ (listener ∷ []))
          (no_incoming s.outgoing_ids incoming_ids)

    abbrev w4 : Owned
    w4 = record w3 { qps = [] }

    destroy_qp_ins : release_all (map destroy_qp ins) w3 ≡ some w4
    unfolding release
    destroy_qp_ins =
        consume destroy_qp (λ l. record w3 { qps = l }) (λ o. has o w3.ids ≡ true)
          (λ o l h. rw (h, same_refl o) refl) ins []
          (All-has ins w3.ids (λ o h. has-append_left o ins _ h))

    abbrev w5 : Owned
    w5 = record w4 { cqs = [] }

    destroy_cq_ins : release_all (map destroy_cq ins) w4 ≡ some w5
    unfolding release
    destroy_cq_ins =
        consume destroy_cq (λ l. record w4 { cqs = l }) (λ o. Unit {0})
          (λ o l h. rw (same_refl o) refl) ins [] (All-trivial ins)

    abbrev w6 : Owned
    w6 = record w5 { ids = listener ∷ [] }

    destroy_id_ins : release_all (map destroy_id ins) w5 ≡ some w6
    unfolding release
    destroy_id_ins =
        consume destroy_id (λ l. record w5 { ids = l }) (λ o. Unit {0})
          (λ o l h. rw (same_refl o) refl) ins (listener ∷ []) (All-trivial ins)

    -- The calls up to the listener's own.
    listener_on : List Action
    listener_on =
        destroy_id listener ∷ destroy_channel listener ∷ []
        ++ (map destroy_channel outs
            ++ (dereg_mr ∷ dealloc_pd ∷ join_handler ∷ []
                ++ (map delete_context outs ++ map delete_context ins)))

    until_listener :
        s.outgoing_cqs ≡ map (λ c. c.attempt) s.outgoing_ids
        → s.outgoing_channels ≡ map (λ c. c.attempt) s.outgoing_ids
        → release_all (teardown s incoming_ids) w0 ≡ release_all listener_on w6
    unfolding teardown listener_on
    until_listener cqs channels =
        rw (cqs, channels, map-map outgoing (λ (c : OutgoingContext). c.attempt) s.outgoing_ids)
          (then_release (map disconnect outs) _ w0 w0 outs_gone
            ∙ then_release (map disconnect ins) _ w0 w0 ins_gone
            ∙ then_release (map drain outs) _ w0 w0 drain_outs
            ∙ then_release (map destroy_qp outs) _ w0 w1 destroy_qp_outs
            ∙ then_release (map destroy_cq outs) _ w1 w2 destroy_cq_outs
            ∙ then_release (map destroy_id outs) _ w2 w3 destroy_id_outs
            ∙ then_release (map destroy_qp ins) _ w3 w4 destroy_qp_ins
            ∙ then_release (map destroy_cq ins) _ w4 w5 destroy_cq_ins
            ∙ then_release (map destroy_id ins) _ w5 w6 destroy_id_ins)

  abbrev w7 : Owned
  w7 = record (w6 false) { ids = []; channels = outs ++ [] }

  destroy_listener :
      release_all (destroy_id listener ∷ destroy_channel listener ∷ []) (w6 false) ≡ some w7
  unfolding release release_all
  destroy_listener = refl

  abbrev w8 : Owned
  w8 = record w7 { channels = [] }

  destroy_channels : release_all (map destroy_channel outs) w7 ≡ some w8
  unfolding release
  destroy_channels =
      consume destroy_channel (λ l. record w7 { channels = l }) (λ o. Unit {0})
        (λ o l h. rw (same_refl o) refl) outs [] (All-trivial outs)

  delete_contexts :
      (w : Owned)
      → w.contexts ≡ outs ++ (ins ++ [])
      → release_all (map delete_context outs ++ map delete_context ins) w
        ≡ some (record w { contexts = [] })
  unfolding release
  delete_contexts w e =
      then_release (map delete_context outs) (map delete_context ins) w
        (record w { contexts = ins ++ [] })
        (ap (λ l. release_all (map delete_context outs) (record w { contexts = l })) e
          ∙ consume delete_context (λ l. record w { contexts = l }) (λ o. Unit {0})
              (λ o l h. rw (same_refl o) refl) outs (ins ++ []) (All-trivial outs))
      ∙ consume delete_context (λ l. record w { contexts = l }) (λ o. Unit {0})
          (λ o l h. rw (same_refl o) refl) ins [] (All-trivial ins)

  ending :
      release_all
        (dereg_mr ∷ dealloc_pd ∷ join_handler ∷ []
          ++ (map delete_context outs ++ map delete_context ins))
        w8
      ≡ (if (w0 false).orphans == 0 then some nothing else none)
  unfolding release release_all
  ending = elim (Bool-cases ((w0 false).orphans == 0)) [
    | inl e ↦ rw e (
        delete_contexts _ refl
        ∙ ap (λ (n : ℕ). some (record nothing { orphans = n })) (==→eq _ _ e))
    | inr e ↦ rw e refl
  ]

  given_back :
      release_all (listener_on false) (w6 false)
      ≡ (if (w0 false).orphans == 0 then some nothing else none)
  unfolding listener_on
  given_back =
      then_release (destroy_id listener ∷ destroy_channel listener ∷ []) _ (w6 false) w7
        destroy_listener
      ∙ then_release (map destroy_channel outs) _ w7 w8 destroy_channels
      ∙ ending

  in_use : release_all (listener_on true) (w6 true) ≡ none
  unfolding release release_all listener_on
  in_use = refl

  -- Where each context that an outgoing connection entered has its completion queue and its channel,
  -- the destructor destroys everything, and each thing before what it uses, if the thread that listens
  -- has ended by the time that its channel is destroyed and no refused attempt has left a queue pair
  -- behind. If that thread still waits the channel is in use when it is destroyed, and if a queue pair
  -- is left the protection domain cannot be given back.
  pub teardown_lem :
      (waiting : Bool)
      → s.outgoing_cqs ≡ map (λ c. c.attempt) s.outgoing_ids
      → s.outgoing_channels ≡ map (λ c. c.attempt) s.outgoing_ids
      → release_all (teardown s incoming_ids) (owned s incoming_ids waiting)
        ≡ (if not waiting && (s.live.qps - length s.outgoing_ids == 0) then some nothing else none)
  teardown_lem true cqs channels = until_listener true cqs channels ∙ in_use
  teardown_lem false cqs channels = until_listener false cqs channels ∙ given_back
