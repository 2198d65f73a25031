-- ===== src/Connection/Counts.antt =====
-- The counters of the handler thread against what the connections are, and when its loop ends.
use rdma_synchronization.Common.{
  ℕ, ◌+◌, ◌^◌, ◌<◌, ◌≡◌, ◌≢◌, refl, sym, ap, ◌∙◌, Bool, true, false, none, some, List, [], ◌∷◌,
  ◌==◌, ◌&&◌, if◌then◌else◌, arith, length, get_or, set, update, length-set, get_or-set_ne,
  Bool-cases, inl, inr, ℕ_discrete, ne→==,
}
use rdma_synchronization.Common.Sums.{sum, sum-set, sum-bound, member}
use rdma_synchronization.Connection.{
  Call, create_cq, create_qp, allocate, post_receive, accept, all_succeed,
}
use rdma_synchronization.Connection.Exchange.{
  Completion, CompletionQueue, IsVerbs, exchange_rdma_info,
}
use rdma_synchronization.Connection.Completions.{exchange_rdma_info_lem}
use rdma_synchronization.Connection.Handler.{
  Event, addr_resolved, route_resolved, connect_request, established, addr_error, route_error,
  connect_error, unreachable, rejected, disconnected, device_removal, timewait_exit, other, State,
  Outcome, running, stopped, Arrival, handle, handle_event, stop_or_go_on, add_context, switch,
  request_connection, establish, disconnect,
}
use rdma_synchronization.Connection.Phases.{
  Phase, unknown, requested, connected, refused, closed, expects, counted, up, known, counted-1,
  up-le, Required, Permitted, required_lem, permitted_lem, never_refused,
}

pub record Counts (f : Phase → ℕ) (s : State) (ps : List Phase) : Type 0 where
  pub connections : s.number_connections ≡ sum f ps
  pub connected : s.number_connections_established ≡ sum up ps
  pub contexts :
      (i : ℕ) → i < length ps → known (get_or ps i unknown) ≡ true → s.connections i ≡ true
  pub small : length ps < 2 ^ 64

-- The loop has returned if no connection is counted any more, and goes on otherwise; its counters are
-- right.
abbrev pub Agrees : Outcome → List Phase → Type 0
Agrees o ps =
    (s : State) × (o ≡ (if sum counted ps == 0 then stopped s else running s)) × Counts counted s ps

stop-Agrees :
    (s : State) (ps : List Phase) → Counts counted s ps → Agrees (stop_or_go_on (running s)) ps
unfolding stop_or_go_on
stop-Agrees s ps c = (s, rw c.connections refl, c)

all_succeed_lem :
    {succeeds : Call → Bool}
    → ((c : Call) → succeeds c ≡ true)
    → (cs : List Call) → all_succeed succeeds cs ≡ true
unfolding all_succeed
all_succeed_lem h [] = refl
all_succeed_lem h (c ∷ cs) = rw (h c) (all_succeed_lem h cs)

module _ (C : CompletionQueue) where
  -- The calls for an event succeed: memory and queues are there, and the other end's message comes.
  pub record Works (a : Arrival C) : Type 0 where
    pub calls : (c : Call) → a.succeeds c ≡ true
    pub sent : a.posted ≡ true
    pub first : Completion
    pub second : Completion
    pub later : List Completion
    pub there : C.pending a.queue ≡ first ∷ second ∷ later
    pub fine : (first.success && second.success) ≡ true

  -- The events come as librdmacm reports them.
  unfoldable pub Ordered : List (Arrival C) → List Phase → Type 0
  Ordered [] ps = Unit
  Ordered (a ∷ rest) ps =
      (a.id < length ps)
      × Works a
      × Required (expects a.event)
          (λ p q. (get_or ps a.id unknown ≡ p) × Ordered rest (set ps a.id q))

  -- The phases when the handler returns or waits for the next event, and whether it has returned:
  -- it does with the first event after which the sum of `f` over the connections is 0.
  unfoldable pub ends : (Phase → ℕ) → List (Arrival C) → List Phase → List Phase × Bool
  ends f [] ps = (ps, false)
  ends f (a ∷ rest) ps = elim (expects a.event) [
    | none ↦ (ps, false)
    | some (p, q) ↦
        let ps' = set ps a.id q in if sum f ps' == 0 then (ps', true) else ends f rest ps'
  ]

  pub ends_refused :
      (arrivals : List (Arrival C)) (ps : List Phase) (i : ℕ)
      → i < length ps
      → get_or ps i unknown ≡ refused
      → Ordered arrivals ps
      → (ends counted arrivals ps).1 ≡ false
  unfolding Ordered ends
  ends_refused [] ps i lt r o = refl
  ends_refused (a ∷ rest) ps i lt r (lt_a, w, o) =
      let (p, q, e, o') = required_lem (expects a.event) o in
      let ne : a.id ≢ i =
        λ same. never_refused a.event p q e (sym o'.0 ∙ ap (λ j. get_or ps j unknown) same ∙ r) in
      let still = get_or-set_ne ps a.id i q unknown ne ∙ r in
      let lt' : i < length (set ps a.id q) = omega (arith, length-set ps a.id q) in
      let more : (sum counted (set ps a.id q) == 0) ≡ false =
        ne→== _ _ (omega (arith, member unknown counted (set ps a.id q) i lt', ap counted still)) in
      rw (ends, e, more) (ends_refused rest (set ps a.id q) i lt' still o'.1)

  module _ (verbs : IsVerbs C) (fuel : ℕ) (enough : 2 < fuel) where
    module _ {s : State} {ps : List Phase} (a : Arrival C) (lt : a.id < length ps) (w : Works a)
        (c : Counts counted s ps) where
      -- What a round does with an event of connection `a.id`.
      Rounds : Event → Type 0
      Rounds e =
          Permitted (expects e)
            (λ p q. get_or ps a.id unknown ≡ p → Agrees (handle_event C fuel e a s) (set ps a.id q))

      after :
          (f : Phase → ℕ) (q : Phase)
          → sum f (set ps a.id q) + f (get_or ps a.id unknown) ≡ sum f ps + f q
      after f q = sum-set unknown f ps a.id q lt

      -- Connection `a.id` goes from phase `p` to `q`, and the state to `s'`.
      change :
          (p q : Phase) (s' : State)
          → get_or ps a.id unknown ≡ p
          → s'.number_connections + counted p ≡ sum counted ps + counted q
          → s'.number_connections_established + up p ≡ sum up ps + up q
          → s'.connections a.id ≡ true
          → ((i : ℕ) → s.connections i ≡ true → s'.connections i ≡ true)
          → Agrees (stop_or_go_on (running s')) (set ps a.id q)
      change p q s' at n e here more = stop-Agrees s' (set ps a.id q) record {
        connections = omega (arith, n, after counted q, ap counted at);
        connected = omega (arith, e, after up q, ap up at);
        contexts = λ i lt_i k. elim (ℕ_discrete a.id i) [
          | yes same ↦ rw (← same) here
          | no ne ↦ more i (
              c.contexts i (omega (arith, length-set ps a.id q, lt_i))
                (rw (← get_or-set_ne ps a.id i q unknown ne) k))
        ];
        small = omega (arith, c.small, length-set ps a.id q);
      }

      present :
          (p : Phase) → get_or ps a.id unknown ≡ p → known p ≡ true → s.connections a.id ≡ true
      present p at k = c.contexts a.id lt (rw at k)

      few : sum counted ps < 2 ^ 64
      few = omega (arith, sum-bound counted ps counted-1, c.small)

      -- A connection that is not yet known is not counted, so that the number has room for it.
      room : get_or ps a.id unknown ≡ unknown → sum counted ps + 1 < 2 ^ 64
      room at = omega (
        arith,
        after counted requested,
        ap counted at,
        sum-bound counted (set ps a.id requested) counted-1,
        length-set ps a.id requested,
        c.small,
      )

      room_up : get_or ps a.id unknown ≡ requested → sum up ps + 1 < 2 ^ 64
      room_up at = omega (
        arith,
        after up connected,
        ap up at,
        up-le (set ps a.id connected),
        sum-bound counted (set ps a.id connected) counted-1,
        length-set ps a.id connected,
        c.small,
      )

      -- An error event changes no state; the connection is still counted.
      error_lem :
          (e : Event)
          → switch C fuel e a s ≡ running s
          → get_or ps a.id unknown ≡ requested
          → Agrees (stop_or_go_on (switch C fuel e a s)) (set ps a.id refused)
      error_lem e same at = rw same (
          change requested refused s at (omega (arith, c.connections)) (omega (arith, c.connected))
            (present requested at refl) (λ i k. k))

      establish_lem :
          get_or ps a.id unknown ≡ requested
          → Agrees (stop_or_go_on (establish C fuel a s)) (set ps a.id connected)
      unfolding establish
      establish_lem at =
          let (q, new, ended, behind) =
            exchange_rdma_info_lem C verbs fuel a.queue w.first w.second w.later enough w.there
              w.fine in
          let run = ap (λ b. exchange_rdma_info C b fuel a.queue) w.sent ∙ ended in
          rw (establish, run)
            (change requested connected _ at (omega (arith, c.connections))
              (omega (arith, c.connected, room_up at)) (present requested at refl) (λ i k. k))

      round_lem : (e : Event) → Rounds e
      unfolding Rounds expects handle_event add_context switch request_connection establish
          disconnect
      round_lem connect_request = λ at.
          let here : update s.connections a.id true a.id ≡ true = ground arith in
          rw
            (
              here,
              all_succeed_lem w.calls (
                  create_cq ∷ create_qp ∷ allocate ∷ post_receive ∷ allocate ∷ post_receive ∷ accept
                  ∷ []),
            )
            (change unknown requested _ at (omega (arith, c.connections, few, room at))
              (omega (arith, c.connected)) here (λ i k. ground (arith, k)))
      round_lem established = λ at. rw (present requested at refl) (establish_lem at)
      round_lem connect_error =
          λ at. rw (present requested at refl) (error_lem connect_error refl at)
      round_lem unreachable = λ at. rw (present requested at refl) (error_lem unreachable refl at)
      round_lem rejected = λ at. rw (present requested at refl) (error_lem rejected refl at)
      round_lem disconnected = λ at. rw (present connected at refl) (
          change connected closed _ at
            (omega (arith, c.connections, member unknown counted ps a.id lt, ap counted at, few))
            (omega (arith, c.connected, member unknown up ps a.id lt, ap up at, up-le ps, few))
            (present connected at refl) (λ i k. k))
      round_lem timewait_exit = λ at. rw (present closed at refl) (
          change closed closed _ at (omega (arith, c.connections)) (omega (arith, c.connected))
            (present closed at refl) (λ i k. k))
      round_lem addr_resolved = tt
      round_lem route_resolved = tt
      round_lem addr_error = tt
      round_lem route_error = tt
      round_lem device_removal = tt
      round_lem other = tt

    round_at :
        {s : State} {ps : List Phase} {p q : Phase} (a : Arrival C)
        → a.id < length ps
        → Works a
        → Counts counted s ps
        → expects a.event ≡ some (p, q)
        → get_or ps a.id unknown ≡ p
        → Agrees (handle_event C fuel a.event a s) (set ps a.id q)
    unfolding Rounds
    round_at {s} {ps} a lt w c e at =
        permitted_lem
          (λ p q.
            get_or ps a.id unknown ≡ p → Agrees (handle_event C fuel a.event a s) (set ps a.id q))
          e (round_lem a lt w c a.event) at

    module _ (s s1 : State) (a : Arrival C) (rest : List (Arrival C)) where
      handle_stop :
          handle_event C fuel a.event a s ≡ stopped s1 → handle C fuel (a ∷ rest) s ≡ stopped s1
      unfolding handle
      handle_stop e = rw (handle, e) refl

      handle_next :
          handle_event C fuel a.event a s ≡ running s1
          → handle C fuel (a ∷ rest) s ≡ handle C fuel rest s1
      unfolding handle
      handle_next e = rw (handle, e) refl

    -- The loop by what the handler counts.
    pub loop_lem :
        (arrivals : List (Arrival C)) (s : State) (ps : List Phase)
        → Counts counted s ps
        → Ordered arrivals ps
        → let (qs, over) = ends counted arrivals ps in
          (s' : State) × (handle C fuel arrivals s ≡ (if over then stopped s' else running s'))
          × Counts counted s' qs
    unfolding Ordered ends handle
    loop_lem [] s ps c o = (s, refl, c)
    loop_lem (a ∷ rest) s ps c (lt, w, o) =
        let (p, q, e, o') = required_lem (expects a.event) o in
        let (s1, ran, c1) = round_at a lt w c e o'.0 in
        elim (Bool-cases (sum counted (set ps a.id q) == 0)) [
          | inl none_left ↦
              rw (ends, e, none_left)
                (
                  s1,
                  handle_stop s s1 a rest
                      (ran ∙ ap (λ b. if b then stopped s1 else running s1) none_left),
                  c1,
                )
          | inr some_left ↦
              rw (ends, e, some_left)
                (rw
                  (handle_next s s1 a rest
                    (ran ∙ ap (λ b. if b then stopped s1 else running s1) some_left))
                  (loop_lem rest s1 (set ps a.id q) c1 o'.1))
        ]
