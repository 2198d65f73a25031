-- ===== src/Worker/Connected.antt =====
-- What a worker knows once its constructor has returned.
use rdma_synchronization.Common.{
  ℕ, zero, suc, ◌+◌, ◌-◌, ◌<◌, ◌≤◌, ◌≡◌, refl, sym, ap, ◌∙◌, Bool, true, false, some, none, List,
  [], ◌∷◌, ◌++◌, ◌&&◌, ◌==◌, if◌then◌else◌, arith, length, get_or, All, eq→==, ne→==,
}
use rdma_synchronization.Connection.{allocate}
use rdma_synchronization.Connection.Exchange.{
  Completion, CompletionQueue, IsVerbs, done, passes, exchange_initial_message,
}
use rdma_synchronization.Connection.Completions.{exchange_takes_two}
use rdma_synchronization.Connection.Outgoing.{Outgoing, Attempt}
use rdma_synchronization.Connection.Outgoing.Retries.{
  Refused, Accepted, after_retries, initiate_connection_lem,
}
use rdma_synchronization.Storage.{MemoryRegionDesc, MemoryRegions, lookup}
use rdma_synchronization.Storage.Catalog.{Told, no_region}
use mathlib.Core.List.{map, append-nil, append_assoc, map-append}
use rdma_synchronization.Worker.{
  Worker, ConnectionContext, Built, built, failed, unfinished, then_built, insert, first_region,
  Node, initiate_all, finish_all, new_worker,
}

-- The call returns, with a result of which `P` holds.
abbrev pub Returns : {A : Type 0} → Built A → (A → Type 0) → Type 0
Returns (built a) P = P a
Returns failed P = ⊥
Returns unfinished P = ⊥

lookup-insert :
    (n i : ℕ) (desc : MemoryRegionDesc) (catalog : List (ℕ × MemoryRegionDesc))
    → lookup n catalog ≡ none
    → lookup i (insert n desc catalog) ≡ (if i == n then some desc else lookup i catalog)
unfolding lookup insert
lookup-insert n i desc catalog new = rw (insert, new) refl

Returns-map :
    {A : Type 0} (b : Built A) (P Q : A → Type 0)
    → ((a : A) → P a → Q a)
    → Returns b P
    → Returns b Q
Returns-map (built a) P Q f h = f a h
Returns-map failed P Q f h = absurd h
Returns-map unfinished P Q f h = absurd h

then_case : (A B : Type 0) (b : Bool) → b ≡ true → (if b then A else B) → A
then_case A B true e a = a
then_case A B false e b = absurd (cc)

module _ (C : CompletionQueue) where
  -- A storage node that accepts after some refusals, and with which the first messages are exchanged.
  pub record IsReady (n : Node C) : Type 0 where
    pub room : n.succeeds allocate ≡ true
    pub refusals : List (Attempt C)
    pub last : Attempt C
    pub tries : n.attempts ≡ refusals ++ (last ∷ [])
    pub refused : All (Refused C) refusals
    pub accepted : Accepted C last
    pub sent : n.posted ≡ true
    pub first : Completion
    pub second : Completion
    pub later : List Completion
    pub there : C.pending n.queue ≡ first ∷ second ∷ later
    pub fine : (passes n.qp_num first && passes n.qp_num second) ≡ true

  module _ (verbs : IsVerbs C) (fuel : ℕ) (enough : 2 < fuel) where
    -- Each connection context is the one that the connection manager has entered for its node.
    initiate_all_lem :
        (nodes : List (Node C)) (s : Outgoing)
        → All IsReady nodes
        → Returns (initiate_all C fuel nodes s) (λ (s', cctxs).
          (length cctxs ≡ length nodes)
          × (map (λ c. c.attempt) s'.outgoing_ids
              ≡ map (λ c. c.attempt) s.outgoing_ids ++ map (λ c. c.rctx) cctxs))
    unfolding initiate_all
    initiate_all_lem [] s a = (refl, sym (append-nil _))
    initiate_all_lem (n ∷ nodes) s (r, a) =
        rw
          (
            r.tries,
            initiate_connection_lem C verbs fuel enough n.succeeds r.refusals r.last s r.room
                r.refused r.accepted,
          )
          (extend (initiate_all C fuel nodes s1) (initiate_all_lem nodes s1 a))
      where
        s1 : Outgoing
        s1 = after_retries C (length r.refusals) r.last.message s

        cctx : ConnectionContext
        cctx = record { rctx = s1.attempts - 1; wqe = 0 }

        newest : s.attempts + length r.refusals ≡ cctx.rctx
        newest = omega arith

        extend :
            (rest : Built (Outgoing × List ConnectionContext))
            → Returns rest (λ (s', cctxs).
              (length cctxs ≡ length nodes)
              × (map (λ c. c.attempt) s'.outgoing_ids
                  ≡ map (λ c. c.attempt) s1.outgoing_ids ++ map (λ c. c.rctx) cctxs))
            → Returns (then_built rest λ (s', cctxs). built (s', cctx ∷ cctxs)) (λ (s', cctxs).
              (length cctxs ≡ suc (length nodes))
              × (map (λ c. c.attempt) s'.outgoing_ids
                  ≡ map (λ c. c.attempt) s.outgoing_ids ++ map (λ c. c.rctx) cctxs))
        extend (built (s', cctxs)) (e, f) = (
          ap suc e,
          f
              ∙ ap (λ l. l ++ map (λ c. c.rctx) cctxs)
                  (map-append (λ c. c.attempt) s.outgoing_ids _
                    ∙ ap (λ (x : ℕ). map (λ c. c.attempt) s.outgoing_ids ++ (x ∷ [])) newest)
              ∙ append_assoc (map (λ c. c.attempt) s.outgoing_ids) (cctx.rctx ∷ [])
                  (map (λ c. c.rctx) cctxs),
        )
        extend failed h = absurd h
        extend unfinished h = absurd h

    -- The entry for each node is the first region of its message.
    finish_all_lem :
        (nodes : List (Node C)) (n_i : ℕ) (catalog : List (ℕ × MemoryRegionDesc)) (d : Node C)
        → All IsReady nodes
        → ((i : ℕ) → n_i ≤ i → lookup i catalog ≡ none)
        → Returns (finish_all C fuel n_i nodes catalog) (λ catalog'.
          ((i : ℕ) → i < n_i → lookup i catalog' ≡ lookup i catalog)
          × ((i : ℕ)
              → i < length nodes
              → lookup (n_i + i) catalog' ≡ some (first_region (get_or nodes i d).message)))
    unfolding finish_all
    finish_all_lem [] n_i catalog d a new = (λ i lt. refl, λ i lt. absurd (omega arith))
    finish_all_lem (n ∷ nodes) n_i catalog d (r, a) new =
        rw (finish_all, exchanged.1)
          (Returns-map (finish_all C fuel (n_i + 1) nodes grown) _ _
            (λ catalog' (old, entries). (
              (λ i lt. old i (omega arith) ∙ entry i ∙ rw (ne→== i n_i (omega arith)) refl),
              place catalog' old entries,
            ))
            (finish_all_lem nodes (n_i + 1) grown d a
              (λ i le. entry i ∙ rw (ne→== i n_i (omega arith)) (new i (omega arith)))))
      where
        grown : List (ℕ × MemoryRegionDesc)
        grown = insert n_i (first_region n.message) catalog

        entry :
            (i : ℕ)
            → lookup i grown
              ≡ (if i == n_i then some (first_region n.message) else lookup i catalog)
        entry i = lookup-insert n_i i (first_region n.message) catalog (new n_i (omega arith))

        exchanged :
            (q' : C.State) × (exchange_initial_message C n.qp_num n.posted fuel n.queue ≡ done q')
        exchanged =
            let (q', more, e, rest) =
              then_case _ _ (passes n.qp_num r.first && passes n.qp_num r.second) r.fine (
                exchange_takes_two C verbs n.qp_num fuel n.queue r.first r.second r.later enough
                  r.there) in
            (q', ap (λ b. exchange_initial_message C n.qp_num b fuel n.queue) r.sent ∙ e)

        place :
            (catalog' : List (ℕ × MemoryRegionDesc))
            → ((i : ℕ) → i < n_i + 1 → lookup i catalog' ≡ lookup i grown)
            → ((i : ℕ)
                → i < length nodes
                → lookup (n_i + 1 + i) catalog' ≡ some (first_region (get_or nodes i d).message))
            → (i : ℕ) → i < suc (length nodes)
            → lookup (n_i + i) catalog' ≡ some (first_region (get_or (n ∷ nodes) i d).message)
        place catalog' old entries zero lt =
            ap (λ (j : ℕ). lookup j catalog') (omega arith)
            ∙ old n_i (omega arith)
            ∙ entry n_i
            ∙ rw (eq→== n_i n_i refl) refl
        place catalog' old entries (suc i) lt =
            ap (λ (j : ℕ). lookup j catalog') (omega arith) ∙ entries i (omega arith)

    -- Where every storage node accepts after some refusals, the first messages get through, and each
    -- node's message tells of its region with number 0, the constructor returns: with one context for
    -- each node, those that the connection manager has entered and in their order, and with the region
    -- of each node in the catalog under the number of the node.
    pub new_worker_lem :
        (worker_id node_id : ℕ) (nodes : List (Node C)) (s : Outgoing) (d : Node C) (name : ℕ → ℕ)
        (desc : ℕ → MemoryRegionDesc)
        → All IsReady nodes
        → ((i : ℕ)
            → i < length nodes
            → Told (get_or nodes i d).message.mem_regions (name i, desc i))
        → ((i : ℕ) → i < length nodes → (desc i).region_id ≡ 0)
        → Returns (new_worker C fuel true worker_id node_id nodes s) (λ (w, s').
          (length w.cctxs ≡ length nodes)
          × (map (λ c. c.attempt) s'.outgoing_ids
              ≡ map (λ c. c.attempt) s.outgoing_ids ++ map (λ c. c.rctx) w.cctxs)
          × ((i : ℕ) → i < length nodes → lookup i w.catalog ≡ some (desc i)))
    unfolding new_worker lookup
    new_worker_lem worker_id node_id nodes s d name desc a told first =
        both (initiate_all C fuel nodes s) (finish_all C fuel 0 nodes [])
          (initiate_all_lem nodes s a) (finish_all_lem nodes 0 [] d a (λ i le. refl))
      where
        region : (i : ℕ) → i < length nodes → first_region (get_or nodes i d).message ≡ desc i
        region i lt =
            ap
              (λ (r : MemoryRegions).
                let x : MemoryRegionDesc = record {
                  start = r.offset;
                  size_bytes = r.size_bytes;
                  region_id = 0;
                } in
                x)
              (ap (λ (j : ℕ). get_or (get_or nodes i d).message.mem_regions j no_region)
                  (sym (first i lt))
                ∙ told i lt)
            ∙ ap (λ (j : ℕ). let x : MemoryRegionDesc = record (desc i) { region_id = j } in x)
                (sym (first i lt))

        both :
            (begun : Built (Outgoing × List ConnectionContext))
            (ended : Built (List (ℕ × MemoryRegionDesc)))
            → Returns begun (λ (s', cctxs).
              (length cctxs ≡ length nodes)
              × (map (λ c. c.attempt) s'.outgoing_ids
                  ≡ map (λ c. c.attempt) s.outgoing_ids ++ map (λ c. c.rctx) cctxs))
            → Returns ended (λ catalog.
              ((i : ℕ) → i < 0 → lookup i catalog ≡ lookup i [])
              × ((i : ℕ)
                  → i < length nodes
                  → lookup (0 + i) catalog ≡ some (first_region (get_or nodes i d).message)))
            → Returns {A = Worker × Outgoing}
                (then_built begun λ (s', cctxs). then_built ended λ catalog. built (
                  record {
                    worker_id = worker_id;
                    node_id = node_id;
                    cctxs = cctxs;
                    catalog = catalog;
                  },
                  s',
                ))
                (λ (w, s').
                  (length w.cctxs ≡ length nodes)
                  × (map (λ c. c.attempt) s'.outgoing_ids
                      ≡ map (λ c. c.attempt) s.outgoing_ids ++ map (λ c. c.rctx) w.cctxs)
                  × ((i : ℕ) → i < length nodes → lookup i w.catalog ≡ some (desc i)))
        both (built (s', cctxs)) (built catalog) (e, f) (old, entries) = (
          e,
          f,
          λ i lt.
              ap (λ (j : ℕ). lookup j catalog) (omega arith) ∙ entries i lt ∙ ap some (region i lt),
        )
        both failed ended h h' = absurd h
        both unfinished ended h h' = absurd h
        both (built a) failed h h' = absurd h'
        both (built a) unfinished h h' = absurd h'
