-- ===== src/Connection/Endings.antt =====
-- When the handler thread returns, with and without events of failed connections.
use rdma_synchronization.Common.{
  ℕ, ◌<◌, ◌≡◌, ◌≢◌, refl, sym, ap, ◌∙◌, Bool, true, false, Bool-cases, inl, inr, List, [], ◌∷◌,
  ◌==◌, if◌then◌else◌, arith, length, get_or, set, length-set, get_or-set_self, get_or-set_ne, All,
  ℕ_discrete, ne→==, suc,
}
use mathlib.Core.Path.{subst}
use rdma_synchronization.Common.Sums.{sum, member}
use rdma_synchronization.Connection.Exchange.{CompletionQueue, IsVerbs}
use rdma_synchronization.Connection.Handler.{State, running, stopped, Arrival, handle}
use rdma_synchronization.Connection.Phases.{
  Phase, unknown, requested, connected, refused, closed, expects, counted, opened, is_error,
  required_lem, error-refused, plain-refused,
}
use rdma_synchronization.Connection.Counts.{Counts, Ordered, ends, ends_refused, loop_lem}

-- No connection has failed.
abbrev pub Unrefused : List Phase → Type 0
Unrefused ps = (i : ℕ) → get_or ps i unknown ≢ refused

counted-opened : (p : Phase) → p ≢ refused → counted p ≡ opened p
counted-opened unknown ne = refl
counted-opened requested ne = refl
counted-opened connected ne = refl
counted-opened refused ne = absurd (ne refl)
counted-opened closed ne = refl

sum-opened : (ps : List Phase) → Unrefused ps → sum counted ps ≡ sum opened ps
sum-opened [] u = refl
sum-opened (p ∷ ps) u = omega (arith, counted-opened p (u 0), sum-opened ps (λ i. u (suc i)))

set-Unrefused :
    (ps : List Phase) (i : ℕ) (q : Phase)
    → i < length ps
    → q ≢ refused
    → Unrefused ps
    → Unrefused (set ps i q)
set-Unrefused ps i q lt ne u j = elim (ℕ_discrete i j) [
  | yes same ↦ λ r.
      ne
        (sym (get_or-set_self ps i q unknown lt) ∙ ap (λ k. get_or (set ps i q) k unknown) same ∙ r)
  | no other ↦ λ r. u j (sym (get_or-set_ne ps i j q unknown other) ∙ r)
]

to_counted : {s : State} {ps : List Phase} → Unrefused ps → Counts opened s ps → Counts counted s ps
to_counted {s} {ps} u c = record {
  connections = c.connections ∙ sym (sum-opened ps u);
  connected = c.connected;
  contexts = c.contexts;
  small = c.small;
}

to_opened : {s : State} {ps : List Phase} → Unrefused ps → Counts counted s ps → Counts opened s ps
to_opened {s} {ps} u c = record {
  connections = c.connections ∙ sum-opened ps u;
  connected = c.connected;
  contexts = c.contexts;
  small = c.small;
}

module _ (C : CompletionQueue) where
  -- Without events of failed connections, none fails, and what is counted is what is open.
  plain_ends :
      (arrivals : List (Arrival C)) (ps : List Phase)
      → Unrefused ps
      → All (λ a. is_error a.event ≡ false) arrivals
      → Ordered C arrivals ps
      → (ends C counted arrivals ps ≡ ends C opened arrivals ps)
        × Unrefused ((ends C opened arrivals ps).0)
  unfolding Ordered ends
  plain_ends [] ps u plain o = (refl, u)
  plain_ends (a ∷ rest) ps u (fine, plain) (lt, w, o) =
      let (p, q, e, o') = required_lem (expects a.event) o in
      let u' : Unrefused (set ps a.id q) =
        set-Unrefused ps a.id q lt (plain-refused a.event p q e fine) u in
      let (same, more) = plain_ends rest (set ps a.id q) u' plain o'.1 in
      rw (ends, e, sum-opened (set ps a.id q) u')
        (elim (Bool-cases (sum opened (set ps a.id q) == 0)) [
          | inl none_left ↦ rw none_left (refl, u')
          | inr some_left ↦ rw some_left (same, more)
        ])

  module _ (verbs : IsVerbs C) (fuel : ℕ) (enough : 2 < fuel) where
    -- From counters that are right, with no connection failed so far: while the events come as
    -- librdmacm reports them, none of them reports a failed connection, and the calls for them
    -- succeed, the loop never throws and never hangs, its counters say how many connections are open
    -- and how many are established, and it returns with the first event after which none is open.
    pub handle_lem :
        (arrivals : List (Arrival C)) (s : State) (ps : List Phase)
        → Counts opened s ps
        → Unrefused ps
        → All (λ a. is_error a.event ≡ false) arrivals
        → Ordered C arrivals ps
        → let (qs, over) = ends C opened arrivals ps in
          (s' : State) × (handle C fuel arrivals s ≡ (if over then stopped s' else running s'))
          × Counts opened s' qs
    handle_lem arrivals s ps c u plain o =
        let (same, u') = plain_ends arrivals ps u plain o in
        let (s', e, c') = loop_lem C verbs fuel enough arrivals s ps (to_counted u c) o in
        (
          s',
          e ∙ ap (λ (r : List Phase × Bool). if r.1 then stopped s' else running s') same,
          to_opened u' (subst (λ (r : List Phase × Bool). Counts counted s' r.0) same c'),
        )

    -- From counters that are right, with no connection failed so far, and for events that come as
    -- librdmacm reports them, with their calls succeeding: once one of them reports that a connection
    -- that has asked has failed, the loop does not return, whatever events come after it, even when no
    -- connection is open any more.
    pub refused_keeps_running :
        (a : Arrival C) (arrivals : List (Arrival C)) (s : State) (ps : List Phase)
        → Counts opened s ps
        → Unrefused ps
        → is_error a.event ≡ true
        → Ordered C (a ∷ arrivals) ps
        → (s' : State) × (handle C fuel (a ∷ arrivals) s ≡ running s')
    unfolding Ordered ends
    refused_keeps_running a arrivals s ps c u failed (lt, w, o) =
        let (s', e, c') =
          loop_lem C verbs fuel enough (a ∷ arrivals) s ps (to_counted u c) (lt, w, o) in
        let (p, q, x, o') = required_lem (expects a.event) o in
        let at : get_or (set ps a.id q) a.id unknown ≡ refused =
          get_or-set_self ps a.id q unknown lt ∙ error-refused a.event p q x failed in
        let lt' : a.id < length (set ps a.id q) = omega (arith, length-set ps a.id q) in
        let more : (sum counted (set ps a.id q) == 0) ≡ false =
          ne→== _ _
            (omega (arith, member unknown counted (set ps a.id q) a.id lt', ap counted at)) in
        let over : (ends C counted (a ∷ arrivals) ps).1 ≡ false =
          rw (ends, x, more) (ends_refused C arrivals (set ps a.id q) a.id lt' at o'.1) in
        (s', e ∙ ap (λ b. if b then stopped s' else running s') over)
