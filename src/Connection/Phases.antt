-- ===== src/Connection/Phases.antt =====
-- What a connection goes through, by the events that librdmacm reports for it.
use rdma_synchronization.Common.{
  ℕ, ◌≤◌, ◌≡◌, ◌≢◌, refl, Bool, true, false, Option, none, some, List, [], ◌∷◌, arith,
}
use rdma_synchronization.Common.Sums.{sum}
use mathlib.Core.Path.{subst}
use rdma_synchronization.Connection.Handler.{
  Event, addr_resolved, route_resolved, connect_request, established, addr_error, route_error,
  connect_error, unreachable, rejected, disconnected, device_removal, timewait_exit, other,
}

-- What has become of a connection: `refused` is one that an error event has ended.
pub data Phase : Type 0 where
  unknown requested connected refused closed : Phase

-- The phase that librdmacm reports an event of a connection in, and the phase after it.
unfoldable pub expects : Event → Option (Phase × Phase)
expects connect_request = some (unknown, requested)
expects established = some (requested, connected)
expects connect_error = some (requested, refused)
expects unreachable = some (requested, refused)
expects rejected = some (requested, refused)
expects disconnected = some (connected, closed)
expects timewait_exit = some (closed, closed)
expects _ = none

-- The connections that the handler counts: those that have asked and not been disconnected.
abbrev pub counted : Phase → ℕ
counted unknown = 0
counted requested = 1
counted connected = 1
counted refused = 1
counted closed = 0

-- The connections that are open or may become so.
abbrev pub opened : Phase → ℕ
opened unknown = 0
opened requested = 1
opened connected = 1
opened refused = 0
opened closed = 0

-- The events by which librdmacm reports that a connection has failed.
abbrev pub is_error : Event → Bool
is_error addr_error = true
is_error route_error = true
is_error connect_error = true
is_error unreachable = true
is_error rejected = true
is_error _ = false

abbrev pub up : Phase → ℕ
up connected = 1
up _ = 0

abbrev pub known : Phase → Bool
known unknown = false
known _ = true

pub counted-1 : (p : Phase) → counted p ≤ 1
counted-1 unknown = omega arith
counted-1 requested = omega arith
counted-1 connected = omega arith
counted-1 refused = omega arith
counted-1 closed = omega arith

pub up-le : (ps : List Phase) → sum up ps ≤ sum counted ps
up-le [] = omega arith
up-le (unknown ∷ ps) = omega (arith, up-le ps)
up-le (requested ∷ ps) = omega (arith, up-le ps)
up-le (connected ∷ ps) = omega (arith, up-le ps)
up-le (refused ∷ ps) = omega (arith, up-le ps)
up-le (closed ∷ ps) = omega (arith, up-le ps)

-- What holds of the phases of an event that is expected, and whether there must be one.
abbrev pub Required : Option (Phase × Phase) → (Phase → Phase → Type 0) → Type 0
Required none P = ⊥
Required (some (p, q)) P = P p q

abbrev pub Permitted : Option (Phase × Phase) → (Phase → Phase → Type 0) → Type 0
Permitted none P = Unit
Permitted (some (p, q)) P = P p q

pub required_lem :
    (x : Option (Phase × Phase)) {P : Phase → Phase → Type 0}
    → Required x P
    → (p : Phase) × (q : Phase) × (x ≡ some (p, q)) × P p q
required_lem none r = absurd r
required_lem (some (p, q)) r = (p, q, refl, r)

pub permitted_lem :
    {x : Option (Phase × Phase)} {p q : Phase} (P : Phase → Phase → Type 0)
    → x ≡ some (p, q)
    → Permitted x P
    → P p q
permitted_lem P e r = subst (λ x. Permitted x P) e r

pub never_refused : (e : Event) (p q : Phase) → expects e ≡ some (p, q) → p ≢ refused
unfolding expects
never_refused connect_request p q e r = cc
never_refused established p q e r = cc
never_refused connect_error p q e r = cc
never_refused unreachable p q e r = cc
never_refused rejected p q e r = cc
never_refused disconnected p q e r = cc
never_refused timewait_exit p q e r = cc
never_refused addr_resolved p q e r = cc
never_refused route_resolved p q e r = cc
never_refused addr_error p q e r = cc
never_refused route_error p q e r = cc
never_refused device_removal p q e r = cc
never_refused other p q e r = cc

pub error-refused :
    (e : Event) (p q : Phase) → expects e ≡ some (p, q) → is_error e ≡ true → q ≡ refused
unfolding expects
error-refused connect_request p q h r = cc
error-refused established p q h r = cc
error-refused connect_error p q h r = cc
error-refused unreachable p q h r = cc
error-refused rejected p q h r = cc
error-refused disconnected p q h r = cc
error-refused timewait_exit p q h r = cc
error-refused addr_resolved p q h r = cc
error-refused route_resolved p q h r = cc
error-refused addr_error p q h r = cc
error-refused route_error p q h r = cc
error-refused device_removal p q h r = cc
error-refused other p q h r = cc

pub plain-refused :
    (e : Event) (p q : Phase) → expects e ≡ some (p, q) → is_error e ≡ false → q ≢ refused
unfolding expects
plain-refused connect_request p q h r = cc
plain-refused established p q h r = cc
plain-refused connect_error p q h r = cc
plain-refused unreachable p q h r = cc
plain-refused rejected p q h r = cc
plain-refused disconnected p q h r = cc
plain-refused timewait_exit p q h r = cc
plain-refused addr_resolved p q h r = cc
plain-refused route_resolved p q h r = cc
plain-refused addr_error p q h r = cc
plain-refused route_error p q h r = cc
plain-refused device_removal p q h r = cc
plain-refused other p q h r = cc
