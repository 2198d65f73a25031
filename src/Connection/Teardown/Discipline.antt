-- ===== src/Connection/Teardown/Discipline.antt =====
-- What the verbs ask of the order in which a connection manager gives back what it owns.
use rdma_synchronization.Common.{
  ℕ, ◌≡◌, refl, sym, ap, ◌∙◌, Bool, true, false, ◌&&◌, ◌||◌, not, Option, none, some, List, [], ◌∷◌,
  ◌++◌, ◌==◌, if◌then◌else◌, arith, length, All, eq→==, fun_ext,
}
use rdma_synchronization.Common.Options.{◌>>=◌}
use rdma_synchronization.Connection.Teardown.{
  Owner, outgoing, incoming, listener, Action, disconnect, destroy_qp, destroy_cq, destroy_id,
  delete_context, drain, destroy_channel, dereg_mr, dealloc_pd, join_handler,
}
use mathlib.Core.List.{map}

-- What is alive; `orphans` are the queue pairs of refused attempts, which no list has. `handler` is the
-- thread that listens until it is joined, and `waiting` whether it still waits for events.
pub record Owned : Type 0 where
  pub ids : List Owner
  pub qps : List Owner
  pub cqs : List Owner
  pub channels : List Owner
  pub contexts : List Owner
  pub orphans : ℕ
  pub mr : Bool
  pub pd : Bool
  pub handler : Bool
  pub waiting : Bool

abbrev pub same : Owner → Owner → Bool
same (outgoing a) (outgoing b) = a == b
same (incoming a) (incoming b) = a == b
same listener listener = true
same _ _ = false

abbrev pub has : Owner → List Owner → Bool
has o [] = false
has o (p ∷ l) = same o p || has o l

abbrev pub remove : Owner → List Owner → Option (List Owner)
remove o [] = none
remove o (p ∷ l) = if same o p then some l else (do l' ← remove o l; some (p ∷ l'))

-- The channel that the events of an identifier come on.
abbrev pub channel_of : Owner → Owner
channel_of (outgoing a) = outgoing a
channel_of (incoming b) = listener
channel_of listener = listener

-- What the verbs ask for: what is destroyed is alive, and nothing that is alive uses it. A queue pair
-- uses its identifier, its completion queue and the protection domain, an identifier its channel, the
-- memory region the protection domain, and a thread that waits for events the listener's channel.
unfoldable pub release : Action → Owned → Option Owned
release (disconnect o) w = if has o w.ids then some w else none
release (drain o) w = if has o w.channels then some w else none
release (destroy_qp o) w =
    if has o w.ids then (do l ← remove o w.qps; some (record w { qps = l })) else none
release (destroy_cq o) w =
    if has o w.qps then none else (do l ← remove o w.cqs; some (record w { cqs = l }))
release (destroy_id o) w =
    if has o w.qps then none else (do l ← remove o w.ids; some (record w { ids = l }))
release (destroy_channel o) w =
    if has o (map channel_of w.ids) || (w.waiting && same o listener)
    then none
    else (do l ← remove o w.channels; some (record w { channels = l }))
release (delete_context o) w = do l ← remove o w.contexts; some (record w { contexts = l })
release dereg_mr w = if w.mr then some (record w { mr = false }) else none
release dealloc_pd w =
    if w.pd && not w.mr && (length w.qps == 0) && (w.orphans == 0)
    then some (record w { pd = false })
    else none
release join_handler w = if w.handler then some (record w { handler = false }) else none

unfoldable pub release_all : List Action → Owned → Option Owned
release_all [] w = some w
release_all (a ∷ l) w = release a w >>= release_all l

pub same_refl : (o : Owner) → same o o ≡ true
same_refl (outgoing a) = eq→== a a refl
same_refl (incoming a) = eq→== a a refl
same_refl listener = refl

pub has-append_right : (o : Owner) (l l' : List Owner) → has o l' ≡ true → has o (l ++ l') ≡ true
has-append_right o [] l' h = h
has-append_right o (p ∷ l) l' h = rw (has-append_right o l l' h) (ground arith)

pub has-append_left : (o : Owner) (l l' : List Owner) → has o l ≡ true → has o (l ++ l') ≡ true
has-append_left o [] l' h = cc
has-append_left o (p ∷ l) l' h = ground (arith, has-append_left o l l')

-- The entries of a list are in every list that has all of them.
pub All-has :
    (l larger : List Owner)
    → ((o : Owner) → has o l ≡ true → has o larger ≡ true)
    → All (λ o. has o larger ≡ true) l
All-has [] larger f = tt
All-has (o ∷ l) larger f =
    (f o (rw (same_refl o) refl), All-has l larger (λ p h. f p (has-append_right p (o ∷ []) l h)))

pub All-map :
    {P Q : Owner → Type 0} (l : List Owner) → ((o : Owner) → P o → Q o) → All P l → All Q l
All-map [] f a = tt
All-map (o ∷ l) f a = (f o a.0, All-map l f a.1)

pub All-trivial : (l : List Owner) → All (λ o. Unit {0}) l
All-trivial [] = tt
All-trivial (o ∷ l) = (tt, All-trivial l)

>>=-assoc :
    {A : Type 0} (o : Option A) (f g : A → Option A) → ((o >>= f) >>= g) ≡ (o >>= λ a. f a >>= g)
>>=-assoc none f g = refl
>>=-assoc (some a) f g = refl

release_all-append :
    (l l' : List Action) (w : Owned)
    → release_all (l ++ l') w ≡ (release_all l w >>= release_all l')
unfolding release_all
release_all-append [] l' w = refl
release_all-append (a ∷ l) l' w =
    ap (λ (k : Owned → Option Owned). release a w >>= k) (fun_ext (release_all-append l l'))
    ∙ sym (>>=-assoc (release a w) (release_all l) (release_all l'))

pub then_release :
    (l l' : List Action) (w w' : Owned)
    → release_all l w ≡ some w'
    → release_all (l ++ l') w ≡ release_all l' w'
then_release l l' w w' e = release_all-append l l' w ∙ ap (λ o. o >>= release_all l') e

-- A list of calls that each take one entry off the front of a list.
pub consume :
    (f : Owner → Action) (W : List Owner → Owned) (P : Owner → Type 0)
    → ((o : Owner) (l : List Owner) → P o → release (f o) (W (o ∷ l)) ≡ some (W l))
    → (l rest : List Owner) → All P l
    → release_all (map f l) (W (l ++ rest)) ≡ some (W rest)
unfolding release_all
consume f W P one [] rest a = refl
consume f W P one (o ∷ l) rest a = rw (one o (l ++ rest) a.0) (consume f W P one l rest a.1)

-- A list of calls that change nothing.
pub pass :
    (f : Owner → Action) (w : Owned) (l : List Owner)
    → All (λ o. release (f o) w ≡ some w) l
    → release_all (map f l) w ≡ some w
unfolding release_all
pass f w [] a = refl
pass f w (o ∷ l) a = rw a.0 (pass f w l a.1)
