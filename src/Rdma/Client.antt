-- ===== src/Rdma/Client.antt =====
-- A thread that posts requests to one queue pair and waits for their completions.
use rdma_synchronization.Common.{
  ℕ, zero, suc, ◌+◌, ◌/◌, ◌%◌, ◌^◌, ◌≡◌, refl, ap, Bool, true, false, List, [], ◌∷◌, ◌==◌,
  if◌then◌else◌, Option, none, some, length, ◌&&◌,
}
use rdma_synchronization.Rdma.Request.{
  WorkRequest, Opcode, Context, post_compare_swap, post_fetch_add, post_read, post_read_fenced,
  read_request, post_write,
}
use rdma_synchronization.Rdma.Memory.{Memory, store, copy}

-- The client's registered memory, and that of the storage node.
pub record World : Type 0 where
  pub local : Memory
  pub remote : Memory

-- The network card, which is not code of the repository: what `ibv_post_send` returns, and what a
-- request does once it is executed.
pub record Nic : Type 0 where
  pub returned : WorkRequest → ℕ
  pub execute : WorkRequest → World → World
  -- The words that a read sees. Other clients may write while it runs, and a read of several words is
  -- not atomic, so they need not be those of the memory at any one moment.
  pub view : WorkRequest → Memory → Memory

-- What the verbs promise of the four one-sided operations, on aligned words.
pub record IsVerbs (nic : Nic) : Type 0 where
  pub posted : (wr : WorkRequest) → nic.returned wr ≡ 0
  pub cas :
      (wr : WorkRequest) (w : World)
      → wr.opcode ≡ Opcode.compare_and_swap
      → nic.execute wr w ≡ record {
        local = store w.local wr.addr (w.remote wr.remote_addr);
        remote =
            if w.remote wr.remote_addr == wr.compare_add
            then store w.remote wr.remote_addr wr.swap
            else w.remote;
      }
  pub faa :
      (wr : WorkRequest) (w : World)
      → wr.opcode ≡ Opcode.fetch_and_add
      → nic.execute wr w ≡ record {
        local = store w.local wr.addr (w.remote wr.remote_addr);
        remote =
            store w.remote wr.remote_addr ((w.remote wr.remote_addr + wr.compare_add) % 2 ^ 64);
      }
  pub read :
      (wr : WorkRequest) (w : World)
      → wr.opcode ≡ Opcode.read
      → nic.execute wr w ≡ record w {
        local = copy (wr.length / 8) (nic.view wr w.remote) wr.remote_addr w.local wr.addr;
      }
  pub write :
      (wr : WorkRequest) (w : World)
      → wr.opcode ≡ Opcode.write
      → nic.execute wr w
        ≡ record w { remote = copy (wr.length / 8) w.local wr.addr w.remote wr.remote_addr }

-- What one call of `ibv_poll_cq` gives: a negative number, or for each completion whether its status
-- is IBV_WC_SUCCESS.
abbrev pub Poll : Type 0
Poll = Option (List Bool)

-- A client: the two memories, what `ibv_poll_cq` will return, and the requests executed so far.
-- Before each request of this client the other clients change the remote memory by `others`.
pub record Client : Type 0 where
  pub world : World
  pub polls : List Poll
  pub now : ℕ

-- How a call ends: with a value, by `OLRestartException`, or by another exception; `waits` is a
-- poll loop that has seen all of `polls` without its completion.
pub data Result (A : Type 0) : Type 0 where
  ok : A → Client → Result A
  restart : Client → Result A
  fails : Result A
  waits : Result A

abbrev pub M : Type 0 → Type 0
M A = Client → Result A

abbrev pub pure : {A : Type 0} → A → M A
pure a c = ok a c

-- What follows a call, on each way that it can end.
abbrev pub follow : {A B : Type 0} → Result A → (A → M B) → Result B
follow (ok a c) f = f a c
follow (restart c) f = restart c
follow fails f = fails
follow waits f = waits

infixl 5 ◌>>=◌ ◌>>◌
abbrev pub ◌>>=◌ : {A B : Type 0} → M A → (A → M B) → M B
◌>>=◌ m f c = follow (m c) f

abbrev pub ◌>>◌ : {B : Type 0} → M (Unit {0}) → M B → M B
m >> k = m >>= λ _. k

-- A computation goes on where its first call returned.
pub bind_ok :
    {A B : Type 0} (m : M A) (f : A → M B) {a : A} {c c' : Client}
    → m c ≡ ok a c'
    → (m >>= f) c ≡ f a c'
bind_ok m f h = ap (λ r. follow r f) h

pub then_ok :
    {B : Type 0} (m : M (Unit {0})) (k : M B) {c c' : Client} → m c ≡ ok tt c' → (m >> k) c ≡ k c'
then_ok m k h = ap (λ r. follow r (λ _. k)) h

-- The call returns, and the client then satisfies `P`.
abbrev pub Returns : {A : Type 0} → Result A → (Client → Type 0) → Type 0
Returns (ok a c) P = P c
Returns (restart c) P = ⊥
Returns fails P = ⊥
Returns waits P = ⊥

pub Returns-map :
    {A : Type 0} (r : Result A) (P Q : Client → Type 0)
    → ((c : Client) → P c → Q c)
    → Returns r P
    → Returns r Q
Returns-map (ok a c) P Q f h = f c h
Returns-map (restart c) P Q f h = absurd h
Returns-map fails P Q f h = absurd h
Returns-map waits P Q f h = absurd h

-- `throw OLRestartException()` under a test.
abbrev pub restart_if : Bool → M (Unit {0})
restart_if true c = restart c
restart_if false c = ok tt c

-- A word of the client's own memory, read and written.
abbrev pub load : ℕ → M ℕ
load a c = ok (c.world.local a) c

abbrev pub save : ℕ → ℕ → M (Unit {0})
save a v c = ok tt (record c { world = record c.world { local = store c.world.local a v } })

-- A computation on the client's own memory.
abbrev pub modify : (Memory → Memory) → M (Unit {0})
modify f c = ok tt (record c { world = record c.world { local = f c.world.local } })

-- `for (int i = 0; i < n; i++)`, from `i` on.
pub for_from : ℕ → ℕ → (ℕ → M (Unit {0})) → M (Unit {0})
for_from i zero body = pure tt
for_from i (suc n) body = body i >> for_from (suc i) n body

-- `while (comp == 0) comp = pollCompletion(…, 1, …)` over the results that the polls give.
unfoldable pub wait_list : List Poll → Client → Result (Unit {0})
wait_list [] c = waits
wait_list (none ∷ rest) c = fails
wait_list (some [] ∷ rest) c = wait_list rest c
wait_list (some (status ∷ more) ∷ rest) c = ok tt (record c { polls = rest })

unfoldable pub wait_completion : M (Unit {0})
unfolding wait_list
wait_completion c = wait_list c.polls c

all_successful : List Bool → Bool
all_successful [] = true
all_successful (status ∷ l) = status && all_successful l

-- `while (tot_comp != tot_expected)`: each poll adds its completions, whose status is checked.
wait_all_list : ℕ → ℕ → List Poll → Client → Result (Unit {0})
wait_all_list tot_comp tot_expected [] c =
    if tot_comp == tot_expected then ok tt (record c { polls = [] }) else waits
wait_all_list tot_comp tot_expected (none ∷ rest) c =
    if tot_comp == tot_expected then ok tt (record c { polls = none ∷ rest }) else fails
wait_all_list tot_comp tot_expected (some comp ∷ rest) c =
    let again = wait_all_list (tot_comp + length comp) tot_expected rest c in
    if tot_comp == tot_expected
    then ok tt (record c { polls = some comp ∷ rest })
    else if all_successful comp
    then again
    else fails

pub wait_all : ℕ → M (Unit {0})
unfolding wait_all_list all_successful
wait_all tot_expected c = wait_all_list 0 tot_expected c.polls c

module _ (nic : Nic) (others : ℕ → Memory → Memory) where
  -- `ibv_post_send`, with the exception where it does not return 0. The request takes effect at some
  -- later time; nothing reads what it does before its completion.
  pub post : WorkRequest → M (Unit {0})
  post wr c =
      if nic.returned wr == 0
      then ok tt (record c {
        world = nic.execute wr (record c.world { remote = others c.now c.world.remote });
        now = c.now + 1;
      })
      else fails

  module _ (verbs : IsVerbs nic) where
    pub post_lem :
        (wr : WorkRequest) (c : Client)
        → post wr c
          ≡ ok tt (record c {
            world = nic.execute wr (record c.world { remote = others c.now c.world.remote });
            now = c.now + 1;
          })
    unfolding post
    post_lem wr c = rw (verbs.posted wr)

    pub cas_lem :
        (expected desired mem_addr : ℕ) (ctx : Context) (wc : Bool) (a : ℕ) (c : Client)
        → post (post_compare_swap expected desired mem_addr ctx wc a) c ≡ (
            let r = others c.now c.world.remote in
            ok tt (record c {
              world = record {
                local = store c.world.local mem_addr (r a);
                remote = if r a == expected then store r a desired else r;
              };
              now = c.now + 1;
            }))
    unfolding post_compare_swap
    cas_lem expected desired mem_addr ctx wc a c =
        rw (post_lem, verbs.cas (post_compare_swap expected desired mem_addr ctx wc a) _ refl)

    pub faa_lem :
        (to_add mem_addr : ℕ) (ctx : Context) (wc : Bool) (a : ℕ) (fence : Bool) (c : Client)
        → post (post_fetch_add to_add mem_addr ctx wc a fence) c ≡ (
            let r = others c.now c.world.remote in
            ok tt (record c {
              world = record {
                local = store c.world.local mem_addr (r a);
                remote = store r a ((r a + to_add) % 2 ^ 64);
              };
              now = c.now + 1;
            }))
    unfolding post_fetch_add
    faa_lem to_add mem_addr ctx wc a fence c =
        rw (post_lem, verbs.faa (post_fetch_add to_add mem_addr ctx wc a fence) _ refl)

    pub read_lem :
        (mem_addr : ℕ) (ctx : Context) (wc : Bool) (a bytes wc_id : ℕ) (c : Client)
        → post (post_read mem_addr ctx wc a bytes wc_id) c ≡ (
            let r = others c.now c.world.remote in
            ok tt (record c {
              world = record {
                local =
                    copy
                      (bytes / 8)
                      (nic.view (post_read mem_addr ctx wc a bytes wc_id) r)
                      a
                      c.world.local
                      mem_addr;
                remote = r;
              };
              now = c.now + 1;
            }))
    unfolding post_read read_request
    read_lem mem_addr ctx wc a bytes wc_id c =
        rw (post_lem, verbs.read (post_read mem_addr ctx wc a bytes wc_id) _ refl)

    pub fenced_lem :
        (mem_addr : ℕ) (ctx : Context) (wc : Bool) (a bytes wc_id : ℕ) (c : Client)
        → post (post_read_fenced mem_addr ctx wc a bytes wc_id) c ≡ (
            let r = others c.now c.world.remote in
            ok tt (record c {
              world = record {
                local =
                    copy
                      (bytes / 8)
                      (nic.view (post_read_fenced mem_addr ctx wc a bytes wc_id) r)
                      a
                      c.world.local
                      mem_addr;
                remote = r;
              };
              now = c.now + 1;
            }))
    unfolding post_read_fenced read_request
    fenced_lem mem_addr ctx wc a bytes wc_id c =
        rw (post_lem, verbs.read (post_read_fenced mem_addr ctx wc a bytes wc_id) _ refl)

    pub write_lem :
        (mem_addr : ℕ) (ctx : Context) (wc : Bool) (a bytes : ℕ) (c : Client)
        → post (post_write mem_addr ctx wc a bytes) c ≡ (
            let r = others c.now c.world.remote in
            ok tt (record c {
              world = record {
                local = c.world.local;
                remote = copy (bytes / 8) c.world.local mem_addr r a;
              };
              now = c.now + 1;
            }))
    unfolding post_write
    write_lem mem_addr ctx wc a bytes c =
        rw (post_lem, verbs.write (post_write mem_addr ctx wc a bytes) _ refl)

-- A wait ends at the first poll when it reports a completion.
pub wait_completion_lem :
    (c : Client) (status : Bool) (more : List Bool) (rest : List Poll)
    → c.polls ≡ some (status ∷ more) ∷ rest
    → wait_completion c ≡ ok tt (record c { polls = rest })
unfolding wait_completion wait_list
wait_completion_lem c status more rest h = rw h
