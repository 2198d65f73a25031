-- ===== src/Storage/Catalog.antt =====
-- What a worker is told of the catalog.
use rdma_synchronization.Common.{
  ℕ, zero, suc, ◌+◌, ◌-◌, ◌<◌, ◌≤◌, ◌≡◌, ◌≢◌, refl, ap, sym, ◌∙◌, Bool, true, Option, none, some,
  List, [], ◌∷◌, ltb, arith, length, get_or, set, length-set, get_or-set_self, get_or-set_ne, All,
  eq→==, ne→==,
}
use mathlib.Core.List.{map}
use rdma_synchronization.Common.Options.{Returns, Returns-result}
use rdma_synchronization.Connection.{Kind}
use rdma_synchronization.Storage.{
  MemoryRegionDesc, MemoryRegions, Storage, lookup, register_memory_region, max_regions,
  InitMessage, fill_regions, init_message, is_worker, serve, drop, wait_for, start_and_connect,
}

-- The regions have the numbers below `n`, the last one registered first.
abbrev pub Numbered : ℕ → List (ℕ × MemoryRegionDesc) → Type 0
Numbered n [] = n ≡ 0
Numbered n ((name, desc) ∷ rest) = (n ≡ suc desc.region_id) × Numbered desc.region_id rest

unfoldable pub IsValid : Storage → Type 0
IsValid s = Numbered s.regions s.catalog

-- Under a name that is free, and where the buffer has room, a region is entered with the next
-- number; the regions under other names stay as they are, and a second registration of the name throws.
pub register_memory_region_lem :
    (name bytes buffer : ℕ) (again : Option ℕ) (s : Storage)
    → IsValid s
    → lookup name s.catalog ≡ none
    → Returns (register_memory_region name bytes (some buffer) s) (λ s'.
      IsValid s'
      × (lookup name s'.catalog
          ≡ some (record { start = buffer; size_bytes = bytes; region_id = s.regions }))
      × ((other : ℕ) → other ≢ name → lookup other s'.catalog ≡ lookup other s.catalog)
      × (register_memory_region name bytes again s' ≡ none))
unfolding register_memory_region lookup IsValid
register_memory_region_lem name bytes buffer again s v free =
    rw (register_memory_region, free)
      (
        (omega arith, v),
        rw (eq→== name name refl) refl,
        (λ other ne. rw (ne→== other name ne) refl),
        rw (register_memory_region, eq→== name name refl) refl,
      )

abbrev pub no_region : MemoryRegions
no_region = record { offset = 0; size_bytes = 0 }

-- The entry of a region in the message is where it lies.
abbrev pub Told : List MemoryRegions → ℕ × MemoryRegionDesc → Type 0
Told regions (name, desc) =
    get_or regions desc.region_id no_region
    ≡ record { offset = desc.start; size_bytes = desc.size_bytes }

record Filled (n : ℕ) (catalog : List (ℕ × MemoryRegionDesc)) (before after : List MemoryRegions)
    : Type 0 where
  size : length after ≡ length before
  told : All (Told after) catalog
  above : (i : ℕ) → n ≤ i → get_or after i no_region ≡ get_or before i no_region

fill_regions_lem :
    (n : ℕ) (catalog : List (ℕ × MemoryRegionDesc)) (regions : List MemoryRegions)
    → Numbered n catalog
    → n ≤ length regions
    → Returns (fill_regions catalog regions) (Filled n catalog regions)
unfolding fill_regions
fill_regions_lem n [] regions num le = record { size = refl; told = tt; above = λ i h. refl }
fill_regions_lem n ((name, desc) ∷ rest) regions (e, num) le =
    let entry : MemoryRegions = record { offset = desc.start; size_bytes = desc.size_bytes } in
    let kept = length-set regions desc.region_id entry in
    let (after, ran, f) =
      Returns-result (fill_regions rest (set regions desc.region_id entry)) (
        fill_regions_lem desc.region_id rest (set regions desc.region_id entry) num
          (omega arith)) in
    let inside : ltb desc.region_id (length regions) ≡ true = ground arith in
    rw (inside, ran)
      (record {
        size = f.size ∙ kept;
        told = (
          f.above desc.region_id (omega arith)
              ∙ get_or-set_self regions desc.region_id entry no_region (omega arith),
          f.told,
        );
        above = λ i h.
            f.above i (omega arith)
            ∙ get_or-set_ne regions desc.region_id i entry no_region (omega arith);
      })

-- What a worker needs to know: the number of regions, and where each of them lies.
pub record Tells (s : Storage) (m : InitMessage) : Type 0 where
  pub node : m.node_id ≡ s.node_id
  pub number : m.num_regions ≡ length s.catalog
  pub regions : All (Told m.mem_regions) s.catalog

length-Numbered :
    (n : ℕ) (catalog : List (ℕ × MemoryRegionDesc)) → Numbered n catalog → length catalog ≡ n
length-Numbered n [] e = sym e
length-Numbered n ((name, desc) ∷ rest) (e, num) =
    omega (arith, e, length-Numbered desc.region_id rest num)

init_message_lem :
    (s : Storage) (m : InitMessage)
    → IsValid s
    → length s.catalog < max_regions
    → length m.mem_regions ≡ max_regions
    → Returns (init_message s m) (λ m'. (length m'.mem_regions ≡ max_regions) × Tells s m')
unfolding init_message IsValid
init_message_lem s m v few size =
    let numbered = length-Numbered s.regions s.catalog v in
    let (after, ran, f) =
      Returns-result (fill_regions s.catalog m.mem_regions)
        (fill_regions_lem s.regions s.catalog m.mem_regions v (omega arith)) in
    let room : ltb (length s.catalog) max_regions ≡ true = ground arith in
    rw (room, ran) (f.size ∙ size, record { node = refl; number = refl; regions = f.told })

-- The `n` numbers from `i` on.
abbrev pub numbers : ℕ → ℕ → List ℕ
numbers i zero = []
numbers i (suc n) = i ∷ numbers (i + 1) n

serve_lem :
    (kinds : List Kind) (i : ℕ) (s : Storage) (exchanged : ℕ → Bool) (m : InitMessage)
    → IsValid s
    → length s.catalog < max_regions
    → length m.mem_regions ≡ max_regions
    → All (λ kind. is_worker kind ≡ true) kinds
    → ((j : ℕ) → exchanged j ≡ true)
    → Returns
        (serve s exchanged i kinds m)
        (λ sent. (map (λ x. x.0) sent ≡ numbers i (length kinds)) × All (λ x. Tells s x.1) sent)
unfolding serve
serve_lem [] i s exchanged m v few size all ok = (refl, tt)
serve_lem (kind ∷ kinds) i s exchanged m v few size (w, all) ok =
    let (m1, e, tells) = Returns-result (init_message s m) (init_message_lem s m v few size) in
    let (sent, e2, done) =
      Returns-result (serve s exchanged (i + 1) kinds m1)
        (serve_lem kinds (i + 1) s exchanged m1 v few tells.0 all ok) in
    rw (w, e, ok i, e2) (ap (λ l. i ∷ l) done.0, (tells.1, done.1))

drop-all : {A : Type 0} (xs : List A) → drop (length xs) xs ≡ []
drop-all [] = refl
drop-all (x ∷ xs) = drop-all xs

length-drop : {A : Type 0} (n : ℕ) (xs : List A) → length (drop n xs) ≡ length xs - n
length-drop zero xs = omega arith
length-drop (suc n) [] = omega arith
length-drop (suc n) (x ∷ xs) = omega (arith, length-drop n xs)

All-drop : {A : Type 0} (P : A → Type 0) (n : ℕ) (xs : List A) → All P xs → All P (drop n xs)
All-drop P zero xs a = a
All-drop P (suc n) [] a = tt
All-drop P (suc n) (x ∷ xs) a = All-drop P n xs a.1

-- Where the catalog has fewer than `MAX_REGIONS` regions, numbered in the order in which they were
-- registered, the message has room for `MAX_REGIONS`, the number of connections has been seen, and all
-- contexts are workers with which the exchange returns: `startAndConnect` sends one message to each
-- context that it has not served before, in their order and to no other, with the number of regions
-- and where each lies; the next call has none of these left to serve.
pub start_and_connect_lem :
    (n : ℕ) (seen : List ℕ) (contexts : List Kind) (exchanged : ℕ → Bool) (m : InitMessage)
    (s : Storage)
    → IsValid s
    → length s.catalog < max_regions
    → length m.mem_regions ≡ max_regions
    → All (λ kind. is_worker kind ≡ true) contexts
    → ((j : ℕ) → exchanged j ≡ true)
    → wait_for n seen ≡ true
    → Returns (start_and_connect n seen contexts exchanged m s) (λ (sent, s').
      (map (λ x. x.0) sent ≡ numbers s.served_connections (length contexts - s.served_connections))
      × All (λ x. Tells s x.1) sent
      × (drop s'.served_connections contexts ≡ []))
unfolding start_and_connect
start_and_connect_lem n seen contexts exchanged m s v few size all ok there =
    let left = drop s.served_connections contexts in
    let (sent, e, done) = Returns-result (serve s exchanged s.served_connections left m) (
      serve_lem left s.served_connections s exchanged m v few size
        (All-drop (λ kind. is_worker kind ≡ true) s.served_connections contexts all) ok) in
    rw (there, e)
      (
        done.0 ∙ ap (numbers s.served_connections) (length-drop s.served_connections contexts),
        done.1,
        drop-all contexts,
      )
