-- ===== src/Storage.antt =====
-- `Storage` and `NAM` of backend/nam: the search for the own node, the catalog of memory regions, and
-- `startAndConnect`, which tells every worker that has connected where the regions are. The
-- connection manager is a parameter: how many connections are established and who has come in.
pub mod Catalog
use rdma_synchronization.Common.{
  ℕ, zero, suc, ◌+◌, ◌-◌, ◌^◌, Bool, true, false, not, Option, none, some, List, [], ◌∷◌, ◌++◌,
  ◌==◌, ltb, leb, ◌&&◌, if◌then◌else◌, length, set, replicate,
}
use rdma_synchronization.Common.Options.{◌>>=◌}
use rdma_synchronization.Connection.{Kind, rdma_cm, worker, page_provider, message_handler}

pub record MemoryRegionDesc : Type 0 where
  pub start : ℕ
  pub size_bytes : ℕ
  pub region_id : ℕ

-- `catalog` is keyed by names, here numbers.
pub record Storage : Type 0 where
  pub node_id : ℕ
  pub catalog : List (ℕ × MemoryRegionDesc)
  pub served_connections : ℕ
  pub regions : ℕ

-- `FLAGS_ownIp == STORAGE_NODES[FLAGS_storage_nodes][nodeId]` for the nodes from `node_id` on; `count`
-- is how many are left of `FLAGS_storage_nodes`.
unfoldable pub find_node : (ℕ → Bool) → ℕ → ℕ → ℕ
find_node is_own zero node_id = node_id
find_node is_own (suc count) node_id =
    if is_own node_id then node_id else find_node is_own count (node_id + 1)

-- The constructor; `none` is its `ensure`.
unfoldable pub new_storage : (ℕ → Bool) → ℕ → Option Storage
new_storage is_own storage_nodes =
    let node_id = if not (storage_nodes == 1) then find_node is_own storage_nodes 0 else 0 in
    if ltb node_id storage_nodes
    then some (record { node_id = node_id; catalog = []; served_connections = 0; regions = 0 })
    else none

unfoldable pub lookup : ℕ → List (ℕ × MemoryRegionDesc) → Option MemoryRegionDesc
lookup name [] = none
lookup name ((key, desc) ∷ rest) = if name == key then some desc else lookup name rest

-- `registerMemoryRegion`, given what the allocation returns; `none` is an exception.
unfoldable pub register_memory_region : ℕ → ℕ → Option ℕ → Storage → Option Storage
register_memory_region name bytes allocated s = elim (lookup name s.catalog) [
  | some desc ↦ none
  | none ↦ do
    buffer ← allocated
    some (record s {
      catalog =
          (name, record { start = buffer; size_bytes = bytes; region_id = s.regions }) ∷ s.catalog;
      regions = s.regions + 1;
    })
]

-- `getMemoryRegion`: `operator[]` enters a region of zeros under a name that is not there.
unfoldable pub get_memory_region : ℕ → Storage → MemoryRegionDesc × Storage
get_memory_region name s = elim (lookup name s.catalog) [
  | some desc ↦ (desc, s)
  | none ↦
      let desc : MemoryRegionDesc = record { start = 0; size_bytes = 0; region_id = 0 } in
      (desc, record s { catalog = (name, desc) ∷ s.catalog })
]

abbrev pub max_regions : ℕ
max_regions = 10

-- `MemoryRegions` and `InitMessage`
pub record MemoryRegions : Type 0 where
  pub offset : ℕ
  pub size_bytes : ℕ

pub record InitMessage : Type 0 where
  pub node_id : ℕ
  pub thread_id : ℕ
  pub num_regions : ℕ
  pub mem_regions : List MemoryRegions

-- The loop over the catalog; `none` is an index outside `mem_regions`.
unfoldable pub fill_regions :
    List (ℕ × MemoryRegionDesc) → List MemoryRegions → Option (List MemoryRegions)
fill_regions [] regions = some regions
fill_regions ((name, desc) ∷ rest) regions =
    let filled =
      set regions desc.region_id (record { offset = desc.start; size_bytes = desc.size_bytes }) in
    let others = fill_regions rest filled in
    if ltb desc.region_id (length regions) then others else none

-- The message for one worker; `none` is the `ensure`.
unfoldable pub init_message : Storage → InitMessage → Option InitMessage
init_message s m =
    if ltb (length s.catalog) max_regions
    then (do
      regions ← fill_regions s.catalog m.mem_regions
      some (record {
        node_id = s.node_id;
        thread_id = 1000;
        num_regions = length s.catalog;
        mem_regions = regions;
      }))
    else none

abbrev pub is_worker : Kind → Bool
is_worker worker = true
is_worker _ = false

-- The loop over the contexts that are not yet served. `exchanged` is whether the exchange with a
-- context returns; the messages sent come back in order, each with the number of its context. `none` is
-- an exception.
unfoldable pub serve :
    Storage → (ℕ → Bool) → ℕ → List Kind → InitMessage → Option (List (ℕ × InitMessage))
serve s exchanged i [] m = some []
serve s exchanged i (kind ∷ kinds) m =
    if is_worker kind
    then (do
      m1 ← init_message s m
      rest ← if exchanged i then serve s exchanged (i + 1) kinds m1 else none
      some ((i, m1) ∷ rest))
    else none

abbrev pub drop : {A : Type 0} → ℕ → List A → List A
drop zero xs = xs
drop (suc n) [] = []
drop (suc n) (x ∷ xs) = drop n xs

-- `while (cm->getNumberIncomingConnections() != numConnections) ;` over what the calls return, and
-- then one message for each context that has come since the last call. `none` is an exception, or a
-- wait that has not ended.
unfoldable pub wait_for : ℕ → List ℕ → Bool
wait_for n [] = false
wait_for n (now ∷ later) = if now == n then true else wait_for n later

unfoldable pub start_and_connect :
    ℕ
    → List ℕ
    → List Kind
    → (ℕ → Bool)
    → InitMessage
    → Storage
    → Option (List (ℕ × InitMessage) × Storage)
start_and_connect num_connections seen contexts exchanged buffer s =
    if wait_for num_connections seen
    then (do
      sent ← serve s exchanged s.served_connections (drop s.served_connections contexts) buffer
      some (sent, record s { served_connections = length contexts }))
    else none

-- The calls of `NAM`, and that of `Storage` with a function to run meanwhile: every context is served.
unfoldable pub start_and_connect_all :
    ℕ → List ℕ → List Kind → (ℕ → Bool) → InitMessage → Storage → Option (List (ℕ × InitMessage))
start_and_connect_all num_connections seen contexts exchanged buffer s =
    if wait_for num_connections seen then serve s exchanged 0 contexts buffer else none
