-- ===== src/Bucket.antt =====
-- The routing table of src/dht-client.c: `DhtNode`, the buckets of `DhtClientPrivate`, and
-- `dht_client_update`. The monotonic clock is the argument `now`.
pub mod Splitting
pub mod Place
pub mod Grow
pub mod Modify
pub mod Update
pub mod Count
pub mod Peers
use nanotalk.Base.{
  ℕ, zero, suc, ◌+◌, ◌-◌, ◌/◌, ◌%◌, ◌^◌, bit_and, bit_xor, Bool, true, false, Option, none, some,
  List, [], ◌∷◌, ◌++◌, ◌==◌, if◌then◌else◌, get_or, take,
}
use nanotalk.Common.{DhtId, DhtAddress, id_xor, id_equal, address_equal, bit}

-- `DHT_NODE_COUNT`.
abbrev pub node_count : ℕ
node_count = 16

-- `DHT_LINGER_US`: an hour.
abbrev pub linger_us : ℕ
linger_us = 3_600_000_000

-- `guint` arithmetic.
abbrev pub uint_mod : ℕ
uint_mod = 2 ^ 32

abbrev pub inc_uint : ℕ → ℕ
inc_uint n = (n + 1) % uint_mod

abbrev pub dec_uint : ℕ → ℕ
dec_uint n = (n + uint_mod - 1) % uint_mod

-- `struct _dht_node`.
pub record Node : Type 0 where
  pub id : DhtId
  pub addr : DhtAddress
  pub timestamp : ℕ
  pub is_alive : Bool

-- What a walk over `next` meets, starting at the bucket's `data`.
abbrev pub Bucket : Type 0
Bucket = List Node

-- The fields of `struct _dht_client_private` that make up the routing table.
pub record Table : Type 0 where
  pub id : DhtId
  pub buckets : List Bucket
  pub num_buckets : ℕ
  pub num_peers : ℕ

-- `g_list_alloc()`: one empty bucket.
unfoldable pub init_table : DhtId → Table
init_table id = record { id = id; buckets = [] ∷ []; num_buckets = 1; num_peers = 0 }

-- The bucket of an identifier: the walk stops at the first set bit of the metric, or at the end.
unfoldable pub find_bucket : DhtId → ℕ → List Bucket → ℕ
find_bucket metric nbits [] = nbits
find_bucket metric nbits (b ∷ []) = nbits
find_bucket metric nbits (b ∷ c ∷ rest) =
    let next = find_bucket metric (nbits + 1) (c ∷ rest) in if bit metric nbits then nbits else next

unfoldable pub has_next : ℕ → List Bucket → Bool
has_next n [] = false
has_next n (b ∷ []) = false
has_next zero (b ∷ c ∷ rest) = true
has_next (suc n) (b ∷ c ∷ rest) = has_next n (c ∷ rest)

-- The loop over a bucket's nodes ends at the node with the identifier, or with the number of
-- nodes and the last one that is not alive. A pointer to a node is its position.
pub data Scan : Type 0 where
  found : ℕ → Scan
  ended : ℕ → Option ℕ → Scan

unfoldable pub scan : DhtId → Bucket → ℕ → Option ℕ → Scan
scan id [] count replaceable = ended count replaceable
scan id (node ∷ nodes) count replaceable =
    let next = scan id nodes (count + 1) (if node.is_alive then replaceable else some count) in
    if id_equal node.id id then found count else next

unfoldable pub modify {ℓ} : {A : Type ℓ} → (A → A) → ℕ → List A → List A
modify f i [] = []
modify f zero (x ∷ xs) = f x ∷ xs
modify f (suc i) (x ∷ xs) = x ∷ modify f i xs

-- What an answer or a timeout does to the node that it is about.
unfoldable pub touch : ℕ → DhtAddress → Bool → Node → Node
touch now addr true node = record node { addr = addr; timestamp = now; is_alive = true }
touch now addr false node =
    if address_equal node.addr addr then record node { is_alive = false } else node

-- The test of the redistribution: the node agrees with the own identifier in bit `nbits`.
unfoldable pub moves : DhtId → ℕ → Node → Bool
moves own nbits node =
    bit_and (bit_xor (get_or node.id (nbits / 8) 0) (get_or own (nbits / 8) 0))
      (0x80 / 2 ^ (nbits % 8))
    == 0

-- `g_list_concat(last, link)`, where `last` is a single link or NULL, and so is `link`.
abbrev pub concat : Option Node → Node → List Node
concat none link = link ∷ []
concat (some last) link = last ∷ link ∷ []

-- The inner loop of a split, from the state `first`, `last`, `count`: the nodes that stay, what is
-- reached from `first`, and the number of nodes taken out.
unfoldable pub redistribute :
    DhtId → ℕ → Bucket → List Node → Option Node → ℕ → Bucket × List Node × ℕ
redistribute own nbits [] first last count = ([], first, count)
redistribute own nbits (node ∷ nodes) first last count =
    let go = moves own nbits node in
    let (kept, first', count') =
      redistribute own nbits nodes (if go then concat last node else first)
        (if go then some node else last) (if go then count + 1 else count) in
    (if go then kept else node ∷ kept, first', count')

-- The state of the outer loop: the buckets behind it, the last bucket, and the counters.
pub record Split : Type 0 where
  pub behind : List Bucket
  pub bucket : Bucket
  pub nbits : ℕ
  pub count : ℕ
  pub num_buckets : ℕ

unfoldable pub split_step : DhtId → Split → Split
split_step own s =
    let (kept, first, count) = redistribute own s.nbits s.bucket [] none 0 in
    record {
      behind = s.behind ++ (kept ∷ []);
      bucket = first;
      nbits = s.nbits + 1;
      count = count;
      num_buckets = inc_uint s.num_buckets;
    }

-- `while((count == DHT_NODE_COUNT) && !bucket->next)`; the new bucket is always the last one.
unfoldable pub split_loop : ℕ → DhtId → Split → Split
split_loop zero own s = s
split_loop (suc fuel) own s = elim (s.count == node_count) [
  | true ↦ split_loop fuel own (split_step own s)
  | false ↦ s
]

-- Rounds that the loop never uses up: `Bucket.Splitting.split_loop_ends`.
abbrev pub split_fuel : ℕ
split_fuel = 2

abbrev fresh_node : ℕ → DhtId → DhtAddress → Node
fresh_node now id addr = record { id = id; addr = addr; timestamp = now; is_alive = true }

-- A new node in front of bucket `nbits`, which held `count` nodes.
unfoldable pub insert_node : ℕ → DhtId → DhtAddress → ℕ → ℕ → Table → Table
insert_node now id addr nbits count t =
    let bucket = fresh_node now id addr ∷ get_or t.buckets nbits [] in
    let peers = inc_uint t.num_peers in
    if has_next nbits t.buckets
    then record t { buckets = modify (λ _. bucket) nbits t.buckets; num_peers = peers }
    else (let s = split_loop split_fuel t.id (record {
      behind = take nbits t.buckets;
      bucket = bucket;
      nbits = nbits;
      count = count + 1;
      num_buckets = t.num_buckets;
    }) in
        record t {
          buckets = s.behind ++ (s.bucket ∷ []);
          num_buckets = s.num_buckets;
          num_peers = peers;
        })

-- What follows the loop over the nodes of bucket `nbits`.
unfoldable pub update_scanned : ℕ → DhtId → DhtAddress → Bool → ℕ → Scan → Table → Table
update_scanned now id addr is_alive nbits (found i) t = record t {
  buckets = modify (modify (touch now addr is_alive) i) nbits t.buckets;
}
update_scanned now id addr false nbits (ended count replaceable) t = t
update_scanned now id addr true nbits (ended count replaceable) t =
    if count == node_count
    then elim replaceable [
      | none ↦ t
      | some i ↦ record t {
        buckets = modify (modify (λ _. fresh_node now id addr) i) nbits t.buckets;
      }
    ]
    else insert_node now id addr nbits count t

-- `dht_client_update`.
unfoldable pub update : ℕ → DhtId → DhtAddress → Bool → Table → Table
update now id addr is_alive t =
    let metric = id_xor t.id id in
    let nbits = find_bucket metric 0 t.buckets in
    update_scanned now id addr is_alive nbits (scan id (get_or t.buckets nbits []) 0 none) t
