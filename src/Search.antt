-- ===== src/Search.antt =====
-- `dht_client_search` of src/dht-client.c: the nodes to name for a target, nearest buckets first.
-- The nodes are written to an array of `DHT_NODE_COUNT` entries, here a list.
pub mod Visit
pub mod Order
pub mod Nearest
pub mod Prune
pub mod Members
use nanotalk.Base.{ℕ, ◌+◌, Bool, true, false, ◌||◌, List, [], ◌∷◌, ◌++◌, ◌==◌, if◌then◌else◌, ltb}
use nanotalk.Common.{DhtId, DhtAddress, id_xor, bit}
use nanotalk.Bucket.{Node, Bucket, Table, node_count, linger_us, dec_uint}

-- `struct _msg_node`.
pub record MsgNode : Type 0 where
  pub id : DhtId
  pub addr : DhtAddress

-- What the loops change: the output array, its length, and the counter of peers.
pub record Found : Type 0 where
  pub nodes : List MsgNode
  pub count : ℕ
  pub num_peers : ℕ

-- `node->is_alive || timestamp - node->timestamp < DHT_LINGER_US`, in signed arithmetic.
unfoldable pub is_listed : ℕ → Node → Bool
is_listed now node = node.is_alive || ltb now (node.timestamp + linger_us)

abbrev pub msg_node : Node → MsgNode
msg_node node = record { id = node.id; addr = node.addr }

-- The loop over the nodes of a bucket. It deletes the dead ones, and ends early with a full array.
unfoldable pub visit : ℕ → Bucket → Found → Bucket × Found
visit now [] f = ([], f)
visit now (node ∷ nodes) f = elim (is_listed now node) [
  | true ↦
      let f' : Found = record f { nodes = f.nodes ++ (msg_node node ∷ []); count = f.count + 1 } in
      elim (f'.count == node_count) [
        | true ↦ (node ∷ nodes, f')
        | false ↦ let (nodes', f'') = visit now nodes f' in (node ∷ nodes', f'')
      ]
  | false ↦ visit now nodes (record f { num_peers = dec_uint f.num_peers })
]

-- A visit of a bucket in one direction, if its bit is the one wanted there.
unfoldable pub visit_if : Bool → ℕ → Bucket → Found → Bucket × Found
visit_if true now b f = visit now b f
visit_if false now b f = (b, f)

-- The loop over the buckets. It goes to the last one (`dir = 1`) and visits those whose bit of the
-- metric is set; then it comes back by `prev` (`dir = 0`) and visits the others. The way back is
-- the return of this recursion, and a full array ends the loop at once.
unfoldable pub walk : DhtId → ℕ → ℕ → List Bucket → Found → List Bucket × Found
walk metric now nbits [] f = ([], f)
walk metric now nbits (b ∷ rest) f =
    let (b1, f1) = visit_if (bit metric nbits) now b f in
    elim (f1.count == node_count) [
      | true ↦ (b1 ∷ rest, f1)
      | false ↦
          let (rest', f2) = walk metric now (nbits + 1) rest f1 in
          elim (f2.count == node_count) [
            | true ↦ (b1 ∷ rest', f2)
            | false ↦
                let (b2, f3) = visit_if (if bit metric nbits then false else true) now b1 f2 in
                (b2 ∷ rest', f3)
          ]
    ]

-- `dht_client_search`: the table without the dead nodes that it met, and the output array.
unfoldable pub search_nodes : ℕ → DhtId → Table → Table × List MsgNode
search_nodes now id t =
    let metric = id_xor t.id id in
    let (buckets, f) =
      walk metric now 0 t.buckets (record { nodes = []; count = 0; num_peers = t.num_peers }) in
    (record t { buckets = buckets; num_peers = f.num_peers }, f.nodes)
