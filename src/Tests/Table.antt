-- ===== src/Tests/Table.antt =====
-- The routing table and its search at concrete inputs.
use nanotalk.Base.{
  ℕ, suc, ◌+◌, ◌-◌, ◌≡◌, ◌≢◌, ◌≤◌, refl, true, none, List, [], ◌∷◌, length, take, keep, replicate,
  All, zero, bytes_eq, arith,
}
use nanotalk.Common.{DhtId, DhtAddress, id_size, IsArray, IsByte}
use nanotalk.Bucket.{
  Node, Bucket, Table, Split, node_count, init_table, update, redistribute, split_loop, moves,
  update_scanned, scan, find_bucket, insert_node, has_next,
}
use nanotalk.Bucket.Splitting.{redistribute_lem, redistribute_loses, split_loop_ends}
use nanotalk.Bucket.Grow.{total}
use nanotalk.Bucket.Peers.{has_id}
use nanotalk.Bucket.Update.{IsTable, update-IsTable, init_table-IsTable}
use nanotalk.Search.{search_nodes}
use nanotalk.Search.Order.{candidates, search_nodes-length}
use nanotalk.Search.Nearest.{Ranked, search_nodes_nearest}
use nanotalk.Search.Prune.{search_nodes-IsTable}
use mathlib.Core.List.{Perm}

abbrev id_of : ℕ → DhtId
id_of n = n ∷ replicate 19 7

All-replicate : (n x : ℕ) → IsByte x → All IsByte (replicate n x)
All-replicate zero x h = tt
All-replicate (suc n) x h = (h, All-replicate n x h)

id_of-IsArray : (n : ℕ) → IsByte n → IsArray id_size (id_of n)
id_of-IsArray n h = (refl, (h, All-replicate 19 7 (omega arith)))

abbrev addr : DhtAddress
addr = 1 ∷ 2 ∷ 127 ∷ 0 ∷ 0 ∷ 1 ∷ []

abbrev fresh : Table
fresh = init_table (id_of 8)

abbrev node : ℕ → Node
node n = record { id = id_of n; addr = addr; timestamp = 5; is_alive = true }

fresh-IsTable : IsTable fresh
fresh-IsTable = init_table-IsTable (id_of 8) (id_of-IsArray 8 (omega arith))

abbrev one_peer : Table
one_peer = update 5 (id_of 9) addr true fresh

one_peer-IsTable : IsTable one_peer
unfolding init_table
one_peer-IsTable =
    (update-IsTable 5 (id_of 9) addr true fresh fresh-IsTable (id_of-IsArray 9 (omega arith))
      (omega arith) (omega arith)).0

update-IsTable_example :
    IsTable (update 6 (id_of 200) addr true one_peer)
    × ((update 6 (id_of 200) addr true one_peer).num_peers ≡ 2)
unfolding init_table update update_scanned scan find_bucket insert_node has_next split_loop has_id
    bytes_eq
update-IsTable_example =
    update-IsTable 6 (id_of 200) addr true one_peer one_peer-IsTable
      (id_of-IsArray 200 (omega arith)) (omega arith) (omega arith)

search_nodes-IsTable_example :
    let u = (search_nodes 7 (id_of 10) one_peer).0 in
    IsTable u
    × (u.num_peers + total one_peer.buckets ≡ one_peer.num_peers + total u.buckets)
    × (total u.buckets ≤ total one_peer.buckets)
unfolding init_table update update_scanned scan find_bucket insert_node has_next split_loop
search_nodes-IsTable_example =
    search_nodes-IsTable 7 (id_of 10) one_peer one_peer-IsTable (omega arith)

search_nodes-length_example : length (search_nodes 7 (id_of 10) one_peer).1 ≤ node_count
search_nodes-length_example = search_nodes-length 7 (id_of 10) one_peer

search_nodes_nearest_example :
    (bs : List Bucket) × Perm bs one_peer.buckets
    × Ranked (id_of 10) bs
    × ((search_nodes 7 (id_of 10) one_peer).1 ≡ take node_count (candidates 7 bs))
search_nodes_nearest_example =
    search_nodes_nearest 7 (id_of 10) one_peer one_peer-IsTable (id_of-IsArray 10 (omega arith))

abbrev five : Bucket
five = node 9 ∷ node 200 ∷ node 10 ∷ node 11 ∷ node 12 ∷ []

redistribute_lem_example :
    redistribute (id_of 8) 0 five [] none 0 ≡ (node 200 ∷ [], node 11 ∷ node 12 ∷ [], 4)
unfolding moves keep
redistribute_lem_example = redistribute_lem (id_of 8) 0 five

redistribute_loses_example :
    let (kept, first, count) = redistribute (id_of 8) 0 five [] none 0 in
    length kept + length first + (count - 2) ≡ 5
redistribute_loses_example = redistribute_loses (id_of 8) 0 five

abbrev full : Split
full = record { behind = []; bucket = five; nbits = 0; count = 16; num_buckets = 1 }

split_loop_ends_example : (split_loop 2 (id_of 8) full).count ≢ node_count
split_loop_ends_example = split_loop_ends (id_of 8) full 0
