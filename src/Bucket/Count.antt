-- ===== src/Bucket/Count.antt =====
-- How one `dht_client_update` moves the counters of the routing table.
use nanotalk.Base.{
  ℕ, zero, suc, ◌+◌, ◌≤◌, ◌≡◌, inl, inr, Bool, true, false, none, some, ◌==◌, length, take,
  length-append, length-take, [], ◌∷◌, Bool-cases, if_both, arith, get_or,
}
use nanotalk.Common.{DhtId, DhtAddress, id_xor}
use nanotalk.Bucket.{
  Bucket, Table, Scan, found, ended, Split, redistribute, fresh_node, touch, split_step, split_loop,
  split_fuel, node_count, modify, insert_node, update_scanned, update, find_bucket, scan, has_next,
}
use nanotalk.Bucket.Modify.{length-modify}

-- One more peer, and three more buckets at most.
abbrev pub IsNear : Table → Table → Type 0
IsNear t u = (u.num_peers ≤ t.num_peers + 1) × (length u.buckets ≤ length t.buckets + 3)

split_step_behind :
    (own : DhtId) (s : Split) → length (split_step own s).behind ≡ length s.behind + 1
unfolding split_step
split_step_behind own s =
    length-append s.behind ((redistribute own s.nbits s.bucket [] none 0).0 ∷ [])

split_loop_behind :
    (fuel : ℕ) (own : DhtId) (s : Split)
    → length (split_loop fuel own s).behind ≤ length s.behind + fuel
unfolding split_loop
split_loop_behind zero own s = omega arith
split_loop_behind (suc fuel) own s = elim (Bool-cases (s.count == node_count)) [
  | inl e ↦
      rw (e, split_loop)
        (omega (arith, split_loop_behind fuel own (split_step own s), split_step_behind own s))
  | inr e ↦ rw (e, split_loop) (omega arith)
]

insert_node-IsNear :
    (now : ℕ) (id : DhtId) (addr : DhtAddress) (nbits count : ℕ) (t : Table)
    → IsNear t (insert_node now id addr nbits count t)
unfolding insert_node
insert_node-IsNear now id addr nbits count t =
    let bucket : Bucket = fresh_node now id addr ∷ get_or t.buckets nbits [] in
    let s : Split = split_loop split_fuel t.id (record {
      behind = take nbits t.buckets;
      bucket = bucket;
      nbits = nbits;
      count = count + 1;
      num_buckets = t.num_buckets;
    }) in
    let more = split_loop_behind split_fuel t.id (record {
      behind = take nbits t.buckets;
      bucket = bucket;
      nbits = nbits;
      count = count + 1;
      num_buckets = t.num_buckets;
    }) in
    if_both (IsNear t) (has_next nbits t.buckets) _ _
      (omega arith, omega (arith, length-modify (λ _. bucket) nbits t.buckets))
      (
        omega arith,
        omega (arith, more, length-append s.behind (s.bucket ∷ []), length-take nbits t.buckets),
      )

update_scanned-IsNear :
    (now : ℕ) (id : DhtId) (addr : DhtAddress) (alive : Bool) (nbits : ℕ) (s : Scan) (t : Table)
    → IsNear t (update_scanned now id addr alive nbits s t)
unfolding update_scanned
update_scanned-IsNear now id addr alive nbits (found i) t =
    (omega arith, omega (arith, length-modify (modify (touch now addr alive) i) nbits t.buckets))
update_scanned-IsNear now id addr false nbits (ended count r) t = (omega arith, omega arith)
update_scanned-IsNear now id addr true nbits (ended count none) t =
    if_both (IsNear t) (count == node_count) _ _ (omega arith, omega arith)
      (insert_node-IsNear now id addr nbits count t)
update_scanned-IsNear now id addr true nbits (ended count (some i)) t =
    if_both (IsNear t) (count == node_count) _ _
      (
        omega arith,
        omega (arith, length-modify (modify (λ _. fresh_node now id addr) i) nbits t.buckets),
      )
      (insert_node-IsNear now id addr nbits count t)

pub update-IsNear :
    (now : ℕ) (id : DhtId) (addr : DhtAddress) (alive : Bool) (t : Table)
    → IsNear t (update now id addr alive t)
unfolding update
update-IsNear now id addr alive t =
    let nbits = find_bucket (id_xor t.id id) 0 t.buckets in
    update_scanned-IsNear now id addr alive nbits (scan id (get_or t.buckets nbits []) 0 none) t
