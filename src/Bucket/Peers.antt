-- ===== src/Bucket/Peers.antt =====
-- Which calls of `dht_client_update` the counter of peers counts.
use nanotalk.Base.{
  ℕ, ◌+◌, ◌<◌, ◌≡◌, refl, ap, inl, inr, Bool, true, false, not, ◌&&◌, ◌||◌, Option, none, some, [],
  ◌∷◌, ◌==◌, if◌then◌else◌, length, Bool-cases, arith, get_or,
}
use nanotalk.Common.{DhtId, DhtAddress, id_xor, id_equal}
use nanotalk.Bucket.{
  Node, Bucket, Table, Scan, found, ended, node_count, uint_mod, insert_node, update_scanned,
  update, find_bucket, scan, has_next,
}

unfoldable pub has_id : DhtId → Bucket → Bool
has_id id [] = false
has_id id (x ∷ b) = id_equal x.id id || has_id id b

-- A node that answers gets a place of its own: it is not in its bucket, which has room.
abbrev pub joins : Bool → DhtId → Bucket → Bool
joins alive id b = alive && (not (has_id id b) && not (length b == node_count))

-- The loop over a bucket finds the identifier if it is there, and else the bucket's size.
abbrev Scanned : Scan → DhtId → ℕ → Bucket → Type 0
Scanned (found i) id c b = has_id id b ≡ true
Scanned (ended k r) id c b = (has_id id b ≡ false) × (k ≡ c + length b)

Scanned-other :
    (s : Scan) (id : DhtId) (c : ℕ) (b : Bucket)
    → Scanned s id (c + 1) b
    → (x : Node) → id_equal x.id id ≡ false
    → Scanned s id c (x ∷ b)
unfolding has_id
Scanned-other (found i) id c b h x e = rw (e, has_id) h
Scanned-other (ended k r) id c b h x e = (rw (e, has_id) h.0, omega (arith, h.1))

scan-Scanned : (id : DhtId) (b : Bucket) (c : ℕ) (r : Option ℕ) → Scanned (scan id b c r) id c b
unfolding scan has_id
scan-Scanned id [] c r = (refl, omega arith)
scan-Scanned id (x ∷ b) c r = elim (Bool-cases (id_equal x.id id)) [
  | inl e ↦ rw (e, scan) (ap (λ t. t || has_id id b) e)
  | inr e ↦
      let q = if x.is_alive then r else some c in
      rw (e, scan) (Scanned-other (scan id b (c + 1) q) id c b (scan-Scanned id b (c + 1) q) x e)
]

insert_node-peers :
    (now : ℕ) (id : DhtId) (addr : DhtAddress) (nbits count : ℕ) (t : Table)
    → t.num_peers + 1 < uint_mod
    → (insert_node now id addr nbits count t).num_peers ≡ t.num_peers + 1
unfolding insert_node
insert_node-peers now id addr nbits count t room = elim (Bool-cases (has_next nbits t.buckets)) [
  | inl e ↦ rw (e, insert_node) (omega arith)
  | inr e ↦ rw (e, insert_node) (omega arith)
]

update_scanned-peers :
    (now : ℕ) (id : DhtId) (addr : DhtAddress) (alive : Bool) (nbits : ℕ) (s : Scan) (t : Table)
    (b : Bucket)
    → t.num_peers + 1 < uint_mod
    → Scanned s id 0 b
    → (update_scanned now id addr alive nbits s t).num_peers
      ≡ t.num_peers + (if joins alive id b then 1 else 0)
unfolding update_scanned
update_scanned-peers now id addr true nbits (found i) t b room h = rw h (omega arith)
update_scanned-peers now id addr false nbits (found i) t b room h = omega arith
update_scanned-peers now id addr false nbits (ended count r) t b room h = omega arith
update_scanned-peers now id addr true nbits (ended count none) t b room h =
    let size : count ≡ length b = omega (arith, h.1) in
    elim (Bool-cases (length b == node_count)) [
      | inl full ↦ rw (h.0, full, update_scanned, size, full) (omega arith)
      | inr more ↦
          rw (h.0, more, update_scanned, size, more)
            (insert_node-peers now id addr nbits (length b) t room)
    ]
update_scanned-peers now id addr true nbits (ended count (some i)) t b room h =
    let size : count ≡ length b = omega (arith, h.1) in
    elim (Bool-cases (length b == node_count)) [
      | inl full ↦ rw (h.0, full, update_scanned, size, full) (omega arith)
      | inr more ↦
          rw (h.0, more, update_scanned, size, more)
            (insert_node-peers now id addr nbits (length b) t room)
    ]

pub update-peers :
    (now : ℕ) (id : DhtId) (addr : DhtAddress) (alive : Bool) (t : Table)
    → t.num_peers + 1 < uint_mod
    → (update now id addr alive t).num_peers
      ≡ t.num_peers
        + (if joins alive id (get_or t.buckets (find_bucket (id_xor t.id id) 0 t.buckets) [])
            then 1
            else 0)
unfolding update
update-peers now id addr alive t room =
    let nbits = find_bucket (id_xor t.id id) 0 t.buckets in
    let b = get_or t.buckets nbits [] in
    update_scanned-peers now id addr alive nbits (scan id b 0 none) t b room
      (scan-Scanned id b 0 none)
