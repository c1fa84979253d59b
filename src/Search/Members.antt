-- ===== src/Search/Members.antt =====
-- The nodes that `dht_client_search` names, as nodes of the routing table.
use nanotalk.Base.{
  ℕ, suc, ◌+◌, inl, inr, Bool, true, false, List, [], ◌∷◌, ◌++◌, ◌==◌, if◌then◌else◌, All,
  All-append, All-map, Bool-cases,
}
use nanotalk.Common.{DhtId, IsArray, id_size, id_xor, bit}
use nanotalk.Bucket.{Node, Bucket, Table, node_count, dec_uint}
use nanotalk.Bucket.Place.{InLast, InInner, AllIds, Placed}
use nanotalk.Search.{MsgNode, Found, is_listed, msg_node, visit, visit_if, walk, search_nodes}

module _ (P : DhtId → Type 0) where
  abbrev pub Named : List MsgNode → Type 0
  Named = All λ node. P node.id

  -- A visit of one bucket, and the nodes that it has found so far.
  abbrev Finds : Bucket × Found → Type 0
  Finds r = AllIds P r.0 × Named r.1.nodes

  visit-Finds :
      (now : ℕ) (b : Bucket) (f : Found) → AllIds P b → Named f.nodes → Finds (visit now b f)
  unfolding visit
  visit-Finds now [] f h k = (h, k)
  visit-Finds now (x ∷ b) f h k =
      let g : Found = record f { nodes = f.nodes ++ (msg_node x ∷ []); count = f.count + 1 } in
      let named : Named g.nodes =
        All-append (λ (node : MsgNode). P node.id) f.nodes (msg_node x ∷ []) k (h.0, tt) in
      elim (Bool-cases (is_listed now x)) [
        | inr e ↦
            rw (e, visit) (visit-Finds now b (record f { num_peers = dec_uint f.num_peers }) h.1 k)
        | inl e ↦ elim (Bool-cases (g.count == node_count)) [
          | inl full ↦ rw (e, full, visit) (h, named)
          | inr more ↦
              let rest = visit-Finds now b g h.1 named in
              rw (e, more, visit) ((h.0, rest.0), rest.1)
        ]
      ]

  visit_if-Finds :
      (go : Bool) (now : ℕ) (b : Bucket) (f : Found)
      → AllIds P b
      → Named f.nodes
      → Finds (visit_if go now b f)
  unfolding visit_if
  visit_if-Finds true now b f h k = visit-Finds now b f h k
  visit_if-Finds false now b f h k = (h, k)

  walk-Named :
      (metric : DhtId) (now n : ℕ) (bs : List Bucket) (f : Found)
      → All (AllIds P) bs
      → Named f.nodes
      → Named (walk metric now n bs f).1.nodes
  unfolding walk
  walk-Named metric now n [] f h k = k
  walk-Named metric now n (b ∷ rest) f h k =
      let v = visit_if-Finds (bit metric n) now b f h.0 k in
      let r1 = visit_if (bit metric n) now b f in
      let r2 = walk metric now (n + 1) rest r1.1 in
      let w = walk-Named metric now (n + 1) rest r1.1 h.1 v.1 in
      elim (Bool-cases (r1.1.count == node_count)) [
        | inl full ↦ rw (full, walk) v.1
        | inr more ↦ elim (Bool-cases (r2.1.count == node_count)) [
          | inl full ↦ rw (more, full, walk) w
          | inr again ↦
              rw (more, again, walk)
                (visit_if-Finds (if bit metric n then false else true) now r1.0 r2.1 v.0 w).1
        ]
      ]

  pub search_nodes-Named :
      (now : ℕ) (id : DhtId) (t : Table)
      → All (AllIds P) t.buckets
      → Named (search_nodes now id t).1
  unfolding search_nodes
  search_nodes-Named now id t h =
      walk-Named (id_xor t.id id) now 0 t.buckets
        (record { nodes = []; count = 0; num_peers = t.num_peers }) h tt

-- The identifiers of a table that is well formed are arrays of their size.
pub Placed-IsArray :
    (own : DhtId) (n : ℕ) (bs : List Bucket) → Placed own n bs → All (AllIds (IsArray id_size)) bs
Placed-IsArray own n [] h = tt
Placed-IsArray own n (b ∷ []) h = (
  All-map (λ (x : Node). InLast own n x.id) (λ (x : Node). IsArray id_size x.id) b (λ x p. p.0) h,
  tt,
)
Placed-IsArray own n (b ∷ c ∷ rest) h = (
  All-map (λ (x : Node). InInner own n x.id) (λ (x : Node). IsArray id_size x.id) b (λ x p. p.0)
      h.0,
  Placed-IsArray own (suc n) (c ∷ rest) h.1,
)
