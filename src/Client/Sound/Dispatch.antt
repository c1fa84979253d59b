-- ===== src/Client/Sound/Dispatch.antt =====
-- `dht_lookup_dispatch` and `dht_lookup_update` keep the queries of all lookups sorted.
use nanotalk.Base.{
  ℕ, ◌≡◌, refl, sym, ap₂, ◌∙◌, subst, inl, inr, ◌&&◌, not, none, some, Option, List, [], ◌∷◌, ◌==◌,
  All, ltb, if◌then◌else◌, Bool-cases, Option-cases, if_both, arith,
}
use nanotalk.Common.{DhtId, DhtKey, DhtAddress, IsArray, id_size, id_equal}
use nanotalk.Common.Bits.{IsArray-id_xor}
use nanotalk.Bucket.{node_count}
use nanotalk.Search.{MsgNode}
use nanotalk.Search.Members.{Named}
use nanotalk.Client.{
  DhtQuery, DhtLookup, Client, Effect, find_lookup, store_lookup, drop_lookup, replace_connection,
}
use nanotalk.Client.Tables.{remove_lookup-All, store_lookup-All}
use nanotalk.Client.Lookup.{
  Dispatch, dispatch_query, dispatch_loop, concurrency, lookup_dispatch, scan_nodes, add_query,
  new_query, find_query, request_connection, request_connections, update_scanned, lookup_update,
}
use nanotalk.Client.Sources.Loop.{dispatch_go, dispatch_stop, counted}
use nanotalk.Client.Sources.{start, ran, changed, stored, emptied}
use nanotalk.Client.Sound.{query_key, query_keys, IsMetric, InOrder, IsOrdered}
use nanotalk.Client.Sound.Insert.{insert_query-IsSorted}
use nanotalk.Client.Sound.Queries.{find_query_missing}

-- A handler leaves the routing table as it was, and the queries sorted.
abbrev pub Orders : Client → Client × List Effect → Type 0
Orders c p = (p.0.table ≡ c.table) × All IsOrdered p.0.lookup_table

pub store-Orders :
    (l : DhtLookup) (ls : List DhtLookup)
    → IsOrdered l
    → All IsOrdered ls
    → All IsOrdered (store_lookup l ls)
store-Orders l ls one h =
    store_lookup-All IsOrdered l ls one (remove_lookup-All IsOrdered l.id ls h)

drop-Orders : (id : DhtId) (c : Client) → All IsOrdered c.lookup_table → Orders c (drop_lookup id c)
unfolding drop_lookup
drop-Orders id c h = elim (Option-cases (find_lookup id c.lookup_table)) [
  | inl e ↦ rw (drop_lookup, e) (refl, h)
  | inr (l, e) ↦ rw (drop_lookup, e) (refl, remove_lookup-All IsOrdered id c.lookup_table h)
]

dispatch_query-key :
    (own id : DhtId) (q : DhtQuery) (d : Dispatch)
    → query_key (dispatch_query own id q d).0 ≡ query_key q
unfolding dispatch_query
dispatch_query-key own id q d = ground arith

dispatch_loop-keys :
    (own id : DhtId) (qs : List DhtQuery) (d : Dispatch)
    → query_keys (dispatch_loop own id qs d).0 ≡ query_keys qs
dispatch_loop-keys own id [] d = unfold dispatch_loop in refl
dispatch_loop-keys own id (q ∷ qs) d =
    let t = dispatch_query own id q d in
    let rest = dispatch_loop-keys own id qs (counted t.0 t.1) in
    elim (Bool-cases (ltb d.num_sources concurrency && ltb d.num_alive node_count)) [
      | inl e ↦
          rw (dispatch_go own id q qs d e)
            (ap₂ (λ k ks. k ∷ ks) (dispatch_query-key own id q d) rest)
      | inr e ↦ rw (dispatch_stop own id q qs d e) refl
    ]

pub lookup_dispatch-Orders :
    (l : DhtLookup) (c : Client)
    → IsOrdered l
    → All IsOrdered c.lookup_table
    → Orders c (lookup_dispatch l c)
unfolding lookup_dispatch
lookup_dispatch-Orders l c one h =
    let sorted : IsOrdered (changed l c) = (
      one.0,
      subst (λ ks. All IsMetric ks × InOrder ks)
          (sym (dispatch_loop-keys c.id l.id l.queries (start l c))) one.1,
    ) in
    let kept = store-Orders (changed l c) c.lookup_table sorted h in
    let gone : DhtLookup = record (changed l c) { results = [] } in
    if_both (Orders c) ((ran l c).1.num_sources == 0) _ _
      (drop-Orders l.id (emptied l c) (store-Orders gone (stored l c).lookup_table sorted kept))
      (refl, kept)

add_query-IsOrdered :
    (node : MsgNode) (l : DhtLookup)
    → IsArray id_size node.id
    → IsOrdered l
    → IsOrdered (add_query node l)
add_query-IsOrdered node l size h = elim (Option-cases (find_query node.addr l.queries)) [
  | inl e ↦
      unfold add_query new_query in
      rw (add_query, e)
        (
          h.0,
          insert_query-IsSorted (new_query l.id node) l.queries
              (IsArray-id_xor id_size l.id node.id h.0 size)
              (find_query_missing node.addr l.queries e) h.1,
        )
  | inr (q, e) ↦ unfold add_query in rw (add_query, e) h
]

scan_nodes-IsOrdered :
    (own : DhtId) (nodes : List MsgNode) (l : DhtLookup)
    → Named (IsArray id_size) nodes
    → IsOrdered l
    → IsOrdered (scan_nodes own nodes l).0
unfolding scan_nodes
scan_nodes-IsOrdered own [] l named h = h
scan_nodes-IsOrdered own (node ∷ nodes) l named h =
    let l' = if id_equal node.id own then l else add_query node l in
    let rest =
      scan_nodes-IsOrdered own nodes l' named.1
        (if_both IsOrdered (id_equal node.id own) _ _ h (add_query-IsOrdered node l named.0 h)) in
    if_both (λ (p : DhtLookup × Option MsgNode). IsOrdered p.0)
      (not (id_equal node.id own) && id_equal node.id l.id) _ _ h rest

module _ (randombytes : ℕ → DhtKey) where
  request_connections-lookups :
      (id : DhtId) (addr : DhtAddress) (rs : List ℕ) (c : Client)
      → let p = request_connections randombytes id addr rs c in
        (p.0.table ≡ c.table) × (p.0.lookup_table ≡ c.lookup_table)
  unfolding request_connections request_connection replace_connection
  request_connections-lookups id addr [] c = (refl, refl)
  request_connections-lookups id addr (r ∷ rs) c =
      request_connections-lookups id addr rs (request_connection randombytes id addr r c).0

  update_scanned-Orders :
      (l : DhtLookup) (target : Option MsgNode) (c : Client)
      → IsOrdered l
      → All IsOrdered c.lookup_table
      → Orders c (update_scanned randombytes l target c)
  unfolding update_scanned
  update_scanned-Orders l none c one h = lookup_dispatch-Orders l c one h
  update_scanned-Orders l (some node) c one h =
      let p = request_connections randombytes l.id node.addr l.results c in
      let same = request_connections-lookups l.id node.addr l.results c in
      let gone : DhtLookup = record l { results = [] } in
      let c2 : Client = record p.0 { lookup_table = store_lookup gone p.0.lookup_table } in
      let dropped =
        drop-Orders l.id c2
          (store-Orders gone p.0.lookup_table one (subst (All IsOrdered) (sym same.1) h)) in
      (dropped.0 ∙ same.0, dropped.1)

  pub lookup_update-Orders :
      (l : DhtLookup) (nodes : List MsgNode) (c : Client)
      → IsOrdered l
      → Named (IsArray id_size) nodes
      → All IsOrdered c.lookup_table
      → Orders c (lookup_update randombytes l nodes c)
  unfolding lookup_update
  lookup_update-Orders l nodes c one named h =
      let t = scan_nodes c.id nodes l in
      update_scanned-Orders t.0 t.1 c (scan_nodes-IsOrdered c.id nodes l named one) h
