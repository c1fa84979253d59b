-- ===== src/Client/Pending/Dispatch.antt =====
-- `dht_lookup_dispatch` and `dht_lookup_update` leave a client with pending lookups.
use nanotalk.Base.{
  ℕ, zero, suc, ◌≤◌, ◌<◌, ◌≡◌, refl, sym, ap, ◌∙◌, subst, inl, inr, ◌&&◌, none, some, Option, List,
  [], ◌∷◌, All, ltb, Bool-cases, arith,
}
use nanotalk.Common.{DhtId, DhtKey, DhtAddress}
use nanotalk.Bucket.{node_count}
use nanotalk.Search.{MsgNode}
use nanotalk.Client.{DhtQuery, DhtLookup, Client, store_lookup, remove_lookup, replace_connection}
use nanotalk.Client.Tables.{
  remove_lookup-All, store_lookup-All, find-store_lookup, remove-store_lookup, drop_lookup_found,
}
use nanotalk.Client.Lookup.{
  Dispatch, dispatch_query, dispatch_loop, concurrency, lookup_dispatch, scan_nodes,
  request_connection, request_connections, update_scanned, lookup_update,
}
use nanotalk.Client.Sources.Loop.{
  IsDispatched, dispatch_loop_lem, dispatch_go, dispatch_stop, counted,
}
use nanotalk.Client.Sources.{
  start, ran, changed, stored, emptied, dispatch_on, dispatch_out, emptied_table,
}
use nanotalk.Client.Results.Lookups.{scan_nodes-results, request_connections-count}
use nanotalk.Client.Pending.{IsCounted, IsPending, IsGoing}
use nanotalk.Client.Pending.Queries.{scan_nodes-IsCounted}

-- The lookups but for one are pending.
abbrev pub IsGoingBut : DhtId → Client → Type 0
IsGoingBut id c = All IsPending (remove_lookup id c.lookup_table) × (0 < c.next_source)

-- A client without a lookup under an identifier, or with one that is out of date.
pub but : (id : DhtId) (c : Client) → IsGoing c → IsGoingBut id c
but id c h = (remove_lookup-All IsPending id c.lookup_table h.0, h.1)

dispatch_query_next :
    (own id : DhtId) (q : DhtQuery) (d : Dispatch)
    → d.next_source ≤ (dispatch_query own id q d).1.next_source
unfolding dispatch_query
dispatch_query_next own id q d = ground arith

dispatch_loop_next :
    (own id : DhtId) (qs : List DhtQuery) (d : Dispatch)
    → d.next_source ≤ (dispatch_loop own id qs d).1.next_source
dispatch_loop_next own id [] d = unfold dispatch_loop in omega arith
dispatch_loop_next own id (q ∷ qs) d =
    elim (Bool-cases (ltb d.num_sources concurrency && ltb d.num_alive node_count)) [
      | inl e ↦
          let t = dispatch_query own id q d in
          subst (λ p. d.next_source ≤ p.1.next_source) (sym (dispatch_go own id q qs d e))
            (omega (
              arith,
              dispatch_query_next own id q d,
              dispatch_loop_next own id qs (counted t.0 t.1),
            ))
      | inr e ↦
          subst (λ p. d.next_source ≤ p.1.next_source) (sym (dispatch_stop own id q qs d e))
            (omega arith)
    ]

pub lookup_dispatch-IsGoing :
    (l : DhtLookup) (c : Client) → IsCounted l → IsGoingBut l.id c → IsGoing (lookup_dispatch l c).0
lookup_dispatch-IsGoing l c h rest = go (ran l c).1.num_sources refl
  where
    facts : IsDispatched l.queries (start l c) (ran l c).0 (ran l c).1
    facts = dispatch_loop_lem c.id l.id l.queries (start l c) h.1 rest.1

    next : c.next_source ≤ (ran l c).1.next_source
    next = dispatch_loop_next c.id l.id l.queries (start l c)

    go : (n : ℕ) → (ran l c).1.num_sources ≡ n → IsGoing (lookup_dispatch l c).0
    go zero e =
        let gone = record (changed l c) { results = [] } in
        let out = ap (λ p. p.0) (dispatch_out l c e) in
        let same =
          drop_lookup_found l.id gone (emptied l c)
            (find-store_lookup gone (stored l c).lookup_table) in
        (
          subst (All IsPending) (sym (ap (λ (x : Client). x.lookup_table) out ∙ emptied_table l c))
              rest.0,
          subst (λ (x : Client). 0 < x.next_source) (sym (out ∙ ap (λ p. p.0) same))
              (omega (arith, next, rest.1)),
        )
    go (suc n) e =
        subst (λ p. IsGoing p.0) (sym (dispatch_on l c n e))
          (
            store_lookup-All IsPending (changed l c) c.lookup_table
                ((omega (arith, facts.0, h.0), facts.1), omega (arith, e)) rest.0,
            omega (arith, next, rest.1),
          )

module _ (randombytes : ℕ → DhtKey) where
  request_connections_next :
      (id : DhtId) (addr : DhtAddress) (rs : List ℕ) (c : Client)
      → c.next_source ≤ (request_connections randombytes id addr rs c).0.next_source
  unfolding request_connections request_connection replace_connection
  request_connections_next id addr [] c = omega arith
  request_connections_next id addr (r ∷ rs) c =
      let c1 = (request_connection randombytes id addr r c).0 in
      omega (arith, request_connections_next id addr rs c1)

  update_scanned-IsGoing :
      (l : DhtLookup) (target : Option MsgNode) (c : Client)
      → IsCounted l
      → IsGoingBut l.id c
      → IsGoing (update_scanned randombytes l target c).0
  unfolding update_scanned
  update_scanned-IsGoing l none c h rest = lookup_dispatch-IsGoing l c h rest
  update_scanned-IsGoing l (some node) c h rest =
      let p = request_connections randombytes l.id node.addr l.results c in
      let gone = record l { results = [] } in
      let c2 : Client = record p.0 { lookup_table = store_lookup gone p.0.lookup_table } in
      let asked = request_connections-count 0 randombytes l.id node.addr l.results c in
      let dropped = drop_lookup_found l.id gone c2 (find-store_lookup gone p.0.lookup_table) in
      (
        subst (All IsPending)
            (sym (
              ap (λ q. q.0.lookup_table) dropped
              ∙ remove-store_lookup gone p.0.lookup_table
              ∙ ap (remove_lookup l.id) asked.1))
            rest.0,
        subst (λ (x : Client). 0 < x.next_source) (sym (ap (λ q. q.0) dropped))
            (omega (arith, request_connections_next l.id node.addr l.results c, rest.1)),
      )

  pub lookup_update-IsGoing :
      (l : DhtLookup) (nodes : List MsgNode) (c : Client)
      → IsCounted l
      → IsGoingBut l.id c
      → IsGoing (lookup_update randombytes l nodes c).0
  unfolding lookup_update
  lookup_update-IsGoing l nodes c h rest =
      let t = scan_nodes c.id nodes l in
      let same = scan_nodes-results 0 randombytes c.id nodes l in
      update_scanned-IsGoing t.0 t.1 c (scan_nodes-IsCounted c.id nodes l h)
        (subst (λ id. IsGoingBut id c) (sym same.1) rest)
