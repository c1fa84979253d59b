-- ===== src/Client/Timers/Lookups.antt =====
-- The timers of queries through `dht_lookup_dispatch` and `dht_lookup_update`.
use nanotalk.Base.{
  ℕ, zero, suc, ◌+◌, ◌<◌, ◌≡◌, refl, sym, ap, subst, inl, inr, false, ◌&&◌, Option, none, some,
  List, [], ◌∷◌, ◌++◌, ltb, if◌then◌else◌, Bool-cases, Option-cases, arith,
}
use nanotalk.Common.{DhtId, DhtKey, DhtAddress, id_equal, address_deserialize}
use nanotalk.Bucket.{node_count}
use nanotalk.Search.{MsgNode}
use nanotalk.Message.{connection1_bytes}
use nanotalk.Client.{
  replace_connection, send, DhtConnection, DhtQuery, DhtLookup, Client, Effect, store_lookup,
  drop_lookup,
}
use nanotalk.Client.Tables.{find-store_lookup}
use nanotalk.Client.Lookup.{
  Dispatch, dispatch_query, dispatch_loop, concurrency, fail_results, lookup_dispatch, insert_query,
  new_query, request_connection, request_connections, add_query, find_query, scan_nodes,
  update_scanned, lookup_update,
}
use nanotalk.Client.Sources.Loop.{dispatch_go, dispatch_stop, counted}
use nanotalk.Client.Sources.{dispatch_on, dispatch_out, ran, changed, stored, emptied}
use nanotalk.Client.Tally.{
  held, ended, ended-append, whereabouts, at_lookup, at_lookup_found, store_lookup-count,
  drop_lookup-count, replace_connection-count,
}
use nanotalk.Client.Results.Lookups.{scan_nodes-results, request_connections-count}
use nanotalk.Client.Timers.{
  same_source, in_queries, timers, additions, removed, added, Balanced, timers-IsTally,
  drop_lookup-added, replace_connection-added,
}

module _ (n : ℕ) (positive : 0 < n) where
  dispatch_query-timers :
      (own id : DhtId) (q : DhtQuery) (d : Dispatch)
      → let r = dispatch_query own id q d in
        (same_source n r.0.timeout_source ≡ same_source n q.timeout_source + added n r.2)
        × (removed n r.2 ≡ 0)
  unfolding dispatch_query ended
  dispatch_query-timers own id q d = ground arith

  dispatch_loop-timers :
      (own id : DhtId) (qs : List DhtQuery) (d : Dispatch)
      → let r = dispatch_loop own id qs d in
        (in_queries n r.0 ≡ in_queries n qs + added n r.2) × (removed n r.2 ≡ 0)
  unfolding in_queries
  dispatch_loop-timers own id [] d = unfold dispatch_loop ended in (omega arith, refl)
  dispatch_loop-timers own id (q ∷ qs) d =
      let P = λ (r : List DhtQuery × Dispatch × List Effect).
        (in_queries n r.0 ≡ in_queries n (q ∷ qs) + added n r.2) × (removed n r.2 ≡ 0) in
      let t = dispatch_query own id q d in
      let rest = dispatch_loop own id qs (counted t.0 t.1) in
      let one = dispatch_query-timers own id q d in
      let more = dispatch_loop-timers own id qs (counted t.0 t.1) in
      elim (Bool-cases (ltb d.num_sources concurrency && ltb d.num_alive node_count)) [
        | inl e ↦ subst P (sym (dispatch_go own id q qs d e)) (
          omega (arith, one.0, more.0, ended-append (additions n) t.2 rest.2),
          omega (arith, one.1, more.1, ended-append (timers n) t.2 rest.2),
        )
        | inr e ↦
            subst P (sym (dispatch_stop own id q qs d e)) (unfold ended in (omega arith, refl))
      ]

  fail_results-timers :
      (rs : List ℕ) → (removed n (fail_results rs) ≡ 0) × (added n (fail_results rs) ≡ 0)
  unfolding ended fail_results
  fail_results-timers [] = (refl, refl)
  fail_results-timers (q ∷ rs) =
      let rest = fail_results-timers rs in (omega (arith, rest.0), omega (arith, rest.1))

  -- A lookup that stands in the table is put back, or dropped with its timers.
  abbrev pub Moved : DhtLookup → Client → Client × List Effect → Type 0
  Moved l c p =
      whereabouts (timers n) p + at_lookup (timers n) l.id c.lookup_table
      ≡ held (timers n) c + in_queries n l.queries + added n p.1

  pub lookup_dispatch-Moved : (l : DhtLookup) (c : Client) → Moved l c (lookup_dispatch l c)
  lookup_dispatch-Moved l c = go (ran l c).1.num_sources refl
    where
      loop :
          (in_queries n (ran l c).0 ≡ in_queries n l.queries + added n (ran l c).2)
          × (removed n (ran l c).2 ≡ 0)
      loop =
          dispatch_loop-timers c.id l.id l.queries
            (record { num_sources = l.num_sources; num_alive = 0; next_source = c.next_source })

      go : (k : ℕ) → (ran l c).1.num_sources ≡ k → Moved l c (lookup_dispatch l c)
      go (suc k) e = subst (Moved l c) (sym (dispatch_on l c k e)) (
          omega (arith, loop.0, loop.1, store_lookup-count (timers n) (changed l c) c.lookup_table))
      go zero e =
          let gone = record (changed l c) { results = [] } in
          let d = drop_lookup l.id (emptied l c) in
          let failed = fail_results-timers l.results in
          subst (Moved l c) (sym (dispatch_out l c e)) (
            omega (
              arith,
              loop.0,
              loop.1,
              store_lookup-count (timers n) (changed l c) c.lookup_table,
              store_lookup-count (timers n) gone (stored l c).lookup_table,
              at_lookup_found (timers n) l.id (changed l c) (stored l c).lookup_table
                  (find-store_lookup (changed l c) c.lookup_table),
              drop_lookup-count (timers n) (timers-IsTally n positive) l.id (emptied l c),
              drop_lookup-added n l.id (emptied l c),
              ended-append (timers n) (ran l c).2 (fail_results l.results ++ d.1),
              ended-append (timers n) (fail_results l.results) d.1,
              ended-append (additions n) (ran l c).2 (fail_results l.results ++ d.1),
              ended-append (additions n) (fail_results l.results) d.1,
              failed.0,
              failed.1,
            ))

  pub in_queries-insert_query :
      (q : DhtQuery) (qs : List DhtQuery)
      → in_queries n (insert_query q qs) ≡ same_source n q.timeout_source + in_queries n qs
  unfolding in_queries insert_query
  in_queries-insert_query q [] = refl
  in_queries-insert_query q (r ∷ rs) = ground (arith, in_queries-insert_query q rs)

  add_query-timers :
      (node : MsgNode) (l : DhtLookup)
      → in_queries n (add_query node l).queries ≡ in_queries n l.queries
  add_query-timers node l = elim (Option-cases (find_query node.addr l.queries)) [
    | inl e ↦
        let none_held : same_source n 0 ≡ 0 = ground arith in
        unfold add_query new_query in
        rw (add_query, e)
          (omega (arith, in_queries-insert_query (new_query l.id node) l.queries, none_held))
    | inr (q, e) ↦ unfold add_query in rw (add_query, e) refl
  ]

  scan_nodes-timers :
      (own : DhtId) (nodes : List MsgNode) (l : DhtLookup)
      → in_queries n (scan_nodes own nodes l).0.queries ≡ in_queries n l.queries
  unfolding scan_nodes
  scan_nodes-timers own [] l = refl
  scan_nodes-timers own (node ∷ nodes) l = ground (
    arith,
    scan_nodes-timers own nodes (if id_equal node.id own then l else add_query node l),
    add_query-timers node l,
  )

  module _ (randombytes : ℕ → DhtKey) where
    request_connection-Balanced :
        (id : DhtId) (addr : DhtAddress) (r : ℕ) (c : Client)
        → Balanced n 0 c (request_connection randombytes id addr r c)
    unfolding request_connection ended
    request_connection-Balanced id addr r c =
        let nonce = randombytes c.next_random in
        let sockaddr = address_deserialize addr in
        let connection : DhtConnection = record {
          id = id;
          nonce = nonce;
          is_remote = false;
          timeout_source = c.next_source;
          socket = none;
          sockaddr = some sockaddr;
          result = some r;
          enc_key = [];
          dec_key = [];
          auth_tag = [];
        } in
        let c1 : Client = record c {
          next_source = c.next_source + 1;
          next_random = c.next_random + 1;
        } in
        let request = connection1_bytes (record { pubkey = c.pubkey; nonce = nonce }) in
        let p = replace_connection connection c1 in
        omega (
          arith,
          replace_connection-count (timers n) (timers-IsTally n positive) connection c1,
          replace_connection-added n connection c1,
          ended-append (timers n) p.1 (send sockaddr request ∷ []),
          ended-append (additions n) p.1 (send sockaddr request ∷ []),
        )

    request_connections-Balanced :
        (id : DhtId) (addr : DhtAddress) (rs : List ℕ) (c : Client)
        → Balanced n 0 c (request_connections randombytes id addr rs c)
    unfolding request_connections ended
    request_connections-Balanced id addr [] c = omega arith
    request_connections-Balanced id addr (r ∷ rs) c =
        let p = request_connection randombytes id addr r c in
        let p' = request_connections randombytes id addr rs p.0 in
        omega (
          arith,
          ended-append (timers n) p.1 p'.1,
          ended-append (additions n) p.1 p'.1,
          request_connection-Balanced id addr r c,
          request_connections-Balanced id addr rs p.0,
        )

    update_scanned-Moved :
        (l : DhtLookup) (target : Option MsgNode) (c : Client)
        → Moved l c (update_scanned randombytes l target c)
    unfolding update_scanned
    update_scanned-Moved l none c = lookup_dispatch-Moved l c
    update_scanned-Moved l (some node) c =
        let p = request_connections randombytes l.id node.addr l.results c in
        let gone = record l { results = [] } in
        let c2 : Client = record p.0 { lookup_table = store_lookup gone p.0.lookup_table } in
        let d = drop_lookup l.id c2 in
        let asked = request_connections-count 0 randombytes l.id node.addr l.results c in
        omega (
          arith,
          request_connections-Balanced l.id node.addr l.results c,
          ap (at_lookup (timers n) l.id) asked.1,
          store_lookup-count (timers n) gone p.0.lookup_table,
          drop_lookup-count (timers n) (timers-IsTally n positive) l.id c2,
          drop_lookup-added n l.id c2,
          ended-append (timers n) p.1 d.1,
          ended-append (additions n) p.1 d.1,
        )

    pub lookup_update-Moved :
        (l : DhtLookup) (nodes : List MsgNode) (c : Client)
        → Moved l c (lookup_update randombytes l nodes c)
    unfolding lookup_update
    lookup_update-Moved l nodes c =
        let t = scan_nodes c.id nodes l in
        let same = scan_nodes-results 0 randombytes c.id nodes l in
        omega (
          arith,
          update_scanned-Moved t.0 t.1 c,
          scan_nodes-timers c.id nodes l,
          ap (λ id. at_lookup (timers n) id c.lookup_table) same.1,
        )
