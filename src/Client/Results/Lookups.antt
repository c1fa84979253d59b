-- ===== src/Client/Results/Lookups.antt =====
-- No call gets lost in a lookup: `dht_lookup_dispatch` and `dht_lookup_update`.
use nanotalk.Base.{
  ℕ, zero, suc, ◌+◌, ◌≡◌, refl, sym, ap, ◌∙◌, subst, inl, inr, false, ◌&&◌, Option, none, some,
  List, [], ◌∷◌, ◌++◌, ◌==◌, ltb, if◌then◌else◌, count, Bool-cases, Option-cases, arith,
}
use nanotalk.Common.{DhtId, DhtKey, DhtAddress, id_equal, address_deserialize}
use nanotalk.Bucket.{node_count}
use nanotalk.Search.{MsgNode}
use nanotalk.Message.{connection1_bytes}
use nanotalk.Client.{
  replace_connection, send, DhtConnection, DhtQuery, DhtLookup, Client, store_lookup, drop_lookup,
}
use nanotalk.Client.Tables.{find-store_lookup}
use nanotalk.Client.Lookup.{
  Dispatch, dispatch_query, dispatch_loop, concurrency, fail_results, lookup_dispatch,
  request_connection, request_connections, add_query, find_query, scan_nodes, update_scanned,
  lookup_update,
}
use nanotalk.Client.Sources.Loop.{dispatch_go, dispatch_stop, counted}
use nanotalk.Client.Sources.{dispatch_on, dispatch_out, ran, changed, stored, emptied}
use nanotalk.Client.Tally.{
  held, ended, ended-append, whereabouts, at_lookup, at_lookup_found, store_lookup-count,
  drop_lookup-count, replace_connection-count,
}
use nanotalk.Client.Results.{calls, calls-IsTally}

module _ (r : ℕ) where
  dispatch_query-ended :
      (own id : DhtId) (q : DhtQuery) (d : Dispatch)
      → ended (calls r) (dispatch_query own id q d).2 ≡ 0
  unfolding dispatch_query ended
  dispatch_query-ended own id q d = ground arith

  dispatch_loop-ended :
      (own id : DhtId) (qs : List DhtQuery) (d : Dispatch)
      → ended (calls r) (dispatch_loop own id qs d).2 ≡ 0
  dispatch_loop-ended own id [] d = unfold dispatch_loop ended in refl
  dispatch_loop-ended own id (q ∷ qs) d =
      elim (Bool-cases (ltb d.num_sources concurrency && ltb d.num_alive node_count)) [
        | inl e ↦
            let t = dispatch_query own id q d in
            let rest = dispatch_loop own id qs (counted t.0 t.1) in
            subst (λ p. ended (calls r) p.2 ≡ 0) (sym (dispatch_go own id q qs d e))
              (omega (
                arith,
                ended-append (calls r) t.2 rest.2,
                dispatch_query-ended own id q d,
                dispatch_loop-ended own id qs (counted t.0 t.1),
              ))
        | inr e ↦
            subst (λ p. ended (calls r) p.2 ≡ 0) (sym (dispatch_stop own id q qs d e))
              (unfold ended in refl)
      ]

  fail_results-ended : (rs : List ℕ) → ended (calls r) (fail_results rs) ≡ count r rs
  unfolding ended fail_results count
  fail_results-ended [] = refl
  fail_results-ended (q ∷ rs) = omega (arith, fail_results-ended rs)

  pub lookup_dispatch-count :
      (l : DhtLookup) (c : Client)
      → whereabouts (calls r) (lookup_dispatch l c) + at_lookup (calls r) l.id c.lookup_table
        ≡ held (calls r) c + count r l.results
  unfolding count
  lookup_dispatch-count l c = go (ran l c).1.num_sources refl
    where
      quiet : ended (calls r) (ran l c).2 ≡ 0
      quiet =
          dispatch_loop-ended c.id l.id l.queries
            (record { num_sources = l.num_sources; num_alive = 0; next_source = c.next_source })

      go :
          (n : ℕ)
          → (ran l c).1.num_sources ≡ n
          → whereabouts (calls r) (lookup_dispatch l c) + at_lookup (calls r) l.id c.lookup_table
            ≡ held (calls r) c + count r l.results
      go (suc n) e =
          subst
            (λ p.
              whereabouts (calls r) p + at_lookup (calls r) l.id c.lookup_table
              ≡ held (calls r) c + count r l.results)
            (sym (dispatch_on l c n e))
            (omega (arith, quiet, store_lookup-count (calls r) (changed l c) c.lookup_table))
      go zero e =
          let gone = record (changed l c) { results = [] } in
          let d = drop_lookup l.id (emptied l c) in
          subst
            (λ p.
              whereabouts (calls r) p + at_lookup (calls r) l.id c.lookup_table
              ≡ held (calls r) c + count r l.results)
            (sym (dispatch_out l c e))
            (omega (
              arith,
              quiet,
              store_lookup-count (calls r) (changed l c) c.lookup_table,
              store_lookup-count (calls r) gone (stored l c).lookup_table,
              at_lookup_found (calls r) l.id (changed l c) (stored l c).lookup_table
                  (find-store_lookup (changed l c) c.lookup_table),
              drop_lookup-count (calls r) (calls-IsTally r) l.id (emptied l c),
              ended-append (calls r) (ran l c).2 (fail_results l.results ++ d.1),
              ended-append (calls r) (fail_results l.results) d.1,
              fail_results-ended l.results,
            ))

module _ (r : ℕ) (randombytes : ℕ → DhtKey) where
  request_connection-count :
      (id : DhtId) (addr : DhtAddress) (q : ℕ) (c : Client)
      → let p = request_connection randombytes id addr q c in
        (whereabouts (calls r) p ≡ held (calls r) c + (if q == r then 1 else 0))
        × (p.0.lookup_table ≡ c.lookup_table)
  unfolding request_connection replace_connection ended
  request_connection-count id addr q c =
      let nonce = randombytes c.next_random in
      let sockaddr = address_deserialize addr in
      let connection : DhtConnection = record {
        id = id;
        nonce = nonce;
        is_remote = false;
        timeout_source = c.next_source;
        socket = none;
        sockaddr = some sockaddr;
        result = some q;
        enc_key = [];
        dec_key = [];
        auth_tag = [];
      } in
      let c1 : Client = record c {
        next_source = c.next_source + 1;
        next_random = c.next_random + 1;
      } in
      let request = connection1_bytes (record { pubkey = c.pubkey; nonce = nonce }) in
      (
        omega (
          arith,
          replace_connection-count (calls r) (calls-IsTally r) connection c1,
          ended-append (calls r) (replace_connection connection c1).1 (send sockaddr request ∷ []),
        ),
        refl,
      )

  pub request_connections-count :
      (id : DhtId) (addr : DhtAddress) (rs : List ℕ) (c : Client)
      → let p = request_connections randombytes id addr rs c in
        (whereabouts (calls r) p ≡ held (calls r) c + count r rs)
        × (p.0.lookup_table ≡ c.lookup_table)
  unfolding request_connections ended count
  request_connections-count id addr [] c = (omega arith, refl)
  request_connections-count id addr (q ∷ rs) c =
      let p = request_connection randombytes id addr q c in
      let p' = request_connections randombytes id addr rs p.0 in
      let one = request_connection-count id addr q c in
      let rest = request_connections-count id addr rs p.0 in
      (omega (arith, ended-append (calls r) p.1 p'.1, one.0, rest.0), rest.1 ∙ one.1)

  add_query-results :
      (node : MsgNode) (l : DhtLookup)
      → ((add_query node l).results ≡ l.results) × ((add_query node l).id ≡ l.id)
  unfolding add_query
  add_query-results node l = elim (Option-cases (find_query node.addr l.queries)) [
    | inl e ↦ (ground arith, ground arith)
    | inr (q, e) ↦ (ground arith, ground arith)
  ]

  pub scan_nodes-results :
      (own : DhtId) (nodes : List MsgNode) (l : DhtLookup)
      → let l' = (scan_nodes own nodes l).0 in (l'.results ≡ l.results) × (l'.id ≡ l.id)
  unfolding scan_nodes
  scan_nodes-results own [] l = (refl, refl)
  scan_nodes-results own (node ∷ nodes) l = ground (
    arith,
    scan_nodes-results own nodes (if id_equal node.id own then l else add_query node l),
    add_query-results node l,
  )

  update_scanned-count :
      (l : DhtLookup) (target : Option MsgNode) (c : Client)
      → whereabouts (calls r) (update_scanned randombytes l target c)
          + at_lookup (calls r) l.id c.lookup_table
        ≡ held (calls r) c + count r l.results
  unfolding update_scanned count
  update_scanned-count l none c = lookup_dispatch-count r l c
  update_scanned-count l (some node) c =
      let p = request_connections randombytes l.id node.addr l.results c in
      let gone = record l { results = [] } in
      let c2 : Client = record p.0 { lookup_table = store_lookup gone p.0.lookup_table } in
      let d = drop_lookup l.id c2 in
      let asked = request_connections-count l.id node.addr l.results c in
      omega (
        arith,
        asked.0,
        ap (at_lookup (calls r) l.id) asked.1,
        store_lookup-count (calls r) gone p.0.lookup_table,
        drop_lookup-count (calls r) (calls-IsTally r) l.id c2,
        ended-append (calls r) p.1 d.1,
      )

  pub lookup_update-count :
      (l : DhtLookup) (nodes : List MsgNode) (c : Client)
      → whereabouts (calls r) (lookup_update randombytes l nodes c)
          + at_lookup (calls r) l.id c.lookup_table
        ≡ held (calls r) c + count r l.results
  unfolding lookup_update
  lookup_update-count l nodes c =
      let t = scan_nodes c.id nodes l in
      let same = scan_nodes-results c.id nodes l in
      omega (
        arith,
        update_scanned-count t.0 t.1 c,
        ap (count r) same.0,
        ap (λ id. at_lookup (calls r) id c.lookup_table) same.1,
      )
