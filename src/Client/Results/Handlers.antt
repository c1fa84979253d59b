-- ===== src/Client/Results/Handlers.antt =====
-- No call gets lost in a handler: the calls of the program's other parts and the callbacks of the main
-- loop.
use nanotalk.Base.{
  ℕ, ◌+◌, ◌≡◌, refl, sym, ap, subst, inl, inr, true, false, Option, none, some, List, [], ◌∷◌, ◌==◌,
  if◌then◌else◌, count, Bool-cases, Option-cases, arith,
}
use nanotalk.Common.{
  Bytes, DhtId, DhtKey, DhtAddress, SocketAddress, id_equal, id_xor, address_serialize,
}
use nanotalk.Bucket.{update, dec_uint}
use nanotalk.Search.{MsgNode, search_nodes}
use nanotalk.Client.{
  DhtQuery, DhtLookup, Client, find_lookup, store_lookup, find_connection, replace_lookup,
  close_socket,
}
use nanotalk.Client.Tables.{find_lookup-id, find-store_lookup}
use nanotalk.Client.Lookup.{
  bootstrap, lookup_async, start_lookup, refresh, refresh_id, query_timeout, modify_query,
  empty_lookup, find_query, zero_id,
}
use nanotalk.Client.Connection.{connection_timeout, time_out_result}
use nanotalk.Client.Connection.Timeout.{connection_timeout_lem}
use nanotalk.Client.Tally.{
  held, ended, ended-append, whereabouts, at_lookup, at_lookup_missing, at_lookup_found,
  at_connection_found, store_lookup-count, remove_connection-count, replace_lookup-count,
}
use nanotalk.Client.Results.{in_option, close_socket-ended, calls, calls-IsTally}
use nanotalk.Client.Results.Lookups.{lookup_dispatch-count, lookup_update-count}

module _ (r : ℕ) (randombytes : ℕ → DhtKey) where
  start_lookup-count :
      (now : ℕ) (l : DhtLookup) (c : Client)
      → whereabouts (calls r) (start_lookup randombytes now l c)
          + at_lookup (calls r) l.id c.lookup_table
        ≡ held (calls r) c + count r l.results
  unfolding start_lookup
  start_lookup-count now l c =
      let t = search_nodes now l.id c.table in
      lookup_update-count r randombytes l t.1 (record c { table = t.0 })

  -- A lookup without a query enters the table, where none stands under its identifier.
  start-count :
      (now : ℕ) (id : DhtId) (rs : List ℕ) (c : Client)
      → let l = empty_lookup id rs in
        let c1 : Client = record c { lookup_table = store_lookup l c.lookup_table } in
        whereabouts (calls r) (start_lookup randombytes now l c1)
          + at_lookup (calls r) id c.lookup_table
        ≡ held (calls r) c + count r rs
  start-count now id rs c =
      let l = empty_lookup id rs in
      let c1 : Client = record c { lookup_table = store_lookup l c.lookup_table } in
      omega (
        arith,
        start_lookup-count now l c1,
        store_lookup-count (calls r) l c.lookup_table,
        at_lookup_found (calls r) id l c1.lookup_table (find-store_lookup l c.lookup_table),
      )

  pub bootstrap-count :
      (address : SocketAddress) (c : Client)
      → whereabouts (calls r) (bootstrap randombytes address c) ≡ held (calls r) c
  unfolding bootstrap count
  bootstrap-count address c =
      let node : MsgNode = record { id = zero_id; addr = address_serialize address } in
      elim (Option-cases (find_lookup c.id c.lookup_table)) [
        | inl e ↦
            let l = empty_lookup c.id [] in
            let c1 : Client = record c { lookup_table = store_lookup l c.lookup_table } in
            rw (bootstrap, e)
              (omega (
                arith,
                lookup_update-count r randombytes l (node ∷ []) c1,
                store_lookup-count (calls r) l c.lookup_table,
                at_lookup_missing (calls r) c.id c.lookup_table e,
                at_lookup_found (calls r) c.id l c1.lookup_table
                    (find-store_lookup l c.lookup_table),
              ))
        | inr (l, e) ↦
            rw (bootstrap, e)
              (omega (
                arith,
                lookup_update-count r randombytes l (node ∷ []) c,
                ap (λ id. at_lookup (calls r) id c.lookup_table)
                    (find_lookup-id c.id l c.lookup_table e),
                at_lookup_found (calls r) c.id l c.lookup_table e,
              ))
      ]

  pub lookup_async-count :
      (now : ℕ) (id : DhtId) (q : ℕ) (c : Client)
      → whereabouts (calls r) (lookup_async randombytes now id q c)
        ≡ held (calls r) c + (if q == r then 1 else 0)
  unfolding lookup_async count
  lookup_async-count now id q c = elim (Bool-cases (id_equal id c.id)) [
    | inl e ↦ rw (lookup_async, e) (unfold ended in omega arith)
    | inr own ↦ elim (Option-cases (find_lookup id c.lookup_table)) [
      | inl e ↦
          rw (lookup_async, own, e)
            (omega (
              arith,
              start-count now id (q ∷ []) c,
              at_lookup_missing (calls r) id c.lookup_table e,
            ))
      | inr (l, e) ↦
          let l' : DhtLookup = record l { results = q ∷ l.results } in
          rw (lookup_async, own, e)
            (unfold ended in
              omega (
                arith,
                store_lookup-count (calls r) l' c.lookup_table,
                ap (λ id'. at_lookup (calls r) id' c.lookup_table)
                    (find_lookup-id id l c.lookup_table e),
                at_lookup_found (calls r) id l c.lookup_table e,
              ))
    ]
  ]

  pub refresh-count :
      (now nbits : ℕ) (random : Bytes) (c : Client)
      → whereabouts (calls r) (refresh randombytes now nbits random c) ≡ held (calls r) c
  unfolding refresh replace_lookup count
  refresh-count now nbits random c =
      let l = empty_lookup (refresh_id nbits c.id random) [] in
      let p = replace_lookup l c in
      let p' = start_lookup randombytes now l p.0 in
      omega (
        arith,
        replace_lookup-count (calls r) (calls-IsTally r) l c,
        start_lookup-count now l p.0,
        at_lookup_found (calls r) l.id l p.0.lookup_table (find-store_lookup l c.lookup_table),
        ended-append (calls r) p.1 p'.1,
      )

module _ (r : ℕ) where
  pub query_timeout-count :
      (now : ℕ) (id : DhtId) (addr : DhtAddress) (c : Client)
      → whereabouts (calls r) (query_timeout now id addr c) ≡ held (calls r) c
  query_timeout-count now id addr c = elim (Option-cases (find_lookup id c.lookup_table)) [
    | inl e ↦ unfold query_timeout ended in rw (query_timeout, e) (omega arith)
    | inr (l, e) ↦ elim (Option-cases (find_query addr l.queries)) [
      | inl e' ↦ unfold query_timeout ended in rw (query_timeout, e, e') (omega arith)
      | inr (q, e') ↦
          let done = λ (q' : DhtQuery). record q' { is_finished = true; timeout_source = 0 } in
          let l' : DhtLookup = record l {
            queries = modify_query done addr l.queries;
            num_sources = dec_uint l.num_sources;
          } in
          let c1 : Client = record c {
            table = update now (id_xor q.metric l.id) q.addr false c.table;
          } in
          unfold query_timeout in
          rw (query_timeout, e, e')
            (omega (
              arith,
              lookup_dispatch-count r l' c1,
              ap (λ id'. at_lookup (calls r) id' c.lookup_table)
                  (find_lookup-id id l c.lookup_table e),
              at_lookup_found (calls r) id l c.lookup_table e,
            ))
    ]
  ]

  time_out_result-ended : (o : Option ℕ) → ended (calls r) (time_out_result o) ≡ in_option r o
  time_out_result-ended none = unfold ended in refl
  time_out_result-ended (some q) = unfold ended in omega arith

  pub connection_timeout-count :
      (nonce : DhtKey) (c : Client)
      → whereabouts (calls r) (connection_timeout nonce c) ≡ held (calls r) c
  connection_timeout-count nonce c =
      elim (Option-cases (find_connection nonce c.connection_table)) [
        | inl e ↦ unfold connection_timeout ended in rw (connection_timeout, e) (omega arith)
        | inr (x, e) ↦
            subst (λ p. whereabouts (calls r) p ≡ held (calls r) c)
              (sym (connection_timeout_lem nonce x c e))
              (omega (
                arith,
                remove_connection-count (calls r) nonce c.connection_table,
                at_connection_found (calls r) nonce x c.connection_table e,
                ended-append (calls r) (time_out_result x.result) (close_socket x.socket),
                time_out_result-ended x.result,
                close_socket-ended r x.socket,
              ))
      ]
