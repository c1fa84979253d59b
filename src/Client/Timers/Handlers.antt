-- ===== src/Client/Timers/Handlers.antt =====
-- The timers of a client through the calls of the program's other parts and the callbacks of the main
-- loop. A callback that runs returns G_SOURCE_REMOVE: its own source is gone.
use nanotalk.Base.{
  ℕ, ◌+◌, ◌≡◌, ◌<◌, refl, sym, ap, subst, inl, inr, true, false, Option, none, some, List, [], ◌∷◌,
  Bool-cases, Option-cases, arith,
}
use nanotalk.Common.{
  Bytes, DhtId, DhtKey, DhtAddress, SocketAddress, id_equal, id_xor, address_serialize,
}
use nanotalk.Bucket.{update, dec_uint}
use nanotalk.Search.{MsgNode, search_nodes}
use nanotalk.Client.{
  DhtQuery, DhtLookup, Client, find_lookup, store_lookup, find_connection, replace_lookup,
  close_socket,
}
use nanotalk.Client.Tables.{find_lookup-id, find-store_lookup}
use nanotalk.Client.Lookup.{
  bootstrap, lookup_async, start_lookup, refresh, refresh_id, query_timeout, modify_query,
  empty_lookup, find_query, zero_id,
}
use nanotalk.Client.Connection.{connection_timeout, time_out_result}
use nanotalk.Client.Connection.Timeout.{connection_timeout_lem}
use nanotalk.Client.Tally.{
  ended, ended-append, at_lookup, at_lookup_missing, at_lookup_found, at_connection_found,
  store_lookup-count, remove_connection-count, replace_lookup-count,
}
use nanotalk.Client.Timers.{
  same_source, in_queries, timers, additions, removed, added, Balanced, timers-IsTally,
  replace_lookup-added, close_socket-removed, close_socket-added,
}
use nanotalk.Client.Timers.Lookups.{Moved, lookup_dispatch-Moved, lookup_update-Moved}

module _ (n : ℕ) (positive : 0 < n) (randombytes : ℕ → DhtKey) where
  start_lookup-Moved :
      (now : ℕ) (l : DhtLookup) (c : Client)
      → Moved n positive l c (start_lookup randombytes now l c)
  unfolding start_lookup
  start_lookup-Moved now l c =
      let t = search_nodes now l.id c.table in
      lookup_update-Moved n positive randombytes l t.1 (record c { table = t.0 })

  pub bootstrap-Balanced :
      (address : SocketAddress) (c : Client) → Balanced n 0 c (bootstrap randombytes address c)
  unfolding bootstrap in_queries
  bootstrap-Balanced address c =
      let node : MsgNode = record { id = zero_id; addr = address_serialize address } in
      elim (Option-cases (find_lookup c.id c.lookup_table)) [
        | inl e ↦
            let l = empty_lookup c.id [] in
            let c1 : Client = record c { lookup_table = store_lookup l c.lookup_table } in
            rw (bootstrap, e)
              (omega (
                arith,
                lookup_update-Moved n positive randombytes l (node ∷ []) c1,
                store_lookup-count (timers n) l c.lookup_table,
                at_lookup_missing (timers n) c.id c.lookup_table e,
                at_lookup_found (timers n) c.id l c1.lookup_table
                    (find-store_lookup l c.lookup_table),
              ))
        | inr (l, e) ↦
            rw (bootstrap, e)
              (omega (
                arith,
                lookup_update-Moved n positive randombytes l (node ∷ []) c,
                ap (λ id. at_lookup (timers n) id c.lookup_table)
                    (find_lookup-id c.id l c.lookup_table e),
                at_lookup_found (timers n) c.id l c.lookup_table e,
              ))
      ]

  pub lookup_async-Balanced :
      (now : ℕ) (id : DhtId) (q : ℕ) (c : Client)
      → Balanced n 0 c (lookup_async randombytes now id q c)
  unfolding lookup_async in_queries
  lookup_async-Balanced now id q c = elim (Bool-cases (id_equal id c.id)) [
    | inl e ↦ rw (lookup_async, e) (unfold ended in omega arith)
    | inr own ↦ elim (Option-cases (find_lookup id c.lookup_table)) [
      | inl e ↦
          let l = empty_lookup id (q ∷ []) in
          let c1 : Client = record c { lookup_table = store_lookup l c.lookup_table } in
          rw (lookup_async, own, e)
            (omega (
              arith,
              start_lookup-Moved now l c1,
              store_lookup-count (timers n) l c.lookup_table,
              at_lookup_missing (timers n) id c.lookup_table e,
              at_lookup_found (timers n) id l c1.lookup_table (find-store_lookup l c.lookup_table),
            ))
      | inr (l, e) ↦
          let l' : DhtLookup = record l { results = q ∷ l.results } in
          rw (lookup_async, own, e)
            (unfold ended in
              omega (
                arith,
                store_lookup-count (timers n) l' c.lookup_table,
                ap (λ id'. at_lookup (timers n) id' c.lookup_table)
                    (find_lookup-id id l c.lookup_table e),
                at_lookup_found (timers n) id l c.lookup_table e,
              ))
    ]
  ]

  pub refresh-Balanced :
      (now nbits : ℕ) (random : Bytes) (c : Client)
      → Balanced n 0 c (refresh randombytes now nbits random c)
  unfolding refresh replace_lookup in_queries
  refresh-Balanced now nbits random c =
      let l = empty_lookup (refresh_id nbits c.id random) [] in
      let p = replace_lookup l c in
      let p' = start_lookup randombytes now l p.0 in
      omega (
        arith,
        replace_lookup-count (timers n) (timers-IsTally n positive) l c,
        replace_lookup-added n l c,
        start_lookup-Moved now l p.0,
        at_lookup_found (timers n) l.id l p.0.lookup_table (find-store_lookup l c.lookup_table),
        ended-append (timers n) p.1 p'.1,
        ended-append (additions n) p.1 p'.1,
      )

-- The source of the query that a timer is about, and of the connection.
abbrev pub query_source : ℕ → DhtId → DhtAddress → Client → ℕ
query_source n id addr c = elim (find_lookup id c.lookup_table) [
  | none ↦ 0
  | some l ↦ elim (find_query addr l.queries) [ none ↦ 0 | some q ↦ same_source n q.timeout_source ]
]

abbrev pub connection_source : ℕ → DhtKey → Client → ℕ
connection_source n nonce c = elim (find_connection nonce c.connection_table) [
  | none ↦ 0
  | some x ↦ same_source n x.timeout_source
]

module _ (n : ℕ) (positive : 0 < n) where
  in_queries-modify_query :
      (f : DhtQuery → DhtQuery) (addr : DhtAddress) (q : DhtQuery) (qs : List DhtQuery)
      → ((x : DhtQuery) → same_source n (f x).timeout_source ≡ 0)
      → find_query addr qs ≡ some q
      → in_queries n (modify_query f addr qs) + same_source n q.timeout_source ≡ in_queries n qs
  unfolding in_queries find_query modify_query
  in_queries-modify_query f addr q [] done e = absurd (ground arith)
  in_queries-modify_query f addr q (r ∷ rs) done e =
      ground (arith, done r, in_queries-modify_query f addr q rs done)

  pub query_timeout-Balanced :
      (now : ℕ) (id : DhtId) (addr : DhtAddress) (c : Client)
      → Balanced n (query_source n id addr c) c (query_timeout now id addr c)
  query_timeout-Balanced now id addr c = elim (Option-cases (find_lookup id c.lookup_table)) [
    | inl e ↦
        let none_fired : query_source n id addr c ≡ 0 = rw (query_source, e) refl in
        unfold query_timeout ended in rw (query_timeout, e) (omega (arith, none_fired))
    | inr (l, e) ↦ elim (Option-cases (find_query addr l.queries)) [
      | inl e' ↦
          let none_fired : query_source n id addr c ≡ 0 = rw (query_source, e, e') refl in
          unfold query_timeout ended in rw (query_timeout, e, e') (omega (arith, none_fired))
      | inr (q, e') ↦
          let done = λ (q' : DhtQuery). record q' { is_finished = true; timeout_source = 0 } in
          let none_held : same_source n 0 ≡ 0 = ground arith in
          let fired : query_source n id addr c ≡ same_source n q.timeout_source =
            rw (query_source, e, e') refl in
          let l' : DhtLookup = record l {
            queries = modify_query done addr l.queries;
            num_sources = dec_uint l.num_sources;
          } in
          let c1 : Client = record c {
            table = update now (id_xor q.metric l.id) q.addr false c.table;
          } in
          unfold query_timeout in
          rw (query_timeout, e, e')
            (omega (
              arith,
              fired,
              lookup_dispatch-Moved n positive l' c1,
              in_queries-modify_query done addr q l.queries (λ x. none_held) e',
              ap (λ id'. at_lookup (timers n) id' c.lookup_table)
                  (find_lookup-id id l c.lookup_table e),
              at_lookup_found (timers n) id l c.lookup_table e,
            ))
    ]
  ]

  time_out_result-timers :
      (o : Option ℕ) → (removed n (time_out_result o) ≡ 0) × (added n (time_out_result o) ≡ 0)
  time_out_result-timers none = unfold ended in (refl, refl)
  time_out_result-timers (some q) = unfold ended in (refl, refl)

  pub connection_timeout-Balanced :
      (nonce : DhtKey) (c : Client)
      → Balanced n (connection_source n nonce c) c (connection_timeout nonce c)
  connection_timeout-Balanced nonce c =
      elim (Option-cases (find_connection nonce c.connection_table)) [
        | inl e ↦
            let none_fired : connection_source n nonce c ≡ 0 = rw (connection_source, e) refl in
            unfold connection_timeout ended in
            rw (connection_timeout, e) (omega (arith, none_fired))
        | inr (x, e) ↦
            let silent = time_out_result-timers x.result in
            let fired : connection_source n nonce c ≡ same_source n x.timeout_source =
              rw (connection_source, e) refl in
            subst (Balanced n (connection_source n nonce c) c)
              (sym (connection_timeout_lem nonce x c e))
              (omega (
                arith,
                fired,
                remove_connection-count (timers n) nonce c.connection_table,
                at_connection_found (timers n) nonce x c.connection_table e,
                ended-append (timers n) (time_out_result x.result) (close_socket x.socket),
                ended-append (additions n) (time_out_result x.result) (close_socket x.socket),
                silent.0,
                silent.1,
                close_socket-removed n positive x.socket,
                close_socket-added n x.socket,
              ))
      ]
