-- ===== src/Client/Timers/Datagrams.antt =====
-- The timers of a client through the cases of `dht_client_receive_cb` for single messages.
use nanotalk.Base.{
  ℕ, ◌+◌, ◌≡◌, ◌<◌, refl, ap, ◌∙◌, inl, inr, true, not, ◌||◌, Option, none, some, List, [], ◌∷◌,
  Bool-cases, if_both, Option-cases, arith,
}
use nanotalk.Common.{
  DhtId, DhtKey, DhtAddress, SocketAddress, Sodium, id_equal, id_xor, key_equal, key_derive,
  key_make_shared, id_from_pubkey,
}
use nanotalk.Message.{MsgLookup, MsgConnection2, MsgConnection3}
use nanotalk.Client.{
  DhtQuery, DhtLookup, DhtConnection, Client, find_connection, store_connection, destroy_connection,
}
use nanotalk.Client.Tables.{find_connection-nonce, find-store_connection}
use nanotalk.Client.Lookup.{find_query}
use nanotalk.Client.Connection.{
  finish_response, verify_response, connection_response, signal_connection, connection_confirm,
  complete_result,
}
use nanotalk.Client.Receive.{lookup_request, answer_query, settle_query, remove_query, store_query}
use nanotalk.Client.Tally.{
  held, ended, ended-append, whereabouts, at_connection, at_connection_found,
  store_connection-count, remove_connection-count,
}
use nanotalk.Client.Pending.Queries.{find_query-addr}
use nanotalk.Client.Timers.{
  same_source, in_queries, timers, additions, removed, added, Balanced, timers-IsTally,
  destroy_connection-added,
}
use nanotalk.Client.Timers.Lookups.{in_queries-insert_query}

module _ (n : ℕ) (positive : 0 < n) where
  in_queries-remove_query :
      (addr : DhtAddress) (q : DhtQuery) (qs : List DhtQuery)
      → find_query addr qs ≡ some q
      → in_queries n (remove_query addr qs) + same_source n q.timeout_source ≡ in_queries n qs
  unfolding in_queries find_query remove_query
  in_queries-remove_query addr q [] e = absurd (ground arith)
  in_queries-remove_query addr q (r ∷ rs) e = ground (arith, in_queries-remove_query addr q rs)

  in_queries-store_query :
      (q' q : DhtQuery) (qs : List DhtQuery)
      → same_source n q'.timeout_source ≡ 0
      → find_query q'.addr qs ≡ some q
      → in_queries n (store_query q' qs) + same_source n q.timeout_source ≡ in_queries n qs
  unfolding in_queries find_query store_query
  in_queries-store_query q' q [] done e = absurd (ground arith)
  in_queries-store_query q' q (r ∷ rs) done e =
      ground (arith, done, in_queries-store_query q' q rs done)

  -- The query that is answered gives up its timer.
  pub answer_query-timers :
      (srcid : DhtId) (addr : DhtAddress) (q : DhtQuery) (l : DhtLookup)
      → find_query addr l.queries ≡ some q
      → in_queries n (answer_query srcid q l).queries + same_source n q.timeout_source
        ≡ in_queries n l.queries
  answer_query-timers srcid addr q l e =
      let found : find_query q.addr l.queries ≡ some q =
        ap (λ a. find_query a l.queries) (find_query-addr addr q l.queries e) ∙ e in
      let none_held : same_source n 0 ≡ 0 = ground arith in
      let answered : DhtQuery = record q {
        is_finished = true;
        is_alive = true;
        timeout_source = 0;
      } in
      let metric = id_xor srcid l.id in
      let P = λ (qs : List DhtQuery).
        in_queries n qs + same_source n q.timeout_source ≡ in_queries n l.queries in
      unfold answer_query settle_query in
      if_both P (id_equal metric q.metric) _ _
        (in_queries-store_query answered q l.queries none_held found)
        (omega (
          arith,
          none_held,
          in_queries-insert_query n positive (record answered { metric = metric })
              (remove_query q.addr l.queries),
          in_queries-remove_query q.addr q l.queries found,
        ))

  pub lookup_request-Balanced :
      (now : ℕ) (sockaddr : SocketAddress) (msg : MsgLookup) (c : Client)
      → Balanced n 0 c (lookup_request now sockaddr msg c)
  lookup_request-Balanced now sockaddr msg c = unfold lookup_request ended in ground arith

  complete_result-timers :
      (o : Option ℕ) (x : DhtConnection)
      → (removed n (complete_result o x) ≡ 0) × (added n (complete_result o x) ≡ 0)
  complete_result-timers none x = unfold ended in (refl, refl)
  complete_result-timers (some q) x = unfold ended in (refl, refl)

  signal_connection-timers :
      (sockaddr : SocketAddress) (x : DhtConnection) (c : Client)
      → (removed n (signal_connection sockaddr x c) ≡ 0)
        × (added n (signal_connection sockaddr x c) ≡ 0)
  signal_connection-timers sockaddr x c = unfold ended in ground arith

  pub connection_confirm-Balanced :
      (sockaddr : SocketAddress) (msg : MsgConnection3) (c : Client)
      → Balanced n 0 c (connection_confirm sockaddr msg c)
  connection_confirm-Balanced sockaddr msg c =
      elim (Option-cases (find_connection msg.peer_nonce c.connection_table)) [
        | inl e ↦ unfold connection_confirm ended in rw (connection_confirm, e) (omega arith)
        | inr (x, e) ↦
            elim (Bool-cases (not x.is_remote || not (key_equal x.auth_tag msg.auth_tag))) [
              | inl e' ↦
                  unfold connection_confirm ended in rw (connection_confirm, e, e') (omega arith)
              | inr e' ↦
                  let signal = signal_connection-timers sockaddr x c in
                  let own = timers-IsTally n positive in
                  unfold connection_confirm in
                  rw (connection_confirm, e, e')
                    (omega (
                      arith,
                      remove_connection-count (timers n) x.nonce c.connection_table,
                      ap (λ k. at_connection (timers n) k c.connection_table)
                          (find_connection-nonce msg.peer_nonce x c.connection_table e),
                      at_connection_found (timers n) msg.peer_nonce x c.connection_table e,
                      ended-append (timers n) (signal_connection sockaddr x c)
                          (destroy_connection x),
                      ended-append (additions n) (signal_connection sockaddr x c)
                          (destroy_connection x),
                      signal.0,
                      signal.1,
                      own.connection_out x,
                      destroy_connection-added n x,
                    ))
            ]
      ]

  -- A connection of the table leaves it, and its timer is removed.
  finish_response-Moved :
      (sockaddr : SocketAddress) (msg : MsgConnection2) (tag : DhtKey) (x : DhtConnection)
      (c : Client)
      → let p = finish_response sockaddr msg tag x c in
        whereabouts (timers n) p + at_connection (timers n) x.nonce c.connection_table
        ≡ held (timers n) c + same_source n x.timeout_source + added n p.1
  finish_response-Moved sockaddr msg tag x c =
      let silent = complete_result-timers x.result x in
      unfold finish_response ended in
      omega
        (arith, remove_connection-count (timers n) x.nonce c.connection_table, silent.0, silent.1)

  -- A connection of the table keeps its timer.
  set_timers :
      (x y : DhtConnection) (c : Client)
      → find_connection x.nonce c.connection_table ≡ some y
      → x.timeout_source ≡ y.timeout_source
      → held (timers n) (record c { connection_table = store_connection x c.connection_table })
        ≡ held (timers n) c
  set_timers x y c e same = omega (
    arith,
    store_connection-count (timers n) x c.connection_table,
    at_connection_found (timers n) x.nonce y c.connection_table e,
    ap (same_source n) same,
  )

  module _ (s : Sodium) where
    verify_response-Balanced :
        (sockaddr : SocketAddress) (msg : MsgConnection2) (shared : DhtKey) (socket : Option ℕ)
        (x : DhtConnection) (c : Client)
        → find_connection x.nonce c.connection_table ≡ some x
        → Balanced n 0 c (verify_response s sockaddr msg shared socket x c)
    verify_response-Balanced sockaddr msg shared socket x c e =
        let enc = key_derive s shared x.nonce msg.nonce in
        let dec = key_derive s shared msg.nonce x.nonce in
        let x1 : DhtConnection = record x { enc_key = enc.0; dec_key = dec.0; auth_tag = dec.1 } in
        let c1 : Client = record c { connection_table = store_connection x1 c.connection_table } in
        let kept = set_timers x1 x c e refl in
        let found = find-store_connection x1 c.connection_table in
        elim (Bool-cases (key_equal dec.1 msg.auth_tag)) [
          | inl e' ↦ elim (Option-cases socket) [
            | inl closed ↦
                unfold verify_response ended in
                rw (verify_response, e', closed)
                  (omega (arith, kept, set_timers (record x1 { socket = none }) x1 c1 found refl))
            | inr (k, opened) ↦
                unfold verify_response in
                rw (verify_response, e', opened)
                  (omega (
                    arith,
                    kept,
                    finish_response-Moved sockaddr msg enc.1 (record x1 { socket = some k }) c1,
                    at_connection_found (timers n) x.nonce x1 c1.connection_table found,
                  ))
          ]
          | inr e' ↦ unfold verify_response ended in rw (verify_response, e') (omega (arith, kept))
        ]

    pub connection_response-Balanced :
        (sockaddr : SocketAddress) (msg : MsgConnection2) (socket : Option ℕ) (c : Client)
        → Balanced n 0 c (connection_response s sockaddr msg socket c)
    connection_response-Balanced sockaddr msg socket c =
        elim (Option-cases (find_connection msg.peer_nonce c.connection_table)) [
          | inl e ↦ unfold connection_response ended in rw (connection_response, e) (omega arith)
          | inr (x, e) ↦
              elim (Bool-cases (x.is_remote || not (id_equal x.id (id_from_pubkey s msg.pubkey)))) [
                | inl e' ↦
                    unfold connection_response ended in
                    rw (connection_response, e, e') (omega arith)
                | inr e' ↦ elim (Option-cases (key_make_shared s c.privkey msg.pubkey)) [
                  | inl k ↦
                      unfold connection_response ended in
                      rw (connection_response, e, e', k) (omega arith)
                  | inr (shared, k) ↦
                      unfold connection_response in
                      rw (connection_response, e, e', k)
                        (verify_response-Balanced sockaddr msg shared socket x c (
                          ap (λ i. find_connection i c.connection_table)
                            (find_connection-nonce msg.peer_nonce x c.connection_table e)
                          ∙ e))
                ]
              ]
        ]
