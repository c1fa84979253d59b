-- ===== src/Client/Timers/Receive.antt =====
-- The timers of a client through `dht_client_receive_cb`.
use nanotalk.Base.{
  ℕ, ◌+◌, ◌≡◌, ◌<◌, refl, ap, ◌∙◌, inl, inr, true, not, ◌||◌, Option, none, some, List, [], ◌∷◌,
  ◌==◌, length, get_or, Bool-cases, if_both, Option-cases, arith,
}
use nanotalk.Common.{
  Bytes, DhtId, DhtKey, SocketAddress, Sodium, id_equal, address_serialize, key_derive,
  key_make_shared, id_from_pubkey,
}
use nanotalk.Bucket.{update}
use nanotalk.Message.{
  MsgLookup, MsgConnection1, MsgConnection2, connection2_bytes, read_lookup, read_connection1,
  read_connection2, read_connection3, response_count, response_size, msg_lookup_req, msg_lookup_res,
  msg_connection_req, msg_connection_res, lookup_size, connection1_size, connection2_size,
  connection3_size,
}
use nanotalk.Client.{
  DhtConnection, Client, Effect, send_from, find_lookup, replace_connection, stop_source,
}
use nanotalk.Client.Tables.{find_lookup-id}
use nanotalk.Client.Lookup.{find_query, lookup_update}
use nanotalk.Client.Connection.{accept_request, connection_request}
use nanotalk.Client.Receive.{lookup_response, answer_query, receive}
use nanotalk.Client.Tally.{
  ended, ended-append, at_lookup, at_lookup_found, replace_connection-count,
}
use nanotalk.Client.Timers.{
  timers, additions, Balanced, timers-IsTally, stop_source-removed, stop_source-added,
  replace_connection-added,
}
use nanotalk.Client.Timers.Datagrams.{
  answer_query-timers, lookup_request-Balanced, connection_confirm-Balanced,
  connection_response-Balanced,
}
use nanotalk.Client.Timers.Lookups.{lookup_update-Moved}

module _ (n : ℕ) (positive : 0 < n) (s : Sodium) (randombytes : ℕ → DhtKey) where
  accept_request-Balanced :
      (sockaddr : SocketAddress) (msg : MsgConnection1) (id : DhtId) (shared : DhtKey) (socket : ℕ)
      (c : Client)
      → Balanced n 0 c (accept_request s randombytes sockaddr msg id shared socket c)
  accept_request-Balanced sockaddr msg id shared socket c =
      let nonce = randombytes c.next_random in
      let enc = key_derive s shared nonce msg.nonce in
      let dec = key_derive s shared msg.nonce nonce in
      let connection : DhtConnection = record {
        id = id;
        nonce = nonce;
        is_remote = true;
        timeout_source = c.next_source;
        socket = some socket;
        sockaddr = none;
        result = none;
        enc_key = enc.0;
        dec_key = dec.0;
        auth_tag = dec.1;
      } in
      let c1 : Client = record c {
        next_source = c.next_source + 1;
        next_random = c.next_random + 1;
      } in
      let response : MsgConnection2 = record {
        pubkey = c.pubkey;
        nonce = nonce;
        peer_nonce = msg.nonce;
        auth_tag = enc.1;
      } in
      let sent : List Effect =
        send_from (some socket) (some sockaddr) (connection2_bytes response) ∷ [] in
      let p = replace_connection connection c1 in
      unfold accept_request replace_connection ended in
      omega (
        arith,
        replace_connection-count (timers n) (timers-IsTally n positive) connection c1,
        replace_connection-added n connection c1,
        ended-append (timers n) p.1 sent,
        ended-append (additions n) p.1 sent,
      )

  connection_request-Balanced :
      (sockaddr : SocketAddress) (msg : MsgConnection1) (socket : Option ℕ) (c : Client)
      → Balanced n 0 c (connection_request s randombytes sockaddr msg socket c)
  connection_request-Balanced sockaddr msg socket c =
      let id = id_from_pubkey s msg.pubkey in
      elim (Bool-cases (id_equal id c.id || not c.listen)) [
        | inl e ↦ unfold connection_request ended in rw (connection_request, e) (omega arith)
        | inr e ↦ elim (Option-cases (key_make_shared s c.privkey msg.pubkey)) [
          | inl k ↦ unfold connection_request ended in rw (connection_request, e, k) (omega arith)
          | inr (shared, k) ↦ elim (Option-cases socket) [
            | inl closed ↦
                unfold connection_request ended in
                rw (connection_request, e, k, closed) (omega arith)
            | inr (m, opened) ↦
                unfold connection_request in
                rw (connection_request, e, k, opened)
                  (accept_request-Balanced sockaddr msg id shared m c)
          ]
        ]
      ]

  lookup_response-Balanced :
      (now : ℕ) (sockaddr : SocketAddress) (msg : MsgLookup) (c : Client)
      → Balanced n 0 c (lookup_response randombytes now sockaddr msg c)
  lookup_response-Balanced now sockaddr msg c =
      let addr = address_serialize sockaddr in
      let c1 : Client = record c { table = update now msg.srcid addr true c.table } in
      elim (Bool-cases (id_equal msg.srcid c.id)) [
        | inl e ↦ unfold lookup_response ended in rw (lookup_response, e) (omega arith)
        | inr own ↦ elim (Option-cases (find_lookup msg.dstid c.lookup_table)) [
          | inl e ↦ unfold lookup_response ended in rw (lookup_response, own, e) (omega arith)
          | inr (l, e) ↦ elim (Option-cases (find_query addr l.queries)) [
            | inl e' ↦
                unfold lookup_response ended in rw (lookup_response, own, e, e') (omega arith)
            | inr (q, e') ↦
                let l' = answer_query msg.srcid q l in
                let same : l'.id ≡ l.id = unfold answer_query in refl in
                let p = lookup_update randombytes l' msg.nodes c1 in
                let moved = lookup_update-Moved n positive randombytes l' msg.nodes c1 in
                unfold lookup_response in
                rw (lookup_response, own, e, e')
                  (omega (
                    arith,
                    moved,
                    answer_query-timers n positive msg.srcid addr q l e',
                    ap (λ id. at_lookup (timers n) id c.lookup_table)
                        (same ∙ find_lookup-id msg.dstid l c.lookup_table e),
                    at_lookup_found (timers n) msg.dstid l c.lookup_table e,
                    ended-append (timers n) (stop_source q.timeout_source) p.1,
                    ended-append (additions n) (stop_source q.timeout_source) p.1,
                    stop_source-removed n positive q.timeout_source,
                    stop_source-added n q.timeout_source,
                  ))
          ]
        ]
      ]

  pub receive-Balanced :
      (now : ℕ) (sockaddr : SocketAddress) (buffer : Bytes) (socket : Option ℕ) (c : Client)
      → Balanced n 0 c (receive randombytes s now sockaddr buffer socket c)
  receive-Balanced now sockaddr buffer socket c =
      let len = length buffer in
      let code = get_or buffer 0 0 in
      let count = response_count len in
      let ignored : Balanced n 0 c (c, []) = unfold ended in omega arith in
      let P = Balanced n 0 c in
      unfold receive in
      if_both P (code == msg_lookup_req) _ _
        (if_both P (len == lookup_size) _ _
          (lookup_request-Balanced n positive now sockaddr (read_lookup code 0 buffer) c) ignored)
        (if_both P (code == msg_lookup_res) _ _
          (if_both P (len == response_size count) _ _
            (lookup_response-Balanced now sockaddr (read_lookup code count buffer) c) ignored)
          (if_both P (code == msg_connection_req) _ _
            (if_both P (len == connection1_size) _ _
              (connection_request-Balanced sockaddr (read_connection1 buffer) socket c) ignored)
            (if_both P (code == msg_connection_res) _ _
              (if_both P (len == connection2_size) _ _
                (connection_response-Balanced n positive s sockaddr (read_connection2 buffer) socket
                  c)
                (if_both P (len == connection3_size) _ _
                  (connection_confirm-Balanced n positive sockaddr (read_connection3 buffer) c)
                  ignored))
              ignored)))
