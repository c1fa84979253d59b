-- ===== src/Client/Pending/Datagrams.antt =====
-- `dht_client_receive_cb` leaves a client with pending lookups.
use nanotalk.Base.{
  ℕ, ◌≡◌, refl, sym, subst, inl, inr, true, ◌==◌, Option, List, length, get_or, Bool-cases,
  Option-cases, if_both,
}
use nanotalk.Common.{Bytes, DhtKey, SocketAddress, Sodium, id_equal, address_serialize}
use nanotalk.Bucket.{update}
use nanotalk.Message.{
  MsgLookup, read_lookup, read_connection1, read_connection2, read_connection3, response_count,
  response_size, msg_lookup_req, msg_lookup_res, msg_connection_req, msg_connection_res,
  lookup_size, connection1_size, connection2_size, connection3_size,
}
use nanotalk.Client.{Client, Effect, find_lookup}
use nanotalk.Client.Lookup.{find_query}
use nanotalk.Client.Connection.{connection_request, connection_response, connection_confirm}
use nanotalk.Client.Receive.{lookup_request, lookup_response, answer_query, receive}
use nanotalk.Client.Tables.{find_lookup-All}
use nanotalk.Client.Pending.{IsPending, IsGoing}
use nanotalk.Client.Pending.Queries.{answer_query-IsCounted}
use nanotalk.Client.Pending.Dispatch.{IsGoingBut, but, lookup_update-IsGoing}
use nanotalk.Client.Pending.Handlers.{
  Keeps-IsGoing, connection_confirm-Keeps, lookup_request-Keeps, connection_response-Keeps,
  connection_request-Keeps,
}

module _ (s : Sodium) (randombytes : ℕ → DhtKey) where
  lookup_response-IsGoing :
      (now : ℕ) (sockaddr : SocketAddress) (msg : MsgLookup) (c : Client)
      → IsGoing c
      → IsGoing (lookup_response randombytes now sockaddr msg c).0
  lookup_response-IsGoing now sockaddr msg c h =
      let addr = address_serialize sockaddr in
      let c1 : Client = record c { table = update now msg.srcid addr true c.table } in
      elim (Bool-cases (id_equal msg.srcid c.id)) [
        | inl e ↦ unfold lookup_response in rw (lookup_response, e) h
        | inr own ↦ elim (Option-cases (find_lookup msg.dstid c.lookup_table)) [
          | inl e ↦ unfold lookup_response in rw (lookup_response, own, e) h
          | inr (l, e) ↦ elim (Option-cases (find_query addr l.queries)) [
            | inl e' ↦ unfold lookup_response in rw (lookup_response, own, e, e') h
            | inr (q, e') ↦
                let p = find_lookup-All IsPending msg.dstid l c.lookup_table h.0 e in
                let l' = answer_query msg.srcid q l in
                let same : l'.id ≡ l.id = unfold answer_query in refl in
                unfold lookup_response in
                rw (lookup_response, own, e, e')
                  (lookup_update-IsGoing randombytes l' msg.nodes c1
                    (answer_query-IsCounted msg.srcid addr q l p e')
                    (subst (λ id. IsGoingBut id c1) (sym same) (but l.id c h)))
          ]
        ]
      ]

  pub receive-IsGoing :
      (now : ℕ) (sockaddr : SocketAddress) (buffer : Bytes) (socket : Option ℕ) (c : Client)
      → IsGoing c
      → IsGoing (receive randombytes s now sockaddr buffer socket c).0
  receive-IsGoing now sockaddr buffer socket c h =
      let len = length buffer in
      let code = get_or buffer 0 0 in
      let count = response_count len in
      let P = λ (p : Client × List Effect). IsGoing p.0 in
      unfold receive in
      if_both P (code == msg_lookup_req) _ _
        (if_both P (len == lookup_size) _ _
          (Keeps-IsGoing c (lookup_request now sockaddr (read_lookup code 0 buffer) c)
            (lookup_request-Keeps now sockaddr (read_lookup code 0 buffer) c) h)
          h)
        (if_both P (code == msg_lookup_res) _ _
          (if_both P (len == response_size count) _ _
            (lookup_response-IsGoing now sockaddr (read_lookup code count buffer) c h) h)
          (if_both P (code == msg_connection_req) _ _
            (if_both P (len == connection1_size) _ _
              (Keeps-IsGoing c
                (connection_request s randombytes sockaddr (read_connection1 buffer) socket c)
                (connection_request-Keeps s randombytes sockaddr (read_connection1 buffer) socket c)
                h)
              h)
            (if_both P (code == msg_connection_res) _ _
              (if_both P (len == connection2_size) _ _
                (Keeps-IsGoing c (connection_response s sockaddr (read_connection2 buffer) socket c)
                  (connection_response-Keeps s sockaddr (read_connection2 buffer) socket c) h)
                (if_both P (len == connection3_size) _ _
                  (Keeps-IsGoing c (connection_confirm sockaddr (read_connection3 buffer) c)
                    (connection_confirm-Keeps sockaddr (read_connection3 buffer) c) h)
                  h))
              h)))
