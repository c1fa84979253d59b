-- ===== src/Client/Receive.antt =====
-- `dht_client_receive_cb` of src/dht-client.c: what a client does with one datagram. `buffer`
-- is what `g_socket_receive_from` stores, `MSG_MTU` bytes at most; an error of it leaves no bytes.
use nanotalk.Base.{
  ℕ, true, Option, none, some, List, [], ◌∷◌, ◌++◌, ◌==◌, ltb, if◌then◌else◌, length, get_or,
}
use nanotalk.Common.{
  Bytes, DhtId, DhtKey, DhtAddress, SocketAddress, Sodium, id_xor, id_equal, address_equal,
  address_serialize,
}
use nanotalk.Bucket.{dec_uint, update}
use nanotalk.Search.{search_nodes}
use nanotalk.Message.{
  MsgLookup, msg_lookup_req, msg_lookup_res, msg_connection_req, msg_connection_res, lookup_size,
  connection1_size, connection2_size, connection3_size, lookup_bytes, read_lookup, response_count,
  response_size, read_connection1, read_connection2, read_connection3,
}
use nanotalk.Client.{DhtQuery, DhtLookup, Client, Effect, send, find_lookup, stop_source}
use nanotalk.Client.Lookup.{find_query, insert_query, lookup_update}
use nanotalk.Client.Connection.{connection_request, connection_response, connection_confirm}

-- `MSG_LOOKUP_REQ`: the sender enters the table, and is sent the nodes near the target.
unfoldable pub lookup_request : ℕ → SocketAddress → MsgLookup → Client → Client × List Effect
lookup_request now sockaddr msg c =
    if id_equal msg.srcid c.id
    then (c, [])
    else (let table = update now msg.srcid (address_serialize sockaddr) true c.table in
        let (table', nodes) = search_nodes now msg.dstid table in
        let response : MsgLookup = record {
          type = msg_lookup_res;
          srcid = c.id;
          dstid = msg.dstid;
          nodes = nodes;
        } in
        (record c { table = table' }, send sockaddr (lookup_bytes response) ∷ []))

unfoldable pub remove_query : DhtAddress → List DhtQuery → List DhtQuery
remove_query addr [] = []
remove_query addr (q ∷ qs) = if address_equal q.addr addr then qs else q ∷ remove_query addr qs

unfoldable pub store_query : DhtQuery → List DhtQuery → List DhtQuery
store_query q [] = []
store_query q (r ∷ rs) = if address_equal r.addr q.addr then q ∷ rs else r ∷ store_query q rs

-- `g_sequence_sort_changed`: the query is taken out, and put where its new metric belongs.
unfoldable pub settle_query : DhtId → DhtQuery → List DhtQuery → List DhtQuery
settle_query metric q qs =
    if id_equal metric q.metric
    then store_query q qs
    else insert_query (record q { metric = metric }) (remove_query q.addr qs)

-- The query that an answer belongs to: it no longer waits.
unfoldable pub answer_query : DhtId → DhtQuery → DhtLookup → DhtLookup
answer_query srcid q l =
    let answered : DhtQuery = record q {
      is_finished = true;
      is_alive = true;
      timeout_source = 0;
    } in
    record l {
      queries = settle_query (id_xor srcid l.id) answered l.queries;
      num_sources = if ltb 0 q.timeout_source then dec_uint l.num_sources else l.num_sources;
    }

module _ (randombytes : ℕ → DhtKey) where
  -- `MSG_LOOKUP_RES`.
  unfoldable pub lookup_response : ℕ → SocketAddress → MsgLookup → Client → Client × List Effect
  lookup_response now sockaddr msg c =
      let addr = address_serialize sockaddr in
      let c1 : Client = record c { table = update now msg.srcid addr true c.table } in
      if id_equal msg.srcid c.id then (c, []) else elim (find_lookup msg.dstid c.lookup_table) [
        | none ↦ (c1, [])
        | some l ↦ elim (find_query addr l.queries) [
          | none ↦ (c1, [])
          | some q ↦
              let (c2, effects) =
                lookup_update randombytes (answer_query msg.srcid q l) msg.nodes c1 in
              (c2, stop_source q.timeout_source ++ effects)
        ]
      ]

  -- `dht_client_receive_cb`: the switch on the message code and the tests of the length.
  unfoldable pub receive :
      Sodium → ℕ → SocketAddress → Bytes → Option ℕ → Client → Client × List Effect
  receive s now sockaddr buffer socket c =
      let len = length buffer in
      let code = get_or buffer 0 0 in
      let count = response_count len in
      if code == msg_lookup_req
      then (if len == lookup_size
          then lookup_request now sockaddr (read_lookup code 0 buffer) c
          else (c, []))
      else if code == msg_lookup_res
      then (if len == response_size count
          then lookup_response now sockaddr (read_lookup code count buffer) c
          else (c, []))
      else if code == msg_connection_req
      then (if len == connection1_size
          then connection_request s randombytes sockaddr (read_connection1 buffer) socket c
          else (c, []))
      else if code == msg_connection_res
      then (if len == connection2_size
          then connection_response s sockaddr (read_connection2 buffer) socket c
          else if len == connection3_size
          then connection_confirm sockaddr (read_connection3 buffer) c
          else (c, []))
      else (c, [])
