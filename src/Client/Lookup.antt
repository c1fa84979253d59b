-- ===== src/Client/Lookup.antt =====
-- The lookups of src/dht-client.c: `dht_lookup_update`, `dht_lookup_dispatch` and the calls that start a lookup. A lookup that these
-- functions work on stands in the table of the client; they put it back, or remove it.
use nanotalk.Base.{
  ℕ, ◌+◌, ◌-◌, ◌*◌, ◌^◌, bit_and, bit_or, true, false, not, ◌&&◌, Option, none, some, List, [], ◌∷◌,
  ◌++◌, Ordering, ◌==◌, ltb, leb, if◌then◌else◌, replicate,
}
use nanotalk.Common.{
  Bytes, DhtId, DhtKey, DhtAddress, SocketAddress, id_size, id_xor, id_compare, id_equal,
  address_equal, address_serialize, address_deserialize,
}
use nanotalk.Bucket.{node_count, inc_uint, dec_uint, update}
use nanotalk.Search.{MsgNode, search_nodes}
use nanotalk.Message.{msg_lookup_req, lookup_bytes, MsgConnection1, connection1_bytes}
use nanotalk.Client.{
  DhtQuery, DhtLookup, DhtConnection, Client, host_not_found, invalid_id, Effect, send, add_timeout,
  complete, find_lookup, store_lookup, drop_lookup, replace_connection, replace_lookup,
}

-- `DHT_CONCURRENCY`.
abbrev pub concurrency : ℕ
concurrency = 3

unfoldable pub find_query : DhtAddress → List DhtQuery → Option DhtQuery
find_query addr [] = none
find_query addr (q ∷ qs) = if address_equal q.addr addr then some q else find_query addr qs

-- `g_sequence_search` and `g_sequence_insert_before`: behind the queries that are not farther.
unfoldable pub insert_query : DhtQuery → List DhtQuery → List DhtQuery
insert_query q [] = q ∷ []
insert_query q (r ∷ rs) = elim (id_compare q.metric r.metric) [
  | Ordering.lt ↦ q ∷ r ∷ rs
  | _ ↦ r ∷ insert_query q rs
]

unfoldable pub new_query : DhtId → MsgNode → DhtQuery
new_query id node = record {
  metric = id_xor id node.id;
  addr = node.addr;
  timeout_source = 0;
  is_finished = false;
  is_alive = false;
}

unfoldable pub add_query : MsgNode → DhtLookup → DhtLookup
add_query node l = elim (find_query node.addr l.queries) [
  | none ↦ record l { queries = insert_query (new_query l.id node) l.queries }
  | some q ↦ l
]

-- The loop over the nodes: it ends at the target, if that is among them.
unfoldable pub scan_nodes : DhtId → List MsgNode → DhtLookup → DhtLookup × Option MsgNode
scan_nodes own [] l = (l, none)
scan_nodes own (node ∷ nodes) l =
    let skip = id_equal node.id own in
    let rest = scan_nodes own nodes (if skip then l else add_query node l) in
    if not skip && id_equal node.id l.id then (l, some node) else rest

module _ (randombytes : ℕ → DhtKey) where
  -- The target is known: for each result a connection is requested, with a nonce of its own.
  unfoldable pub request_connection : DhtId → DhtAddress → ℕ → Client → Client × List Effect
  request_connection id addr result c =
      let nonce = randombytes c.next_random in
      let sockaddr = address_deserialize addr in
      let connection : DhtConnection = record {
        id = id;
        nonce = nonce;
        is_remote = false;
        timeout_source = c.next_source;
        socket = none;
        sockaddr = some sockaddr;
        result = some result;
        enc_key = [];
        dec_key = [];
        auth_tag = [];
      } in
      let request : MsgConnection1 = record { pubkey = c.pubkey; nonce = nonce } in
      let c1 : Client = record c {
        next_source = c.next_source + 1;
        next_random = c.next_random + 1;
      } in
      let (c2, effects) = replace_connection connection c1 in
      (
        c2,
        add_timeout c.next_source ∷ (effects ++ (send sockaddr (connection1_bytes request) ∷ [])),
      )

  unfoldable pub request_connections : DhtId → DhtAddress → List ℕ → Client → Client × List Effect
  request_connections id addr [] c = (c, [])
  request_connections id addr (r ∷ rs) c =
      let (c1, effects) = request_connection id addr r c in
      let (c2, effects') = request_connections id addr rs c1 in (c2, effects ++ effects')

-- What the dispatch loop changes besides the query that it is at.
pub record Dispatch : Type 0 where
  pub num_sources : ℕ
  pub num_alive : ℕ
  pub next_source : ℕ

abbrev pub lookup_request : DhtId → DhtId → Bytes
lookup_request own id =
    lookup_bytes (record { type = msg_lookup_req; srcid = own; dstid = id; nodes = [] })

-- The request to a query that is neither finished nor pending.
unfoldable pub dispatch_query :
    DhtId → DhtId → DhtQuery → Dispatch → DhtQuery × Dispatch × List Effect
dispatch_query own id q d =
    if not q.is_finished && (q.timeout_source == 0)
    then (
      record q { timeout_source = d.next_source },
      record d { num_sources = inc_uint d.num_sources; next_source = d.next_source + 1 },
      send (address_deserialize q.addr) (lookup_request own id) ∷ add_timeout d.next_source ∷ [],
    )
    else (q, d, [])

unfoldable pub dispatch_loop :
    DhtId → DhtId → List DhtQuery → Dispatch → List DhtQuery × Dispatch × List Effect
dispatch_loop own id [] d = ([], d, [])
dispatch_loop own id (q ∷ qs) d =
    elim (ltb d.num_sources concurrency && ltb d.num_alive node_count) [
      | true ↦
          let (q', d1, effects) = dispatch_query own id q d in
          let d2 : Dispatch = record d1 {
            num_alive = if q'.is_alive then d1.num_alive + 1 else d1.num_alive;
          } in
          let (qs', d3, effects') = dispatch_loop own id qs d2 in
          (q' ∷ qs', d3, effects ++ effects')
      | false ↦ (q ∷ qs, d, [])
    ]

unfoldable pub fail_results : List ℕ → List Effect
fail_results [] = []
fail_results (r ∷ rs) = complete r host_not_found ∷ fail_results rs

-- `dht_lookup_dispatch`.
unfoldable pub lookup_dispatch : DhtLookup → Client → Client × List Effect
lookup_dispatch l c =
    let (queries, d, effects) =
      dispatch_loop c.id l.id l.queries
        (record { num_sources = l.num_sources; num_alive = 0; next_source = c.next_source }) in
    let l' : DhtLookup = record l { queries = queries; num_sources = d.num_sources } in
    let c1 : Client = record c {
      next_source = d.next_source;
      lookup_table = store_lookup l' c.lookup_table;
    } in
    if d.num_sources == 0
    then (let c2 : Client = record c1 {
      lookup_table = store_lookup (record l' { results = [] }) c1.lookup_table;
    } in
        let (c3, effects') = drop_lookup l.id c2 in
        (c3, effects ++ (fail_results l.results ++ effects')))
    else (c1, effects)

-- The identifier of a refresh: `nbits` bits of the own one, then random ones. `nbits` falls by 8
-- for each byte; below 0 it acts as 0.
unfoldable pub refresh_id : ℕ → DhtId → Bytes → DhtId
refresh_id nbits [] random = []
refresh_id nbits (x ∷ own) [] = []
refresh_id nbits (x ∷ own) (r ∷ random) =
    (if leb 8 nbits
      then x
      else if ltb 0 nbits
      then bit_or (bit_and x (0xff * 2 ^ (8 - nbits))) r
      else r)
    ∷ refresh_id (nbits - 8) own random

-- `memset(node.id.data, 0, DHT_ID_SIZE)`.
abbrev pub zero_id : DhtId
zero_id = replicate id_size 0

abbrev pub empty_lookup : DhtId → List ℕ → DhtLookup
empty_lookup id results = record { id = id; queries = []; num_sources = 0; results = results }

module _ (randombytes : ℕ → DhtKey) where
  -- What follows the loop over the nodes of `dht_lookup_update`.
  unfoldable pub update_scanned : DhtLookup → Option MsgNode → Client → Client × List Effect
  update_scanned l none c = lookup_dispatch l c
  update_scanned l (some node) c =
      let (c1, effects) = request_connections randombytes l.id node.addr l.results c in
      let c2 : Client = record c1 {
        lookup_table = store_lookup (record l { results = [] }) c1.lookup_table;
      } in
      let (c3, effects') = drop_lookup l.id c2 in (c3, effects ++ effects')

  -- `dht_lookup_update`.
  unfoldable pub lookup_update : DhtLookup → List MsgNode → Client → Client × List Effect
  lookup_update l nodes c = let (l', target) = scan_nodes c.id nodes l in update_scanned l' target c

  -- `dht_client_bootstrap`: the address is asked under the identifier of zeros.
  unfoldable pub bootstrap : SocketAddress → Client → Client × List Effect
  bootstrap address c =
      let node : MsgNode = record { id = zero_id; addr = address_serialize address } in
      elim (find_lookup c.id c.lookup_table) [
        | some l ↦ lookup_update l (node ∷ []) c
        | none ↦
            let l = empty_lookup c.id [] in
            lookup_update l (node ∷ []) (record c { lookup_table = store_lookup l c.lookup_table })
      ]

  -- The lookup stands in the table, and the search supplies its first nodes.
  unfoldable pub start_lookup : ℕ → DhtLookup → Client → Client × List Effect
  start_lookup now l c =
      let (table, nodes) = search_nodes now l.id c.table in
      lookup_update l nodes (record c { table = table })

  -- `dht_client_lookup_async`.
  unfoldable pub lookup_async : ℕ → DhtId → ℕ → Client → Client × List Effect
  lookup_async now id result c =
      if id_equal id c.id
      then (c, complete result invalid_id ∷ [])
      else elim (find_lookup id c.lookup_table) [
        | some l ↦ (
          record c {
            lookup_table = store_lookup (record l { results = result ∷ l.results }) c.lookup_table;
          },
          [],
        )
        | none ↦
            let l = empty_lookup id (result ∷ []) in
            start_lookup now l (record c { lookup_table = store_lookup l c.lookup_table })
      ]

  -- `dht_client_refresh_cb`. `nbits` and `random` are the results of `g_random_int_range`.
  unfoldable pub refresh : ℕ → ℕ → Bytes → Client → Client × List Effect
  refresh now nbits random c =
      let l = empty_lookup (refresh_id nbits c.id random) [] in
      let (c1, effects) = replace_lookup l c in
      let (c2, effects') = start_lookup now l c1 in (c2, effects ++ effects')

unfoldable pub modify_query : (DhtQuery → DhtQuery) → DhtAddress → List DhtQuery → List DhtQuery
modify_query f addr [] = []
modify_query f addr (q ∷ qs) =
    if address_equal q.addr addr then f q ∷ qs else q ∷ modify_query f addr qs

-- `dht_query_timeout_cb` on the query of a lookup with an address.
unfoldable pub query_timeout : ℕ → DhtId → DhtAddress → Client → Client × List Effect
query_timeout now id addr c = elim (find_lookup id c.lookup_table) [
  | none ↦ (c, [])
  | some l ↦ elim (find_query addr l.queries) [
    | none ↦ (c, [])
    | some q ↦
        let table = update now (id_xor q.metric l.id) q.addr false c.table in
        let done = λ (r : DhtQuery). record r { is_finished = true; timeout_source = 0 } in
        let l' : DhtLookup = record l {
          queries = modify_query done addr l.queries;
          num_sources = dec_uint l.num_sources;
        } in
        lookup_dispatch l' (record c { table = table })
  ]
]
