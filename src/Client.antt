-- ===== src/Client.antt =====
-- `DhtClient` of src/dht-client.c: the state of `DhtClientPrivate`, the requests that a client makes
-- of its surroundings, and its tables. A client that has no socket is not modelled.
pub mod Tables
pub mod Lookup
pub mod Connection
pub mod Receive
pub mod Agreement
pub mod Run
pub mod Tally
pub mod Results
pub mod Timers
pub mod Sources
pub mod Pending
pub mod Sound
use nanotalk.Base.{
  ℕ, zero, suc, ◌+◌, Bool, false, Option, none, some, List, [], ◌∷◌, ◌++◌, if◌then◌else◌, bytes_eq,
}
use nanotalk.Common.{
  Bytes, DhtId, DhtKey, DhtAddress, SocketAddress, Sodium, id_from_pubkey, key_make_public,
}
use nanotalk.Bucket.{Table, init_table}

-- `struct _dht_query`. The sequence of a lookup holds it; a timeout source of 0 is none.
pub record DhtQuery : Type 0 where
  pub metric : DhtId
  pub addr : DhtAddress
  pub timeout_source : ℕ
  pub is_finished : Bool
  pub is_alive : Bool

-- `struct _dht_lookup`. `queries` is `query_sequence`; `query_table` leads from an address to the
-- query with it, and there is one at most, since only addresses that it lacks are inserted. The
-- pending `GSimpleAsyncResult`s are numbered.
pub record DhtLookup : Type 0 where
  pub id : DhtId
  pub queries : List DhtQuery
  pub num_sources : ℕ
  pub results : List ℕ

-- `struct _dht_connection`. Keys that the code leaves unset are empty.
pub record DhtConnection : Type 0 where
  pub id : DhtId
  pub nonce : DhtKey
  pub is_remote : Bool
  pub timeout_source : ℕ
  pub socket : Option ℕ
  pub sockaddr : Option SocketAddress
  pub result : Option ℕ
  pub enc_key : DhtKey
  pub dec_key : DhtKey
  pub auth_tag : DhtKey

-- How an asynchronous call ends.
pub data Completion : Type 0 where
  connected : Option ℕ → DhtKey → DhtKey → Completion
  invalid_id host_not_found timed_out was_cancelled : Completion

-- What a client asks of its surroundings, in order. The source of `send_from` is a socket of a
-- connection, that of `send` the client's own.
pub data Effect : Type 0 where
  send : SocketAddress → Bytes → Effect
  send_from : Option ℕ → Option SocketAddress → Bytes → Effect
  add_timeout : ℕ → Effect
  remove_source : ℕ → Effect
  complete : ℕ → Completion → Effect
  connect : Option ℕ → SocketAddress → Effect
  close : ℕ → Effect
  new_connection : DhtId → Option ℕ → DhtKey → DhtKey → Effect

-- `struct _dht_client_private`, and two counters of what the surroundings have handed out: source
-- numbers, which start at 1, and random keys.
pub record Client : Type 0 where
  pub table : Table
  pub open table use *
  pub pubkey : DhtKey
  pub privkey : DhtKey
  pub lookup_table : List DhtLookup
  pub connection_table : List DhtConnection
  pub listen : Bool
  pub next_source : ℕ
  pub next_random : ℕ

-- `dht_client_new`: `dht_client_init`, then the property `key`.
unfoldable pub new_client : Sodium → DhtKey → Client
new_client s key =
    let pubkey = key_make_public s key in
    record {
      table = init_table (id_from_pubkey s pubkey);
      pubkey = pubkey;
      privkey = key;
      lookup_table = [];
      connection_table = [];
      listen = false;
      next_source = 1;
      next_random = 0;
    }

-- `PROP_LISTEN` of `dht_client_set_property`.
unfoldable pub set_listen : Bool → Client → Client
set_listen listen c = record c { listen = listen }

-- `dht_client_get_property`.
pub data Property : Type 0 where
  prop_key prop_id prop_peers prop_listen : Property

pub data Value : Type 0 where
  key_value : DhtKey → Value
  id_value : DhtId → Value
  peers_value : ℕ → Value
  listen_value : Bool → Value

unfoldable pub get_property : Property → Client → Value
get_property prop_key c = key_value c.privkey
get_property prop_id c = id_value c.id
get_property prop_peers c = peers_value c.num_peers
get_property prop_listen c = listen_value c.listen

-- The hash tables by their keys: `DhtId` for lookups, the nonce for connections.
unfoldable pub find_lookup : DhtId → List DhtLookup → Option DhtLookup
find_lookup id [] = none
find_lookup id (l ∷ ls) = if bytes_eq l.id id then some l else find_lookup id ls

unfoldable pub remove_lookup : DhtId → List DhtLookup → List DhtLookup
remove_lookup id [] = []
remove_lookup id (l ∷ ls) = if bytes_eq l.id id then ls else l ∷ remove_lookup id ls

-- A lookup is changed in place, or inserted.
unfoldable pub store_lookup : DhtLookup → List DhtLookup → List DhtLookup
store_lookup l [] = l ∷ []
store_lookup l (k ∷ ls) = if bytes_eq k.id l.id then l ∷ ls else k ∷ store_lookup l ls

unfoldable pub find_connection : DhtKey → List DhtConnection → Option DhtConnection
find_connection nonce [] = none
find_connection nonce (x ∷ xs) = if bytes_eq x.nonce nonce then some x else find_connection nonce xs

unfoldable pub remove_connection : DhtKey → List DhtConnection → List DhtConnection
remove_connection nonce [] = []
remove_connection nonce (x ∷ xs) =
    if bytes_eq x.nonce nonce then xs else x ∷ remove_connection nonce xs

unfoldable pub store_connection : DhtConnection → List DhtConnection → List DhtConnection
store_connection x [] = x ∷ []
store_connection x (y ∷ xs) = if bytes_eq y.nonce x.nonce then x ∷ xs else y ∷ store_connection x xs

-- `if(timeout_source > 0) g_source_remove(timeout_source)`.
unfoldable pub stop_source : ℕ → List Effect
stop_source zero = []
stop_source (suc n) = remove_source (suc n) ∷ []

-- `dht_result_destroy_cb`, over a list of results.
unfoldable pub cancel_results : List ℕ → List Effect
cancel_results [] = []
cancel_results (r ∷ rs) = complete r was_cancelled ∷ cancel_results rs

unfoldable pub stop_queries : List DhtQuery → List Effect
stop_queries [] = []
stop_queries (q ∷ qs) = stop_source q.timeout_source ++ stop_queries qs

-- `dht_lookup_destroy_cb`, with `dht_query_destroy_cb` for each query.
unfoldable pub destroy_lookup : DhtLookup → List Effect
destroy_lookup l = stop_queries l.queries ++ cancel_results l.results

unfoldable pub close_socket : Option ℕ → List Effect
close_socket none = []
close_socket (some socket) = close socket ∷ []

unfoldable pub cancel_result : Option ℕ → List Effect
cancel_result none = []
cancel_result (some r) = complete r was_cancelled ∷ []

-- `dht_connection_destroy_cb`.
unfoldable pub destroy_connection : DhtConnection → List Effect
destroy_connection x =
    stop_source x.timeout_source ++ (close_socket x.socket ++ cancel_result x.result)

-- `g_hash_table_remove(lookup_table, …)`: the destructor runs on what is removed.
unfoldable pub drop_lookup : DhtId → Client → Client × List Effect
drop_lookup id c = elim (find_lookup id c.lookup_table) [
  | none ↦ (c, [])
  | some l ↦ (record c { lookup_table = remove_lookup id c.lookup_table }, destroy_lookup l)
]

unfoldable pub drop_connection : DhtKey → Client → Client × List Effect
drop_connection nonce c = elim (find_connection nonce c.connection_table) [
  | none ↦ (c, [])
  | some x ↦ (
    record c { connection_table = remove_connection nonce c.connection_table },
    destroy_connection x,
  )
]

-- `g_hash_table_replace(…)`: what stood under the same key is destroyed.
unfoldable pub replace_lookup : DhtLookup → Client → Client × List Effect
replace_lookup l c = (
  record c { lookup_table = store_lookup l c.lookup_table },
  elim (find_lookup l.id c.lookup_table) [ none ↦ [] | some k ↦ destroy_lookup k ],
)

unfoldable pub replace_connection : DhtConnection → Client → Client × List Effect
replace_connection x c = (
  record c { connection_table = store_connection x c.connection_table },
  elim (find_connection x.nonce c.connection_table) [ none ↦ [] | some y ↦ destroy_connection y ],
)
