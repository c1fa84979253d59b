-- ===== src/Client/Run.antt =====
-- The whole life of a client of src/dht-client.c: the events that its public functions, its timers and
-- its socket bring, in any order, and `dht_client_finalize`.
use nanotalk.Base.{ℕ, Bool, Option, none, some, List, [], ◌∷◌, ◌++◌, ◌==◌, ◌+◌, if◌then◌else◌}
use nanotalk.Common.{Bytes, DhtId, DhtKey, DhtAddress, SocketAddress, Sodium}
use nanotalk.Client.{
  DhtLookup, DhtConnection, Client, Completion, connected, invalid_id, host_not_found, timed_out,
  was_cancelled, Effect, close, remove_source, set_listen, destroy_lookup, destroy_connection,
}
use nanotalk.Client.Lookup.{bootstrap, lookup_async, refresh, query_timeout}
use nanotalk.Client.Connection.{connection_timeout}
use nanotalk.Client.Receive.{receive}

-- What happens to a client. A call of `dht_client_lookup_async` brings the number of its result.
pub data Event : Type 0 where
  booted : SocketAddress → Event
  called : ℕ → DhtId → ℕ → Event
  refreshed : ℕ → ℕ → Bytes → Event
  query_expired : ℕ → DhtId → DhtAddress → Event
  connection_expired : DhtKey → Event
  received : ℕ → SocketAddress → Bytes → Option ℕ → Event
  listening : Bool → Event

module _ (s : Sodium) (randombytes : ℕ → DhtKey) where
  unfoldable pub handle : Event → Client → Client × List Effect
  handle (booted address) c = bootstrap randombytes address c
  handle (called now id result) c = lookup_async randombytes now id result c
  handle (refreshed now nbits random) c = refresh randombytes now nbits random c
  handle (query_expired now id addr) c = query_timeout now id addr c
  handle (connection_expired nonce) c = connection_timeout nonce c
  handle (received now sockaddr buffer socket) c =
      receive randombytes s now sockaddr buffer socket c
  handle (listening listen) c = (set_listen listen c, [])

  unfoldable pub run : List Event → Client → Client × List Effect
  run [] c = (c, [])
  run (e ∷ es) c =
      let (c1, effects) = handle e c in let (c2, effects') = run es c1 in (c2, effects ++ effects')

unfoldable pub destroy_lookups : List DhtLookup → List Effect
destroy_lookups [] = []
destroy_lookups (l ∷ ls) = destroy_lookup l ++ destroy_lookups ls

unfoldable pub destroy_connections : List DhtConnection → List Effect
destroy_connections [] = []
destroy_connections (x ∷ xs) = destroy_connection x ++ destroy_connections xs

-- `dht_client_finalize`. The client's own socket and its two sources come from `dht_client_init`.
unfoldable pub finalize : ℕ → ℕ → ℕ → Client → List Effect
finalize socket socket_source timeout_source c =
    destroy_lookups c.lookup_table
    ++ (destroy_connections c.connection_table
        ++ (close socket ∷ remove_source socket_source ∷ remove_source timeout_source ∷ []))

-- `dht_client_lookup_finish`: what a caller gets of its completed call, nothing with an error.
unfoldable pub lookup_finish : Completion → Option (Option ℕ × DhtKey × DhtKey)
lookup_finish (connected socket enc_key dec_key) = some (socket, enc_key, dec_key)
lookup_finish invalid_id = none
lookup_finish host_not_found = none
lookup_finish timed_out = none
lookup_finish was_cancelled = none

-- How often a call is started.
unfoldable pub started : ℕ → List Event → ℕ
started r [] = 0
started r (called now id result ∷ es) = (if result == r then 1 else 0) + started r es
started r (booted address ∷ es) = started r es
started r (refreshed now nbits random ∷ es) = started r es
started r (query_expired now id addr ∷ es) = started r es
started r (connection_expired nonce ∷ es) = started r es
started r (received now sockaddr buffer socket ∷ es) = started r es
started r (listening listen ∷ es) = started r es
