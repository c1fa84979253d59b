-- ===== src/Tests/Handshake.antt =====
-- The client at concrete inputs: a handshake between two clients, and a lookup.
use nanotalk.Base.{
  ◌≡◌, ℕ, ◌⊎◌, refl, true, false, none, some, List, [], ◌∷◌, replicate, bytes_eq, arith,
}
use nanotalk.Common.{Bytes, DhtKey, SocketAddress, key_make_public, key_make_shared, id_from_pubkey}
use nanotalk.Message.{connection1_bytes}
use nanotalk.Client.{
  remove_connection, close_socket, timed_out, DhtQuery, DhtLookup, DhtConnection, Client, Effect,
  connected, send_from, complete, new_connection, find_connection,
}
use nanotalk.Client.Connection.{connection_timeout}
use nanotalk.Client.Connection.Timeout.{connection_timeout_lem}
use nanotalk.Client.Connection.Handshake.{Emits}
use nanotalk.Client.Receive.{receive}
use nanotalk.Client.Agreement.{handshake_agrees}
use nanotalk.Client.Lookup.{lookup_dispatch}
use nanotalk.Client.Sources.{GoesOn, GivenUp, lookup_dispatch_lem}
use nanotalk.Client.Sources.Loop.{waiting}
use nanotalk.Tests.{toy, toy-IsSodium}

abbrev pub client : ℕ → List DhtConnection → Client
client n connections = record {
  table = record { id = replicate 20 n; buckets = [] ∷ []; num_buckets = 1; num_peers = 0 };
  pubkey = replicate 32 n;
  privkey = replicate 32 n;
  lookup_table = [];
  connection_table = connections;
  listen = true;
  next_source = 2;
  next_random = 0;
}

abbrev pub at : ℕ → SocketAddress
at port = record { ip = 127 ∷ 0 ∷ 0 ∷ 1 ∷ []; port = port }

-- The connection that client 1 has requested to client 2.
abbrev pub pending : DhtConnection
pending = record {
  id = replicate 20 2;
  nonce = replicate 32 5;
  is_remote = false;
  timeout_source = 1;
  socket = none;
  sockaddr = some (at 5002);
  result = some 1;
  enc_key = [];
  dec_key = [];
  auth_tag = [];
}

abbrev pub caller : Client
caller = client 1 (pending ∷ [])

abbrev pub callee : Client
callee = client 2 []

abbrev pub random : ℕ → DhtKey
random n = replicate 32 7

abbrev pub request : Bytes
request = connection1_bytes (record { pubkey = caller.pubkey; nonce = pending.nonce })

abbrev pub asked : Client × List Effect
asked = receive random toy 9 (at 5001) request (some 40) callee

-- The called client before the last datagram.
abbrev pub waiting_callee : Client
waiting_callee = record callee { connection_table = asked.0.connection_table }

handshake_agrees_example :
    (response confirm : Bytes) × (enc dec : DhtKey) × Emits
      (send_from (some 40) (some (at 5001)) response)
      asked.1
    × Emits
        (send_from (some 30) (some (at 5002)) confirm)
        ((receive random toy 9 (at 5002) response (some 30) caller).1)
    × Emits
        (complete 1 (connected (some 30) enc dec))
        ((receive random toy 9 (at 5002) response (some 30) caller).1)
    × Emits
        (new_connection (replicate 20 1) (some 40) dec enc)
        ((receive random toy 9 (at 5003) confirm none waiting_callee).1)
unfolding key_make_public key_make_shared id_from_pubkey find_connection bytes_eq
handshake_agrees_example =
    handshake_agrees toy toy-IsSodium random 9 (at 5001) (at 5002) (at 5003) caller callee
      waiting_callee pending 1 30 40 (replicate 32 3) (refl, refl) (refl, refl) refl refl refl refl
      refl (refl, refl, refl) refl refl refl refl refl

connection_timeout_lem_example :
    connection_timeout (replicate 32 5) caller
    ≡ (record caller { connection_table = [] }, complete 1 timed_out ∷ [])
unfolding find_connection remove_connection close_socket bytes_eq
connection_timeout_lem_example = connection_timeout_lem (replicate 32 5) pending caller refl

abbrev query : ℕ → DhtQuery
query n = record {
  metric = replicate 20 n;
  addr = replicate 6 n;
  timeout_source = 0;
  is_finished = false;
  is_alive = false;
}

abbrev lookup : DhtLookup
lookup = record {
  id = replicate 20 9;
  queries = query 1 ∷ query 2 ∷ [];
  num_sources = 0;
  results = 4 ∷ [];
}

lookup_dispatch_lem_example :
    GoesOn lookup (lookup_dispatch lookup callee)
    ⊎ GivenUp lookup callee (lookup_dispatch lookup callee)
unfolding waiting
lookup_dispatch_lem_example = lookup_dispatch_lem lookup callee refl (omega arith) (omega arith)
