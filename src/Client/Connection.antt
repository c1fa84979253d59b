-- ===== src/Client/Connection.antt =====
-- The handshake of src/dht-client.c: the cases of `dht_client_receive_cb` for connection messages,
-- and `dht_connection_timeout_cb`. `socket` is what `g_socket_new` returns, `none` for an error.
pub mod Handshake
pub mod Timeout
use nanotalk.Base.{ℕ, ◌+◌, true, not, ◌||◌, Option, none, some, List, [], ◌∷◌, ◌++◌, if◌then◌else◌}
use nanotalk.Common.{
  DhtId, DhtKey, SocketAddress, Sodium, key_make_shared, key_derive, id_from_pubkey, id_equal,
  key_equal,
}
use nanotalk.Message.{
  MsgConnection1, MsgConnection2, MsgConnection3, connection2_bytes, connection3_bytes,
}
use nanotalk.Client.{
  DhtConnection, Client, connected, timed_out, Effect, send_from, add_timeout, remove_source,
  complete, connect, new_connection, find_connection, remove_connection, store_connection,
  destroy_connection, drop_connection, replace_connection,
}

abbrev pub complete_result : Option ℕ → DhtConnection → List Effect
complete_result none x = []
complete_result (some r) x = complete r (connected x.socket x.enc_key x.dec_key) ∷ []

module _ (s : Sodium) (randombytes : ℕ → DhtKey) where
  -- A request is accepted: keys for both directions, and a connection under a nonce of its own.
  unfoldable pub accept_request :
      SocketAddress → MsgConnection1 → DhtId → DhtKey → ℕ → Client → Client × List Effect
  accept_request sockaddr msg id shared socket c =
      let nonce = randombytes c.next_random in
      let (enc_key, response_tag) = key_derive s shared nonce msg.nonce in
      let (dec_key, auth_tag) = key_derive s shared msg.nonce nonce in
      let response : MsgConnection2 = record {
        pubkey = c.pubkey;
        nonce = nonce;
        peer_nonce = msg.nonce;
        auth_tag = response_tag;
      } in
      let connection : DhtConnection = record {
        id = id;
        nonce = nonce;
        is_remote = true;
        timeout_source = c.next_source;
        socket = some socket;
        sockaddr = none;
        result = none;
        enc_key = enc_key;
        dec_key = dec_key;
        auth_tag = auth_tag;
      } in
      let c1 : Client = record c {
        next_source = c.next_source + 1;
        next_random = c.next_random + 1;
      } in
      let (c2, effects) = replace_connection connection c1 in
      (
        c2,
        add_timeout c.next_source
            ∷ (effects
                ++ (send_from (some socket) (some sockaddr) (connection2_bytes response) ∷ [])),
      )

  -- `MSG_CONNECTION_REQ`.
  unfoldable pub connection_request :
      SocketAddress → MsgConnection1 → Option ℕ → Client → Client × List Effect
  connection_request sockaddr msg socket c =
      let id = id_from_pubkey s msg.pubkey in
      if id_equal id c.id || not c.listen
      then (c, [])
      else elim (key_make_shared s c.privkey msg.pubkey) [
        | none ↦ (c, [])
        | some shared ↦ elim socket [
          | none ↦ (c, [])
          | some n ↦ accept_request sockaddr msg id shared n c
        ]
      ]

-- The responder has proved its key: the connection leaves the table for the result.
unfoldable pub finish_response :
    SocketAddress → MsgConnection2 → DhtKey → DhtConnection → Client → Client × List Effect
finish_response sockaddr msg response_tag x c =
    let response : MsgConnection3 = record { peer_nonce = msg.nonce; auth_tag = response_tag } in
    (
      record c { connection_table = remove_connection x.nonce c.connection_table },
      send_from x.socket x.sockaddr (connection3_bytes response)
          ∷ remove_source x.timeout_source
          ∷ connect x.socket sockaddr
          ∷ complete_result x.result x,
    )

module _ (s : Sodium) where
  -- The keys of the connection are set before the tag is checked.
  unfoldable pub verify_response :
      SocketAddress
      → MsgConnection2
      → DhtKey
      → Option ℕ
      → DhtConnection
      → Client
      → Client × List Effect
  verify_response sockaddr msg shared socket x c =
      let (enc_key, response_tag) = key_derive s shared x.nonce msg.nonce in
      let (dec_key, auth_tag) = key_derive s shared msg.nonce x.nonce in
      let x1 : DhtConnection = record x {
        enc_key = enc_key;
        dec_key = dec_key;
        auth_tag = auth_tag;
      } in
      let c1 : Client = record c { connection_table = store_connection x1 c.connection_table } in
      if key_equal auth_tag msg.auth_tag
      then elim socket [
        | none ↦ (
          record c1 {
            connection_table = store_connection (record x1 { socket = none }) c1.connection_table;
          },
          [],
        )
        | some n ↦ finish_response sockaddr msg response_tag (record x1 { socket = some n }) c1
      ]
      else (c1, [])

  -- `MSG_CONNECTION_RES` with a `MsgConnection2`.
  unfoldable pub connection_response :
      SocketAddress → MsgConnection2 → Option ℕ → Client → Client × List Effect
  connection_response sockaddr msg socket c =
      elim (find_connection msg.peer_nonce c.connection_table) [
        | none ↦ (c, [])
        | some x ↦
            if x.is_remote || not (id_equal x.id (id_from_pubkey s msg.pubkey))
            then (c, [])
            else elim (key_make_shared s c.privkey msg.pubkey) [
              | none ↦ (c, [])
              | some shared ↦ verify_response sockaddr msg shared socket x c
            ]
      ]

abbrev pub signal_connection : SocketAddress → DhtConnection → Client → List Effect
signal_connection sockaddr x c =
    if c.listen
    then connect x.socket sockaddr ∷ new_connection x.id x.socket x.enc_key x.dec_key ∷ []
    else []

-- `MSG_CONNECTION_RES` with a `MsgConnection3`.
unfoldable pub connection_confirm : SocketAddress → MsgConnection3 → Client → Client × List Effect
connection_confirm sockaddr msg c = elim (find_connection msg.peer_nonce c.connection_table) [
  | none ↦ (c, [])
  | some x ↦ if not x.is_remote || not (key_equal x.auth_tag msg.auth_tag) then (c, []) else (
    record c { connection_table = remove_connection x.nonce c.connection_table },
    signal_connection sockaddr x c ++ destroy_connection x,
  )
]

abbrev pub time_out_result : Option ℕ → List Effect
time_out_result none = []
time_out_result (some r) = complete r timed_out ∷ []

-- `dht_connection_timeout_cb` on the connection with a nonce.
unfoldable pub connection_timeout : DhtKey → Client → Client × List Effect
connection_timeout nonce c = elim (find_connection nonce c.connection_table) [
  | none ↦ (c, [])
  | some x ↦
      let x1 : DhtConnection = record x { result = none; timeout_source = 0 } in
      let (c1, effects) =
        drop_connection nonce
          (record c { connection_table = store_connection x1 c.connection_table }) in
      (c1, time_out_result x.result ++ effects)
]
