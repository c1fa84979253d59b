-- ===== src/Client/Connection/Handshake.antt =====
-- The handshake in full, on both sides, and its keys.
use nanotalk.Base.{
  ℕ, ◌+◌, ◌≡◌, refl, sym, ap, ◌∙◌, true, false, not, ◌||◌, none, some, List, [], ◌∷◌, ◌++◌,
  if◌then◌else◌, length, length-drop, bytes_eq, bytes_eq_self, arith,
}
use nanotalk.Common.{
  DhtKey, key_size, SocketAddress, Sodium, IsSodium, key_make_public, key_make_shared, key_derive,
  id_from_pubkey,
}
use nanotalk.Message.{
  MsgConnection1, MsgConnection2, MsgConnection3, connection2_bytes, connection3_bytes,
}
use nanotalk.Client.{
  DhtConnection, Client, connected, Effect, send_from, add_timeout, remove_source, complete,
  connect, new_connection, find_connection, store_connection, remove_connection, destroy_connection,
  replace_connection,
}
use nanotalk.Client.Tables.{find-store_connection}
use nanotalk.Client.Connection.{
  accept_request, connection_request, connection_response, verify_response, finish_response,
  signal_connection, connection_confirm,
}

-- An effect is among the requests of a step.
abbrev pub Emits : Effect → List Effect → Type 0
Emits e es = (before : List Effect) × (after : List Effect) × (es ≡ before ++ (e ∷ after))

-- What `dht_client_set_property` makes of the key.
abbrev pub IsKeyed : Sodium → Client → Type 0
IsKeyed s c = (c.pubkey ≡ key_make_public s c.privkey) × (c.id ≡ id_from_pubkey s c.pubkey)

-- A connection that has been requested and not been answered.
abbrev pub IsPending : DhtConnection → ℕ → Client → Type 0
IsPending x r c =
    (find_connection x.nonce c.connection_table ≡ some x)
    × (x.is_remote ≡ false)
    × (x.result ≡ some r)

find-replace_connection :
    (x : DhtConnection) (c : Client)
    → find_connection x.nonce (replace_connection x c).0.connection_table ≡ some x
unfolding replace_connection
find-replace_connection x c = find-store_connection x c.connection_table

module _ (s : Sodium) (sodium : IsSodium s) where
  pub derive_tag_length : (k tx rx : DhtKey) → length (key_derive s k tx rx).1 ≡ key_size
  unfolding key_derive
  derive_tag_length k tx rx =
      let e = length-drop 32 (s.generichash 64 (tx ++ rx) k) in
      let e' = sodium.hash_length 64 (tx ++ rx) k in omega (arith, e, e')

  -- Both sides of the exchange find the secret, if one does.
  pub shared_agrees :
      (a b : Client) (k : DhtKey)
      → IsKeyed s a
      → IsKeyed s b
      → key_make_shared s a.privkey b.pubkey ≡ some k
      → key_make_shared s b.privkey a.pubkey ≡ some k
  unfolding key_make_shared key_make_public
  shared_agrees a b k ha hb e =
      ap (s.scalarmult b.privkey) ha.0
      ∙ sodium.exchange b.privkey a.privkey
      ∙ sym (ap (s.scalarmult a.privkey) hb.0)
      ∙ e

module _ (s : Sodium) (randombytes : ℕ → DhtKey) (sockaddr : SocketAddress) (k : DhtKey)
    (n : ℕ) where
  -- What the responder keeps, and what it answers.
  abbrev pub accepted : MsgConnection1 → Client → DhtConnection
  accepted msg b =
      let nonce = randombytes b.next_random in
      record {
        id = id_from_pubkey s msg.pubkey;
        nonce = nonce;
        is_remote = true;
        timeout_source = b.next_source;
        socket = some n;
        sockaddr = none;
        result = none;
        enc_key = (key_derive s k nonce msg.nonce).0;
        dec_key = (key_derive s k msg.nonce nonce).0;
        auth_tag = (key_derive s k msg.nonce nonce).1;
      }

  abbrev pub answer : MsgConnection1 → Client → MsgConnection2
  answer msg b =
      let nonce = randombytes b.next_random in
      record {
        pubkey = b.pubkey;
        nonce = nonce;
        peer_nonce = msg.nonce;
        auth_tag = (key_derive s k nonce msg.nonce).1;
      }

  pub accept_request_lem :
      (msg : MsgConnection1) (b : Client)
      → let step = accept_request s randombytes sockaddr msg (id_from_pubkey s msg.pubkey) k n b in
        (find_connection (randombytes b.next_random) step.0.connection_table
          ≡ some (accepted msg b))
        × Emits (send_from (some n) (some sockaddr) (connection2_bytes (answer msg b))) step.1
  unfolding accept_request
  accept_request_lem msg b = (
    find-replace_connection (accepted msg b)
        (record b { next_source = b.next_source + 1; next_random = b.next_random + 1 }),
    (
      add_timeout b.next_source
          ∷ (replace_connection (accepted msg b)
              (record b { next_source = b.next_source + 1; next_random = b.next_random + 1 })).1,
      [],
      refl,
    ),
  )

  pub connection_request_lem :
      (msg : MsgConnection1) (b : Client)
      → bytes_eq (id_from_pubkey s msg.pubkey) b.id ≡ false
      → b.listen ≡ true
      → key_make_shared s b.privkey msg.pubkey ≡ some k
      → connection_request s randombytes sockaddr msg (some n) b
        ≡ accept_request s randombytes sockaddr msg (id_from_pubkey s msg.pubkey) k n b
  unfolding connection_request
  connection_request_lem msg b hid hl hk = simp (hid, hl, hk)

module _ (s : Sodium) (sockaddr : SocketAddress) (k : DhtKey) (n : ℕ) where
  abbrev pub confirmation : MsgConnection2 → DhtConnection → MsgConnection3
  confirmation msg x = record {
    peer_nonce = msg.nonce;
    auth_tag = (key_derive s k x.nonce msg.nonce).1;
  }

  -- The connection with its keys and socket set.
  abbrev pub answered : MsgConnection2 → DhtConnection → DhtConnection
  answered msg x = record x {
    enc_key = (key_derive s k x.nonce msg.nonce).0;
    dec_key = (key_derive s k msg.nonce x.nonce).0;
    auth_tag = (key_derive s k msg.nonce x.nonce).1;
    socket = some n;
  }

  pub response_accepted :
      (msg : MsgConnection2) (x : DhtConnection) (a : Client)
      → find_connection msg.peer_nonce a.connection_table ≡ some x
      → x.is_remote ≡ false
      → x.id ≡ id_from_pubkey s msg.pubkey
      → key_make_shared s a.privkey msg.pubkey ≡ some k
      → msg.auth_tag ≡ (key_derive s k msg.nonce x.nonce).1
      → (c : Client) × (connection_response s sockaddr msg (some n) a
          ≡ finish_response sockaddr msg (key_derive s k x.nonce msg.nonce).1 (answered msg x) c)
  unfolding connection_response verify_response
  response_accepted msg x a hf hr hid hk ht = (
    record a {
      connection_table =
          store_connection
            (record x {
              enc_key = (key_derive s k x.nonce msg.nonce).0;
              dec_key = (key_derive s k msg.nonce x.nonce).0;
              auth_tag = (key_derive s k msg.nonce x.nonce).1;
            })
            a.connection_table;
    },
    let rest : (x.is_remote || not (bytes_eq x.id (id_from_pubkey s msg.pubkey))) ≡ false =
          rw (hr, hid, bytes_eq_self (id_from_pubkey s msg.pubkey)) in
        let tag : bytes_eq (key_derive s k msg.nonce x.nonce).1 msg.auth_tag ≡ true =
          rw (ht, bytes_eq_self ((key_derive s k msg.nonce x.nonce).1)) in
        rw (connection_response, verify_response, hf, rest, hk, tag),
  )

  pub finish_response_lem :
      (msg : MsgConnection2) (x : DhtConnection) (r : ℕ) (c : Client)
      → x.result ≡ some r
      → let effects =
          (finish_response sockaddr msg
            (key_derive s k x.nonce msg.nonce).1
            (answered msg x)
            c).1 in
        Emits (send_from (some n) x.sockaddr (connection3_bytes (confirmation msg x))) effects
        × Emits
            (complete r (
              connected
                (some n)
                (key_derive s k x.nonce msg.nonce).0
                (key_derive s k msg.nonce x.nonce).0))
            effects
  unfolding finish_response
  finish_response_lem msg x r c hr = (
    ([], _, refl),
    (
      send_from (some n) x.sockaddr (connection3_bytes (confirmation msg x))
          ∷ remove_source x.timeout_source
          ∷ connect (some n) sockaddr
          ∷ [],
      [],
      rw hr,
    ),
  )

confirm_signal :
    (sockaddr : SocketAddress) (msg : MsgConnection3) (y : DhtConnection) (b : Client)
    → find_connection msg.peer_nonce b.connection_table ≡ some y
    → y.is_remote ≡ true
    → msg.auth_tag ≡ y.auth_tag
    → connection_confirm sockaddr msg b ≡ (
      record b { connection_table = remove_connection y.nonce b.connection_table },
      signal_connection sockaddr y b ++ destroy_connection y,
    )
unfolding connection_confirm
confirm_signal sockaddr msg y b hf hr ht =
    rw (connection_confirm, hf, hr, ht, bytes_eq_self y.auth_tag)

pub connection_confirm_lem :
    (sockaddr : SocketAddress) (msg : MsgConnection3) (y : DhtConnection) (b : Client)
    → find_connection msg.peer_nonce b.connection_table ≡ some y
    → y.is_remote ≡ true
    → msg.auth_tag ≡ y.auth_tag
    → b.listen ≡ true
    → Emits
        (new_connection y.id y.socket y.enc_key y.dec_key)
        ((connection_confirm sockaddr msg b).1)
connection_confirm_lem sockaddr msg y b hf hr ht hl = (
  connect y.socket sockaddr ∷ [],
  destroy_connection y,
  ap (λ p. p.1) (confirm_signal sockaddr msg y b hf hr ht)
      ∙ ap
          (λ listen.
            (if listen
              then connect y.socket sockaddr ∷ new_connection y.id y.socket y.enc_key y.dec_key ∷ []
              else [])
            ++ destroy_connection y)
          hl,
)
