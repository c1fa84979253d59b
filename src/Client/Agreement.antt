-- ===== src/Client/Agreement.antt =====
-- The handshake through `dht_client_receive_cb`: three datagrams between two clients.
use nanotalk.Base.{
  ℕ, suc, ◌≡◌, refl, sym, ap, subst, ◌∙◌, true, false, Option, none, some, ◌++◌, length,
  length-append, bytes_eq, arith,
}
use nanotalk.Common.{
  Bytes, DhtKey, key_size, SocketAddress, Sodium, IsSodium, key_make_shared, key_derive,
  id_from_pubkey,
}
use nanotalk.Message.{
  MsgConnection1, MsgConnection2, MsgConnection3, connection1_bytes, connection2_bytes,
  connection3_bytes,
}
use nanotalk.Message.Layout.{read_connection1-bytes, read_connection2-bytes, read_connection3-bytes}
use nanotalk.Client.{
  DhtConnection, Client, connected, send_from, complete, new_connection, find_connection,
}
use nanotalk.Client.Connection.{connection_request, connection_response, connection_confirm}
use nanotalk.Client.Connection.Handshake.{
  Emits, IsKeyed, IsPending, derive_tag_length, shared_agrees, accepted, answer, confirmation,
  accept_request_lem, connection_request_lem, response_accepted, finish_response_lem,
  connection_confirm_lem,
}
use nanotalk.Client.Receive.{receive}

module _ (s : Sodium) (randombytes : ℕ → DhtKey) (now : ℕ) (sockaddr : SocketAddress) where
  receive_request :
      (m : MsgConnection1) (socket : Option ℕ) (c : Client)
      → length m.pubkey ≡ key_size
      → length m.nonce ≡ key_size
      → receive randombytes s now sockaddr (connection1_bytes m) socket c
        ≡ connection_request s randombytes sockaddr m socket c
  unfolding receive connection1_bytes
  receive_request m socket c hp hn =
      let e : suc (length (m.pubkey ++ m.nonce)) ≡ 65 =
        omega (arith, length-append m.pubkey m.nonce, hp, hn) in
      rw e (
        ap (λ m'. connection_request s randombytes sockaddr m' socket c)
          (read_connection1-bytes m hp hn))

  receive_answer :
      (m : MsgConnection2) (socket : Option ℕ) (c : Client)
      → length m.pubkey ≡ key_size
      → length m.nonce ≡ key_size
      → length m.peer_nonce ≡ key_size
      → length m.auth_tag ≡ key_size
      → receive randombytes s now sockaddr (connection2_bytes m) socket c
        ≡ connection_response s sockaddr m socket c
  unfolding receive connection2_bytes
  receive_answer m socket c hp hn hq ht =
      let e : suc (length (m.pubkey ++ (m.nonce ++ (m.peer_nonce ++ m.auth_tag)))) ≡ 129 = omega (
        arith,
        length-append m.pubkey (m.nonce ++ (m.peer_nonce ++ m.auth_tag)),
        length-append m.nonce (m.peer_nonce ++ m.auth_tag),
        length-append m.peer_nonce m.auth_tag,
        hp,
        hn,
        hq,
        ht,
      ) in
      rw e (
        ap (λ m'. connection_response s sockaddr m' socket c)
          (read_connection2-bytes m hp hn hq ht))

  receive_confirmation :
      (m : MsgConnection3) (socket : Option ℕ) (c : Client)
      → length m.peer_nonce ≡ key_size
      → length m.auth_tag ≡ key_size
      → receive randombytes s now sockaddr (connection3_bytes m) socket c
        ≡ connection_confirm sockaddr m c
  unfolding receive connection3_bytes
  receive_confirmation m socket c hq ht =
      let e : suc (length (m.peer_nonce ++ m.auth_tag)) ≡ 65 =
        omega (arith, length-append m.peer_nonce m.auth_tag, hq, ht) in
      rw e (ap (λ m'. connection_confirm sockaddr m' c) (read_connection3-bytes m hq ht))

-- A client that awaits the answer of a listening client, and that client, run the handshake over
-- three datagrams, and each of them ends with the key that it encrypts with equal to the one that
-- the other decrypts with: the first completes its call with `enc` and `dec`, the second signals
-- the first's identifier with `dec` and `enc`. The second may do other work before the third
-- datagram, so long as it keeps the connection and still listens. It is assumed that both keep the
-- keys of their properties, that the exchange succeeds, that keys and nonces have their size, and
-- that the connection is for the second client's identifier, which differs from the first's. And
-- libsodium must keep its laws.
pub handshake_agrees :
    (s : Sodium) (sodium : IsSodium s) (randombytes : ℕ → DhtKey) (now : ℕ)
    (from_a from_b from_a' : SocketAddress) (a b b' : Client) (x : DhtConnection)
    (result socket_a socket_b : ℕ) (k : DhtKey)
    → IsKeyed s a
    → IsKeyed s b
    → length a.pubkey ≡ key_size
    → length b.pubkey ≡ key_size
    → length x.nonce ≡ key_size
    → length (randombytes b.next_random) ≡ key_size
    → key_make_shared s a.privkey b.pubkey ≡ some k
    → IsPending x result a
    → x.id ≡ b.id
    → bytes_eq a.id b.id ≡ false
    → b.listen ≡ true
    → let request = connection1_bytes (record { pubkey = a.pubkey; nonce = x.nonce }) in
      let step = receive randombytes s now from_a request (some socket_b) b in
      find_connection (randombytes b.next_random) b'.connection_table
        ≡ find_connection (randombytes b.next_random) step.0.connection_table
      → b'.listen ≡ true
      → (response confirm : Bytes) × (enc dec : DhtKey) × (let request =
            connection1_bytes (record { pubkey = a.pubkey; nonce = x.nonce }) in
          Emits
            (send_from (some socket_b) (some from_a) response)
            ((receive randombytes s now from_a request (some socket_b) b).1))
        × Emits
            (send_from (some socket_a) x.sockaddr confirm)
            ((receive randombytes s now from_b response (some socket_a) a).1)
        × Emits
            (complete result (connected (some socket_a) enc dec))
            ((receive randombytes s now from_b response (some socket_a) a).1)
        × Emits
            (new_connection a.id (some socket_b) dec enc)
            ((receive randombytes s now from_a' confirm none b').1)
handshake_agrees s sodium randombytes now from_a from_b from_a' a b b' x result socket_a socket_b k
      ha hb la lb lx lr hk hp hx hd hl hf hl' =
    let accepts = accept_request_lem s randombytes from_a k socket_b msg1 b in
    let step1 =
      receive_request s randombytes now from_a msg1 (some socket_b) b la lx
      ∙ connection_request_lem s randombytes from_a k socket_b msg1 b
          (ap (λ i. bytes_eq i b.id) (sym ha.1) ∙ hd) hl (shared_agrees s sodium a b k ha hb hk) in
    let found : find_connection nonce b'.connection_table ≡ some y =
      hf ∙ ap (λ p. find_connection nonce p.0.connection_table) step1 ∙ accepts.0 in
    let answered_step =
      response_accepted s from_b k socket_a msg2 x a hp.0 hp.1 (hx ∙ hb.1) hk refl in
    let step2 =
      receive_answer s randombytes now from_b msg2 (some socket_a) a lb lr lx
        (derive_tag_length s sodium k nonce x.nonce)
      ∙ answered_step.1 in
    let finishes = finish_response_lem s from_b k socket_a msg2 x result answered_step.0 hp.2 in
    (
      connection2_bytes msg2,
      connection3_bytes msg3,
      (key_derive s k x.nonce nonce).0,
      (key_derive s k nonce x.nonce).0,
      subst (λ p. Emits (send_from (some socket_b) (some from_a) (connection2_bytes msg2)) p.1)
          (sym step1) accepts.1,
      subst (λ p. Emits (send_from (some socket_a) x.sockaddr (connection3_bytes msg3)) p.1)
          (sym step2) finishes.0,
      subst
          (λ p.
            Emits
              (complete result (
                connected (some socket_a) (key_derive s k x.nonce nonce).0
                  (key_derive s k nonce x.nonce).0))
              p.1)
          (sym step2) finishes.1,
      subst
          (λ id.
            Emits
              (new_connection id (some socket_b) (key_derive s k nonce x.nonce).0
                (key_derive s k x.nonce nonce).0)
              ((receive randombytes s now from_a' (connection3_bytes msg3) none b').1))
          (sym ha.1)
          (subst
            (λ p.
              Emits
                (new_connection (id_from_pubkey s a.pubkey) (some socket_b)
                  (key_derive s k nonce x.nonce).0 (key_derive s k x.nonce nonce).0)
                p.1)
            (sym (
              receive_confirmation s randombytes now from_a' msg3 none b' lr
                (derive_tag_length s sodium k x.nonce nonce)))
            (connection_confirm_lem from_a' msg3 y b' found refl refl hl')),
    )
  where
    nonce : DhtKey
    nonce = randombytes b.next_random

    msg1 : MsgConnection1
    msg1 = record { pubkey = a.pubkey; nonce = x.nonce }

    msg2 : MsgConnection2
    msg2 = answer s randombytes from_a k socket_b msg1 b

    msg3 : MsgConnection3
    msg3 = confirmation s from_b k socket_a msg2 x

    y : DhtConnection
    y = accepted s randombytes from_a k socket_b msg1 b
