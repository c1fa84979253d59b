-- ===== src/Client/Results/Handshake.antt =====
-- No call gets lost where `dht_client_receive_cb` goes on with a connection of the table.
use nanotalk.Base.{
  ℕ, ◌+◌, ◌≡◌, refl, ap, ◌∙◌, inl, inr, not, ◌||◌, Option, none, some, Bool-cases, Option-cases,
  arith,
}
use nanotalk.Common.{
  DhtKey, SocketAddress, Sodium, id_equal, key_equal, key_derive, key_make_shared, id_from_pubkey,
}
use nanotalk.Message.{MsgConnection2, MsgConnection3}
use nanotalk.Client.{DhtConnection, Client, find_connection, store_connection, destroy_connection}
use nanotalk.Client.Tables.{find_connection-nonce, find-store_connection}
use nanotalk.Client.Connection.{
  finish_response, verify_response, connection_response, signal_connection, connection_confirm,
  complete_result,
}
use nanotalk.Client.Tally.{
  held, ended, ended-append, whereabouts, at_connection, at_connection_found,
  store_connection-count, remove_connection-count,
}
use nanotalk.Client.Results.{in_option, destroy_connection-ended, calls}

module _ (r : ℕ) where
  complete_result-ended :
      (o : Option ℕ) (x : DhtConnection) → ended (calls r) (complete_result o x) ≡ in_option r o
  complete_result-ended none x = unfold ended in refl
  complete_result-ended (some q) x = unfold ended in omega arith

  signal_connection-ended :
      (sockaddr : SocketAddress) (x : DhtConnection) (c : Client)
      → ended (calls r) (signal_connection sockaddr x c) ≡ 0
  signal_connection-ended sockaddr x c = unfold ended in ground arith

  pub connection_confirm-count :
      (sockaddr : SocketAddress) (msg : MsgConnection3) (c : Client)
      → whereabouts (calls r) (connection_confirm sockaddr msg c) ≡ held (calls r) c
  connection_confirm-count sockaddr msg c =
      elim (Option-cases (find_connection msg.peer_nonce c.connection_table)) [
        | inl e ↦ unfold connection_confirm ended in rw (connection_confirm, e) (omega arith)
        | inr (x, e) ↦
            elim (Bool-cases (not x.is_remote || not (key_equal x.auth_tag msg.auth_tag))) [
              | inl e' ↦
                  unfold connection_confirm ended in rw (connection_confirm, e, e') (omega arith)
              | inr e' ↦
                  unfold connection_confirm in
                  rw (connection_confirm, e, e')
                    (omega (
                      arith,
                      remove_connection-count (calls r) x.nonce c.connection_table,
                      ap (λ n. at_connection (calls r) n c.connection_table)
                          (find_connection-nonce msg.peer_nonce x c.connection_table e),
                      at_connection_found (calls r) msg.peer_nonce x c.connection_table e,
                      ended-append (calls r) (signal_connection sockaddr x c)
                          (destroy_connection x),
                      signal_connection-ended sockaddr x c,
                      destroy_connection-ended r x,
                    ))
            ]
      ]

  -- A connection of the table leaves it for its call.
  finish_response-count :
      (sockaddr : SocketAddress) (msg : MsgConnection2) (tag : DhtKey) (x : DhtConnection)
      (c : Client)
      → whereabouts (calls r) (finish_response sockaddr msg tag x c)
          + at_connection (calls r) x.nonce c.connection_table
        ≡ held (calls r) c + in_option r x.result
  finish_response-count sockaddr msg tag x c =
      unfold finish_response ended in
      omega (
        arith,
        remove_connection-count (calls r) x.nonce c.connection_table,
        complete_result-ended x.result x,
      )

module _ (r : ℕ) (s : Sodium) where
  -- A connection of the table whose call stays the same.
  set-count :
      (x y : DhtConnection) (c : Client)
      → find_connection x.nonce c.connection_table ≡ some y
      → in_option r x.result ≡ in_option r y.result
      → held (calls r) (record c { connection_table = store_connection x c.connection_table })
        ≡ held (calls r) c
  set-count x y c e same = omega (
    arith,
    store_connection-count (calls r) x c.connection_table,
    at_connection_found (calls r) x.nonce y c.connection_table e,
  )

  verify_response-count :
      (sockaddr : SocketAddress) (msg : MsgConnection2) (shared : DhtKey) (socket : Option ℕ)
      (x : DhtConnection) (c : Client)
      → find_connection x.nonce c.connection_table ≡ some x
      → whereabouts (calls r) (verify_response s sockaddr msg shared socket x c) ≡ held (calls r) c
  verify_response-count sockaddr msg shared socket x c e =
      let enc = key_derive s shared x.nonce msg.nonce in
      let dec = key_derive s shared msg.nonce x.nonce in
      let x1 : DhtConnection = record x { enc_key = enc.0; dec_key = dec.0; auth_tag = dec.1 } in
      let c1 : Client = record c { connection_table = store_connection x1 c.connection_table } in
      let kept = set-count x1 x c e refl in
      let found = find-store_connection x1 c.connection_table in
      elim (Bool-cases (key_equal dec.1 msg.auth_tag)) [
        | inl e' ↦ elim (Option-cases socket) [
          | inl closed ↦
              unfold verify_response ended in
              rw (verify_response, e', closed)
                (omega (arith, kept, set-count (record x1 { socket = none }) x1 c1 found refl))
          | inr (n, opened) ↦
              unfold verify_response in
              rw (verify_response, e', opened)
                (omega (
                  arith,
                  kept,
                  finish_response-count r sockaddr msg enc.1 (record x1 { socket = some n }) c1,
                  at_connection_found (calls r) x.nonce x1 c1.connection_table found,
                ))
        ]
        | inr e' ↦ unfold verify_response ended in rw (verify_response, e') (omega (arith, kept))
      ]

  pub connection_response-count :
      (sockaddr : SocketAddress) (msg : MsgConnection2) (socket : Option ℕ) (c : Client)
      → whereabouts (calls r) (connection_response s sockaddr msg socket c) ≡ held (calls r) c
  connection_response-count sockaddr msg socket c =
      elim (Option-cases (find_connection msg.peer_nonce c.connection_table)) [
        | inl e ↦ unfold connection_response ended in rw (connection_response, e) (omega arith)
        | inr (x, e) ↦
            elim (Bool-cases (x.is_remote || not (id_equal x.id (id_from_pubkey s msg.pubkey)))) [
              | inl e' ↦
                  unfold connection_response ended in rw (connection_response, e, e') (omega arith)
              | inr e' ↦ elim (Option-cases (key_make_shared s c.privkey msg.pubkey)) [
                | inl k ↦
                    unfold connection_response ended in
                    rw (connection_response, e, e', k) (omega arith)
                | inr (shared, k) ↦
                    unfold connection_response in
                    rw (connection_response, e, e', k)
                      (verify_response-count sockaddr msg shared socket x c (
                        ap (λ n. find_connection n c.connection_table)
                          (find_connection-nonce msg.peer_nonce x c.connection_table e)
                        ∙ e))
              ]
            ]
      ]
