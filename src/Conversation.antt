-- ===== src/Conversation.antt =====
-- A conversation between two programs: the handshake of Client, the windows of App that it calls, and
-- the packets that the sessions of both exchange.
use nanotalk.Base.{
  ℕ, ◌+◌, ◌^◌, ◌<◌, ◌≡◌, refl, sym, ap, ◌∙◌, Bool, true, false, Option, none, some, List, ◌∷◌,
  ==_self, length, bytes_eq, Bool-cases, inl, inr,
}
use nanotalk.Common.{
  Bytes, DhtId, DhtKey, SocketAddress, Sodium, IsSodium, key_size, key_make_shared,
}
use nanotalk.Common.Text.{Base64}
use nanotalk.Message.{connection1_bytes}
use nanotalk.Client.{
  DhtConnection, Client, connected, complete, new_connection, send_from, find_connection,
}
use nanotalk.Client.Connection.Handshake.{Emits, IsKeyed, IsPending}
use nanotalk.Client.Receive.{receive}
use nanotalk.Client.Agreement.{handshake_agrees}
use nanotalk.Client.Run.{lookup_finish}
use nanotalk.Rtp.Sink.{new_sink}
use nanotalk.Rtp.Source.{new_src, set_enable}
use nanotalk.Rtp.Channel.{transmit, arrived, IsRun, transmit_arrives}
use nanotalk.Session.{Session, new_session, set_property, launch, accept}
use nanotalk.App.{App, Dialog, find_session, modify_session}
use nanotalk.App.Call
use nanotalk.App.Call.{
  caller_text, remove_call, fresh_session, open_session, lookup_finished, dialog_open, dialog_close,
}

-- The session that a window has now.
abbrev pub Current : App → Session → Type 0
Current a x = (n : ℕ) × (a.session ≡ some n) × (find_session n a.sessions ≡ some x)

-- The window of the caller when its call is completed, and that of the called one when its user
-- answers the dialog.
abbrev pub connected_window : ℕ → Option ℕ → DhtKey → DhtKey → App → App
connected_window result socket enc_key dec_key a =
    lookup_finished result (connected socket enc_key dec_key) a

abbrev pub answered_window : Base64 → DhtId → DhtKey → DhtKey → List Dialog → App → App
answered_window b id enc_key dec_key outer a =
    dialog_close true outer (dialog_open (Call.new_connection b id enc_key dec_key a))

-- The session of a call that is active.
abbrev Active : DhtKey → DhtKey → Session → Type 0
Active enc_key dec_key x = (x.audio_rtp ≡ new_sink enc_key) × (x.src ≡ new_src dec_key)

find_head :
    (n : ℕ) (x : Session) (rest : List (ℕ × Session)) → find_session n ((n, x) ∷ rest) ≡ some x
unfolding find_session
find_head n x rest = rw (==_self n)

modify_head :
    (n : ℕ) (f : Session → Session) (x : Session) (rest : List (ℕ × Session))
    → modify_session n f ((n, x) ∷ rest) ≡ (n, f x) ∷ rest
unfolding modify_session
modify_head n f x rest = rw (==_self n)

fresh_session-Active :
    (enc_key dec_key : DhtKey) (a : App)
    → Active enc_key dec_key (fresh_session false enc_key dec_key a)
unfolding fresh_session launch set_property new_session new_src
fresh_session-Active enc_key dec_key a = elim (Bool-cases a.media.video_enable) [
  | inl e ↦ rw e (refl, refl)
  | inr e ↦ rw e (refl, refl)
]

accept-Active :
    (enc_key dec_key : DhtKey) (a : App)
    → Active enc_key dec_key (accept (fresh_session true enc_key dec_key a))
unfolding fresh_session launch set_property new_session new_src accept set_enable
accept-Active enc_key dec_key a = elim (Bool-cases a.media.video_enable) [
  | inl e ↦ rw e (refl, refl)
  | inr e ↦ rw e (refl, refl)
]

caller_session :
    (result : ℕ) (socket : Option ℕ) (enc_key dec_key : DhtKey) (a : App)
    → (x : Session) × Current (connected_window result socket enc_key dec_key a) x
      × Active enc_key dec_key x
unfolding lookup_finished lookup_finish open_session
caller_session result socket enc_key dec_key a =
    let a1 : App = record a { calls = remove_call result a.calls } in
    let x = fresh_session false enc_key dec_key a1 in
    (
      x,
      (a.next_session, refl, find_head a.next_session x a.sessions),
      fresh_session-Active enc_key dec_key a1,
    )

called_session :
    (b : Base64) (id : DhtId) (enc_key dec_key : DhtKey) (outer : List Dialog) (a : App)
    → (x : Session) × Current (answered_window b id enc_key dec_key outer a) x
      × Active enc_key dec_key x
unfolding dialog_close dialog_open Call.new_connection open_session
called_session b id enc_key dec_key outer a =
    let a1 : App = record a { main_entry = caller_text b id a } in
    let x = fresh_session true enc_key dec_key a1 in
    (
      accept x,
      (
        a.next_session,
        refl,
        ap (find_session a.next_session) (modify_head a.next_session accept x a.sessions)
            ∙ find_head a.next_session (accept x) a.sessions,
      ),
      accept-Active enc_key dec_key a1,
    )

-- What one of two sessions plays of the packets that the other is handed.
abbrev pub Hears : Sodium → Session → Session → List (Bool × Bytes) → Type 0
Hears s from to ms = transmit s from.audio_rtp to.src ms ≡ arrived ms

hear_with_keys :
    (s : Sodium) (enc_key dec_key enc_key' dec_key' : DhtKey) (from to : Session) (ssrc seq : ℕ)
    (ms : List (Bool × Bytes))
    → IsSodium s
    → Active enc_key dec_key from
    → Active dec_key' enc_key' to
    → enc_key ≡ enc_key'
    → seq < 2 ^ 16
    → IsRun ssrc none seq ms
    → seq + length ms < 2 ^ 64
    → Hears s from to ms
hear_with_keys s enc_key dec_key enc_key' dec_key' from to ssrc seq ms laws hf ht e h run r =
    ap (λ p. transmit s p to.src ms) hf.0
    ∙ ap (λ p. transmit s (new_sink enc_key) p ms) (ht.1 ∙ ap new_src (sym e))
    ∙ transmit_arrives s enc_key ssrc seq ms laws h run r

-- A call from one program to another ends in two sessions that hear each other. The datagrams of
-- the handshake complete the caller's call with the keys `enc` and `dec` and signal the callee's
-- window `dec` and `enc`. The session that the caller's window opens on the completion, and the one
-- that the callee's window opens on the signal and accepts when its user answers the dialog, are
-- the current ones of their windows, whatever the windows were before, and the audio packets that
-- each of them is handed come out of the source of the other, in their order, as far as the network
-- delivers them. It is assumed of the clients what the handshake needs: that both keep the keys of
-- their properties, that the exchange succeeds, that keys and nonces have their size, that the
-- connection is for the callee's identifier, which differs from the caller's, and that the callee
-- listens and keeps the connection until the third datagram. It is assumed of each stream that it
-- is a run of RTP packets of one SSRC with consecutive sequence numbers, of which the first that
-- arrives comes before the first roll-over and no `0x8000 - 1` in a row are lost, that a sealed
-- packet fits `PACKET_MTU`, and that the 64-bit index does not run out. And libsodium must keep its
-- laws.
pub call_delivers :
    (s : Sodium) (sodium : IsSodium s) (randombytes : ℕ → DhtKey) (now : ℕ)
    (from_a from_b from_a' : SocketAddress) (a b b' : Client) (x : DhtConnection)
    (result socket_a socket_b : ℕ) (k : DhtKey) (base64 : Base64) (caller callee : App)
    (outer : List Dialog) (ssrc_a seq_a ssrc_b seq_b : ℕ) (ms_a ms_b : List (Bool × Bytes))
    → IsKeyed s a
    → IsKeyed s b
    → length a.pubkey ≡ key_size
    → length b.pubkey ≡ key_size
    → length x.nonce ≡ key_size
    → length (randombytes b.next_random) ≡ key_size
    → key_make_shared s a.privkey b.pubkey ≡ some k
    → IsPending x result a
    → x.id ≡ b.id
    → bytes_eq a.id b.id ≡ false
    → b.listen ≡ true
    → let request = connection1_bytes (record { pubkey = a.pubkey; nonce = x.nonce }) in
      let step = receive randombytes s now from_a request (some socket_b) b in
      find_connection (randombytes b.next_random) b'.connection_table
        ≡ find_connection (randombytes b.next_random) step.0.connection_table
      → b'.listen ≡ true
      → seq_a < 2 ^ 16
      → IsRun ssrc_a none seq_a ms_a
      → seq_a + length ms_a < 2 ^ 64
      → seq_b < 2 ^ 16
      → IsRun ssrc_b none seq_b ms_b
      → seq_b + length ms_b < 2 ^ 64
      → (response confirm : Bytes) × (enc dec : DhtKey) × (xa xb : Session) × (let request =
            connection1_bytes (record { pubkey = a.pubkey; nonce = x.nonce }) in
          Emits
            (send_from (some socket_b) (some from_a) response)
            ((receive randombytes s now from_a request (some socket_b) b).1))
        × Emits
            (send_from (some socket_a) x.sockaddr confirm)
            ((receive randombytes s now from_b response (some socket_a) a).1)
        × Emits
            (complete result (connected (some socket_a) enc dec))
            ((receive randombytes s now from_b response (some socket_a) a).1)
        × Emits
            (new_connection a.id (some socket_b) dec enc)
            ((receive randombytes s now from_a' confirm none b').1)
        × Current (connected_window result (some socket_a) enc dec caller) xa
        × Current (answered_window base64 a.id dec enc outer callee) xb
        × Hears s xa xb ms_a
        × Hears s xb xa ms_b
call_delivers s sodium randombytes now from_a from_b from_a' a b b' x result socket_a socket_b k
      base64 caller callee outer ssrc_a seq_a ssrc_b seq_b ms_a ms_b ha hb la lb lx lr hk hp hx hd
      hl hf hl' qa ra na qb rb nb =
    let (response, confirm, enc, dec, sent, confirmed, completed, signalled) =
      handshake_agrees s sodium randombytes now from_a from_b from_a' a b b' x result socket_a
        socket_b k ha hb la lb lx lr hk hp hx hd hl hf hl' in
    let (xa, current_a, active_a) = caller_session result (some socket_a) enc dec caller in
    let (xb, current_b, active_b) = called_session base64 a.id dec enc outer callee in
    (
      response,
      confirm,
      enc,
      dec,
      xa,
      xb,
      sent,
      confirmed,
      completed,
      signalled,
      current_a,
      current_b,
      hear_with_keys s enc dec enc dec xa xb ssrc_a seq_a ms_a sodium active_a active_b refl qa ra
          na,
      hear_with_keys s dec enc dec enc xb xa ssrc_b seq_b ms_b sodium active_b active_a refl qb rb
          nb,
    )
