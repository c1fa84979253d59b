-- ===== src/Rtp/Channel.antt =====
-- A sender and a receiver with one key, joined by a network that loses packets.
use nanotalk.Base.{
  ℕ, suc, ◌+◌, ◌/◌, ◌%◌, ◌^◌, ◌<◌, ◌≡◌, refl, ap, ◌∙◌, Bool, true, false, Option, none, some, List,
  [], ◌∷◌, ◌++◌, length, take_all, arith,
}
use nanotalk.Common.{Bytes, DhtKey, Sodium, IsSodium}
use nanotalk.Rtp.{flow_ok, read_seq, read_ssrc, make_nonce}
use nanotalk.Rtp.Sink.{RtpSink, seal, render, render_mapped, count_packet, new_sink}
use nanotalk.Rtp.Source.{
  RtpSrc, RtpStream, Streams, Outcome, next, returned, datagram, packet_mtu, lookup_stream,
  store_stream, stream_roc, receive, new_src,
}
use nanotalk.Rtp.Rollover.{guess_roc_lem, guess_roc_first}
use nanotalk.Rtp.Delivery.{IsRtp, process-seal, length-seal}

-- What a call of the receiver hands on.
abbrev buffer_of : Outcome → List Bytes
buffer_of next = []
buffer_of (returned flow none) = []
buffer_of (returned flow (some m)) = m ∷ []

-- The receiver gets the packets that the sender has sent, one by one.
unfoldable pub accept : Sodium → RtpSrc → List Bytes → RtpSrc × List Bytes
accept s src [] = (src, [])
accept s src (packet ∷ packets) =
    let (src', outcome) = receive s src (datagram packet true true) in
    let (src'', buffers) = accept s src' packets in (src'', buffer_of outcome ++ buffers)

-- Each buffer is rendered; the flag says whether what is sent for it arrives.
unfoldable pub transmit : Sodium → RtpSink → RtpSrc → List (Bool × Bytes) → List Bytes
transmit s sink src [] = []
transmit s sink src ((arrives, m) ∷ ms) =
    let r = render s true sink (some m) in
    elim arrives [
      | true ↦ let (src', buffers) = accept s src r.sent in buffers ++ transmit s r.sink src' ms
      | false ↦ transmit s r.sink src ms
    ]

abbrev pub arrived : List (Bool × Bytes) → List Bytes
arrived [] = []
arrived ((true, m) ∷ ms) = m ∷ arrived ms
arrived ((false, m) ∷ ms) = arrived ms

-- `index` is near enough to the last index that arrived: before anything has, it is below the first
-- roll-over.
abbrev pub IsNear : Option ℕ → ℕ → Type 0
IsNear none index = index < 2 ^ 16
IsNear (some last) index = index < last + 0x8000

-- RTP packets of one stream with consecutive indices, and losses that are not too long.
abbrev pub IsRun : ℕ → Option ℕ → ℕ → List (Bool × Bytes) → Type 0
IsRun ssrc last index [] = Unit
IsRun ssrc last index ((true, m) ∷ ms) =
    IsRtp m
    × (read_seq m ≡ index % 2 ^ 16)
    × (read_ssrc m ≡ ssrc)
    × IsNear last index
    × IsRun ssrc (some index) (suc index) ms
IsRun ssrc last index ((false, m) ∷ ms) =
    IsRtp m × (read_seq m ≡ index % 2 ^ 16) × (read_ssrc m ≡ ssrc) × IsRun ssrc last (suc index) ms

lookup-store : (k : ℕ) (v : RtpStream) (m : Streams) → lookup_stream k (store_stream k v m) ≡ some v
unfolding lookup_stream store_stream
lookup-store k v [] = ground arith
lookup-store k v ((j, w) ∷ m) = ground (arith, lookup-store k v m)

abbrev stream_at : ℕ → RtpStream
stream_at last = record { roc = last / 2 ^ 16; seq_last = last % 2 ^ 16 }

-- What the receiver knows of the stream.
abbrev Knows : Option ℕ → ℕ → Option RtpStream → Type 0
Knows none index stream = stream ≡ none
Knows (some last) index stream = (stream ≡ some (stream_at last)) × (last < index)

Knows-suc :
    (last : Option ℕ) (index : ℕ) (stream : Option RtpStream)
    → Knows last index stream
    → Knows last (suc index) stream
Knows-suc none index stream h = h
Knows-suc (some last) index stream h = (h.0, omega arith)

stream_roc_lem :
    (last : Option ℕ) (index : ℕ) (stream : Option RtpStream)
    → Knows last index stream
    → IsNear last index
    → index < 2 ^ 64
    → stream_roc stream (index % 2 ^ 16) ≡ index / 2 ^ 16
unfolding stream_roc
stream_roc_lem none index stream h near r =
    rw (h, stream_roc) (guess_roc_first (index % 2 ^ 16) ∙ omega arith)
stream_roc_lem (some last) index stream h near r =
    rw (h.0, stream_roc) (guess_roc_lem last index (omega (arith, h.1)) near r)

render-IsRtp :
    (s : Sodium) (sink : RtpSink) (m : Bytes) (index : ℕ)
    → IsRtp m
    → sink.roc ≡ index / 2 ^ 16
    → read_seq m ≡ index % 2 ^ 16
    → suc index < 2 ^ 64
    → let r = render s true sink (some m) in
      (r.sink ≡ record sink { roc = suc index / 2 ^ 16 })
      × (r.sent
          ≡ seal s sink.key (make_nonce (index / 2 ^ 16) (index % 2 ^ 16) (read_ssrc m)) m ∷ [])
unfolding render render_mapped count_packet
render-IsRtp s sink m index rtp e q r = ground (arith, rtp.long, rtp.version)

module _ (s : Sodium) (laws : IsSodium s) (key : DhtKey) (ssrc : ℕ) where
  -- Sender and receiver before the packet with an index.
  record InStep (last : Option ℕ) (index : ℕ) (sink : RtpSink) (src : RtpSrc) : Type 0 where
    sink_key : sink.key ≡ key
    src_key : src.key ≡ key
    on : src.enable ≡ true
    roc : sink.roc ≡ index / 2 ^ 16
    knows : Knows last index (lookup_stream ssrc src.streams)

  abbrev sealed : ℕ → Bytes → Bytes
  sealed index m = seal s key (make_nonce (index / 2 ^ 16) (index % 2 ^ 16) ssrc) m

  abbrev moved : ℕ → RtpSrc → RtpSrc
  moved index src = record src { streams = store_stream ssrc (stream_at index) src.streams }

  receive-sealed :
      (last : Option ℕ) (index : ℕ) (sink : RtpSink) (src : RtpSrc) (m : Bytes)
      → InStep last index sink src
      → IsRtp m
      → read_seq m ≡ index % 2 ^ 16
      → read_ssrc m ≡ ssrc
      → IsNear last index
      → index < 2 ^ 64
      → receive s src (datagram (sealed index m) true true)
        ≡ (moved index src, returned flow_ok (some m))
  unfolding receive
  receive-sealed last index sink src m st rtp q p near r =
      rw
        (take_all packet_mtu (sealed index m)
          (omega (arith, length-seal s laws key nonce m rtp, rtp.short)))
        (process-seal s laws key nonce m rtp src st.src_key st.on same
          ∙ ap (λ v. (record src { streams = v }, returned flow_ok (some m))) stored)
    where
      nonce : Bytes
      nonce = make_nonce (index / 2 ^ 16) (index % 2 ^ 16) ssrc

      counter : stream_roc (lookup_stream ssrc src.streams) (index % 2 ^ 16) ≡ index / 2 ^ 16
      counter = stream_roc_lem last index (lookup_stream ssrc src.streams) st.knows near r

      same :
          nonce
          ≡ make_nonce
              (stream_roc (lookup_stream (read_ssrc m) src.streams) (read_seq m))
              (read_seq m)
              (read_ssrc m)
      same = rw (p, q, counter)

      stored :
          store_stream
            (read_ssrc m)
            (record {
              roc = stream_roc (lookup_stream (read_ssrc m) src.streams) (read_seq m);
              seq_last = read_seq m;
            })
            src.streams
          ≡ store_stream ssrc (stream_at index) src.streams
      stored = rw (p, q, counter)

  abbrev sink_at : ℕ → RtpSink
  sink_at index = record { key = key; roc = index / 2 ^ 16 }

  InStep-sent :
      (last : Option ℕ) (index : ℕ) (sink : RtpSink) (src src' : RtpSrc) (last' : Option ℕ)
      → InStep last index sink src
      → src'.key ≡ src.key
      → src'.enable ≡ src.enable
      → Knows last' (suc index) (lookup_stream ssrc src'.streams)
      → InStep last' (suc index) (sink_at (suc index)) src'
  InStep-sent last index sink src src' last' st k e h = record {
    sink_key = refl;
    src_key = k ∙ st.src_key;
    on = e ∙ st.on;
    roc = refl;
    knows = h;
  }

  accept-sealed :
      (last : Option ℕ) (index : ℕ) (sink : RtpSink) (src : RtpSrc) (m : Bytes)
      → receive s src (datagram (sealed index m) true true)
        ≡ (moved index src, returned flow_ok (some m))
      → accept s src (sealed index m ∷ []) ≡ (moved index src, m ∷ [])
  unfolding accept
  accept-sealed last index sink src m e = rw e

  transmit_lem :
      (last : Option ℕ) (index : ℕ) (sink : RtpSink) (src : RtpSrc) (ms : List (Bool × Bytes))
      → InStep last index sink src
      → IsRun ssrc last index ms
      → index + length ms < 2 ^ 64
      → transmit s sink src ms ≡ arrived ms
  unfolding transmit
  transmit_lem last index sink src [] st run r = refl
  transmit_lem last index sink src ((false, m) ∷ ms) st run r =
      let sent = render-IsRtp s sink m index run.0 st.roc run.1 (omega arith) in
      rw (sent.0, st.sink_key)
        (transmit_lem last (suc index) (sink_at (suc index)) src ms
          (InStep-sent last index sink src src last st refl refl
            (Knows-suc last index (lookup_stream ssrc src.streams) st.knows))
          run.3 (omega arith))
  transmit_lem last index sink src ((true, m) ∷ ms) st run r =
      let sent = render-IsRtp s sink m index run.0 st.roc run.1 (omega arith) in
      rw
        (
          sent.0,
          sent.1,
          st.sink_key,
          run.2,
          accept-sealed last index sink src m
              (receive-sealed last index sink src m st run.0 run.1 run.2 run.3 (omega arith)),
        )
        (ap (◌∷◌ m) (
          transmit_lem (some index) (suc index) (sink_at (suc index)) (moved index src) ms
            (InStep-sent last index sink src (moved index src) (some index) st refl refl
              (lookup-store ssrc (stream_at index) src.streams, omega arith))
            run.4 (omega arith)))

-- A sender and a receiver that start with one key lose nothing but what the network loses: of RTP
-- packets of one stream with consecutive sequence numbers, every packet that arrives is handed on
-- as it was rendered, in order, also across roll-overs of the sequence number. The first packet that
-- arrives must come before the first roll-over, no `0x8000 - 1` packets in a row may be lost, a sealed
-- packet must fit `PACKET_MTU`, the 64-bit index must not run out, and libsodium must keep its laws.
pub transmit_arrives :
    (s : Sodium) (key : DhtKey) (ssrc seq : ℕ) (ms : List (Bool × Bytes))
    → IsSodium s
    → seq < 2 ^ 16
    → IsRun ssrc none seq ms
    → seq + length ms < 2 ^ 64
    → transmit s (new_sink key) (new_src key) ms ≡ arrived ms
unfolding new_sink new_src lookup_stream
transmit_arrives s key ssrc seq ms laws h run r =
    transmit_lem s laws key ssrc none seq (new_sink key) (new_src key) ms
      (record { sink_key = refl; src_key = refl; on = refl; roc = omega arith; knows = refl }) run r
