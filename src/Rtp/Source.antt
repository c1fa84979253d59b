-- ===== src/Rtp/Source.antt =====
-- `rtp_src_create` of src/rtp-src.c: the loop that waits for an authentic packet.
use nanotalk.Base.{
  ℕ, ◌+◌, ◌-◌, Bool, true, not, ◌&&◌, ◌||◌, Option, none, some, List, [], ◌∷◌, ◌++◌, ◌==◌, ltb,
  if◌then◌else◌, length, take, drop,
}
use nanotalk.Common.{Bytes, DhtKey, Sodium, stream_xor, stream_verify}
use nanotalk.Rtp.{
  Flow, flow_ok, flow_error, flow_flushing, byte, read_seq, read_ssrc, make_nonce, header_size,
  mac_size,
}

-- `struct _RtpStream`.
pub record RtpStream : Type 0 where
  pub roc : ℕ
  pub seq_last : ℕ

-- The hash table `streams`, by SSRC.
abbrev pub Streams : Type 0
Streams = List (ℕ × RtpStream)

unfoldable pub lookup_stream : ℕ → Streams → Option RtpStream
lookup_stream ssrc [] = none
lookup_stream ssrc ((k, v) ∷ m) = if k == ssrc then some v else lookup_stream ssrc m

unfoldable pub store_stream : ℕ → RtpStream → Streams → Streams
store_stream ssrc v [] = (ssrc, v) ∷ []
store_stream ssrc v ((k, w) ∷ m) = if k == ssrc then (k, v) ∷ m else (k, w) ∷ store_stream ssrc v m

-- `struct _RtpSrc`, less the socket, the allocator and the cancellable.
pub record RtpSrc : Type 0 where
  pub key : DhtKey
  pub enable : Bool
  pub streams : Streams

-- `rtp_src_new` and `rtp_src_init`.
unfoldable pub new_src : DhtKey → RtpSrc
new_src key = record { key = key; enable = true; streams = [] }

-- `PROP_ENABLE` of `rtp_src_set_property`.
unfoldable pub set_enable : Bool → RtpSrc → RtpSrc
set_enable enable src = record src { enable = enable }

-- `PACKET_MTU`: a longer datagram is cut off.
abbrev pub packet_mtu : ℕ
packet_mtu = 1500

-- A return of `g_socket_receive`: a datagram, with the answers of the buffer allocation and of the
-- mapping that it may lead to; a negative length with no error; or an error.
pub data Received : Type 0 where
  datagram : Bytes → Bool → Bool → Received
  negative : Received
  cancelled : Received
  failed : Received

-- The two tests on the roll-over counter, the second on the result of the first.
unfoldable pub guess_roc : ℕ → ℕ → ℕ → ℕ
guess_roc seq_last roc seq =
    let roc1 =
      if ltb seq_last 0x8000 && (ltb (seq_last + 0x8000) seq && ltb 0 roc) then roc - 1 else roc in
    if ltb 0x7fff seq_last && (ltb seq (seq_last - 0x8000) && ltb roc1 0x1_0000_0000_0000)
    then roc1 + 1
    else roc1

-- The counter for a packet, from the state of its stream if there is one.
unfoldable pub stream_roc : Option RtpStream → ℕ → ℕ
stream_roc none seq = guess_roc 0 0 seq
stream_roc (some stream) seq = guess_roc stream.seq_last stream.roc seq

-- What becomes of one datagram: the loop goes on, or the function returns.
pub data Outcome : Type 0 where
  next : Outcome
  returned : Flow → Option Bytes → Outcome

module _ (s : Sodium) where
  -- Header and decrypted payload.
  unfoldable pub open_packet : DhtKey → Bytes → Bytes → Bytes
  open_packet key nonce packet =
      take header_size packet ++ stream_xor s (drop header_size packet) nonce key

  -- A packet whose length and first byte have been accepted; its last 16 bytes are the tag.
  unfoldable pub authenticate : Bool → Bool → RtpSrc → Bytes → RtpSrc × Outcome
  authenticate allocated mapped src packet =
      let seq = read_seq packet in
      let ssrc = read_ssrc packet in
      let roc = stream_roc (lookup_stream ssrc src.streams) seq in
      let nonce = make_nonce roc seq ssrc in
      let len = length packet - mac_size in
      if stream_verify s (drop len packet) (take len packet) nonce src.key
      then (let stream : RtpStream = record { roc = roc; seq_last = seq } in
          (
            record src { streams = store_stream ssrc stream src.streams },
            if not allocated || not mapped
                then returned flow_error none
                else returned flow_ok (some (open_packet src.key nonce (take len packet))),
          ))
      else (src, next)

  unfoldable pub process : Bool → Bool → RtpSrc → Bytes → RtpSrc × Outcome
  process allocated mapped src packet =
      let len = length packet in
      if len == 0 || not src.enable
      then (src, next)
      else if ltb (header_size + mac_size) len && (byte packet 0 == 0x80)
      then authenticate allocated mapped src packet
      else (src, next)

  -- The body of the loop.
  unfoldable pub receive : RtpSrc → Received → RtpSrc × Outcome
  receive src (datagram bs allocated mapped) = process allocated mapped src (take packet_mtu bs)
  receive src negative = (src, returned flow_error none)
  receive src cancelled = (src, returned flow_flushing none)
  receive src failed = (src, returned flow_error none)

  -- `rtp_src_create` over what the socket delivers: the source, the value returned with the buffer,
  -- and what is left. It still waits (`next`) when the list runs out.
  unfoldable pub create : RtpSrc → List Received → RtpSrc × Outcome × List Received
  create src [] = (src, next, [])
  create src (r ∷ rs) =
      let (src', outcome) = receive src r in
      elim outcome [
        | next ↦ create src' rs
        | returned flow buffer ↦ (src', returned flow buffer, rs)
      ]
