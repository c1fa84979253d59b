-- ===== src/Rtp/Delivery.antt =====
-- From `rtp_sink_render` through the network to `rtp_src_create`.
use nanotalk.Base.{
  ℕ, zero, suc, ◌+◌, ◌-◌, ◌≤◌, ◌<◌, ◌≡◌, refl, ◌∙◌, true, some, [], ◌∷◌, ◌++◌, length, get_or, take,
  drop, length-append, length-take, length-drop, take-append-drop, take-append_left,
  drop-append_left, bytes_eq_self, arith,
}
use nanotalk.Common.{Bytes, DhtKey, Sodium, IsSodium, stream_xor, stream_auth, stream_verify}
use nanotalk.Rtp.{flow_ok, byte, read_seq, read_ssrc, make_nonce, header_size, mac_size}
use nanotalk.Rtp.Sink.{seal}
use nanotalk.Rtp.Source.{
  RtpSrc, returned, packet_mtu, lookup_stream, store_stream, stream_roc, open_packet, authenticate,
  process,
}

get_or-append_left : (xs ys : Bytes) (i : ℕ) → i < length xs → get_or (xs ++ ys) i 0 ≡ get_or xs i 0
get_or-append_left [] ys i h = absurd (omega arith)
get_or-append_left (x ∷ xs) ys zero h = refl
get_or-append_left (x ∷ xs) ys (suc i) h = get_or-append_left xs ys i (omega arith)

get_or-take : (n : ℕ) (xs : Bytes) (i : ℕ) → i < n → get_or (take n xs) i 0 ≡ get_or xs i 0
get_or-take zero xs i h = absurd (omega arith)
get_or-take (suc n) [] i h = refl
get_or-take (suc n) (x ∷ xs) zero h = refl
get_or-take (suc n) (x ∷ xs) (suc i) h = get_or-take n xs i (omega arith)

-- A buffer that `rtp_sink_render` accepts, and that fits the receiver's buffer when it is sealed.
pub record IsRtp (m : Bytes) : Type 0 where
  pub long : header_size < length m
  pub version : byte m 0 ≡ 0x80
  pub short : length m + mac_size ≤ packet_mtu

module _ (s : Sodium) (laws : IsSodium s) (key : DhtKey) (nonce m : Bytes) (rtp : IsRtp m) where
  abbrev body : Bytes
  body = take header_size m ++ stream_xor s (drop header_size m) nonce key

  length-head : length (take header_size m) ≡ header_size
  length-head = omega (arith, length-take header_size m, rtp.long)

  length-body : length body ≡ length m
  unfolding stream_xor
  length-body = omega (
    arith,
    length-append (take header_size m) (stream_xor s (drop header_size m) nonce key),
    laws.xor_length (drop header_size m) nonce 1 key,
    length-drop header_size m,
    length-head,
    rtp.long,
  )

  -- The header is sent in the clear.
  byte-seal : (i : ℕ) → i < header_size → byte (seal s key nonce m) i ≡ byte m i
  unfolding seal
  byte-seal i h =
      get_or-append_left body (stream_auth s body nonce key) i
        (omega (arith, length-body, rtp.long))
      ∙ get_or-append_left (take header_size m) (stream_xor s (drop header_size m) nonce key) i
          (omega (arith, length-head))
      ∙ get_or-take header_size m i h

  pub length-seal : length (seal s key nonce m) ≡ length m + mac_size
  unfolding seal stream_auth
  length-seal = omega (
    arith,
    length-append body (stream_auth s body nonce key),
    laws.auth_length body (s.stream 64 nonce key),
    length-body,
  )

  seq-seal : read_seq (seal s key nonce m) ≡ read_seq m
  unfolding read_seq
  seq-seal = omega (arith, byte-seal 2 (omega arith), byte-seal 3 (omega arith))

  ssrc-seal : read_ssrc (seal s key nonce m) ≡ read_ssrc m
  unfolding read_ssrc
  ssrc-seal = omega (
    arith,
    byte-seal 8 (omega arith),
    byte-seal 9 (omega arith),
    byte-seal 10 (omega arith),
    byte-seal 11 (omega arith),
  )

  abbrev cut : ℕ
  cut = length (seal s key nonce m) - mac_size

  cut-body : length body ≡ cut
  cut-body = omega (arith, length-body, length-seal)

  take-seal : take cut (seal s key nonce m) ≡ body
  take-seal = unfold seal in take-append_left cut body (stream_auth s body nonce key) cut-body

  drop-seal : drop cut (seal s key nonce m) ≡ stream_auth s body nonce key
  drop-seal = unfold seal in drop-append_left cut body (stream_auth s body nonce key) cut-body

  open-body : open_packet s key nonce body ≡ m
  unfolding open_packet stream_xor
  open-body =
      rw
        (
          take-append_left header_size head payload length-head,
          drop-append_left header_size head payload length-head,
          laws.xor_twice (drop header_size m) nonce 1 key,
        )
        (take-append-drop header_size m)
    where
      head : Bytes
      head = take header_size m

      payload : Bytes
      payload = s.stream_xor_ic (drop header_size m) nonce 1 key

  verify-seal :
      stream_verify s (drop cut (seal s key nonce m)) (take cut (seal s key nonce m)) nonce key
      ≡ true
  verify-seal = rw (drop-seal, take-seal) (unfold stream_verify stream_auth in bytes_eq_self _)

  module _ (src : RtpSrc) (key_eq : src.key ≡ key) where
    abbrev roc : ℕ
    roc = stream_roc (lookup_stream (read_ssrc m) src.streams) (read_seq m)

    abbrev stored : RtpSrc
    stored = record src {
      streams =
          store_stream (read_ssrc m) (record { roc = roc; seq_last = read_seq m }) src.streams;
    }

    authenticate-seal :
        nonce ≡ make_nonce roc (read_seq m) (read_ssrc m)
        → authenticate s true true src (seal s key nonce m) ≡ (stored, returned flow_ok (some m))
    unfolding authenticate
    authenticate-seal e = rw (seq-seal, ssrc-seal, ← e, key_eq, verify-seal, take-seal, open-body)

    -- A packet that the sender seals is authenticated by an enabled receiver with the same key and the
    -- same nonce, and the buffer handed on is the one that was sealed; the state of the stream becomes
    -- the guessed counter and the packet's sequence number. The buffer must be a valid RTP packet that
    -- fits the MTU when it is sealed, and libsodium must keep its laws.
    pub process-seal :
        src.enable ≡ true
        → nonce ≡ make_nonce roc (read_seq m) (read_ssrc m)
        → process s true true src (seal s key nonce m) ≡ (stored, returned flow_ok (some m))
    unfolding process
    process-seal on e =
        ground (
          arith,
          authenticate-seal e,
          length-seal,
          byte-seal 0 (omega arith),
          rtp.long,
          rtp.version,
        )
