-- ===== src/Rtp/Authentic.antt =====
-- What `rtp_src_create` hands on, whatever the network delivers.
use nanotalk.Base.{
  ℕ, ◌+◌, ◌-◌, ◌≡◌, refl, sym, ap, subst, Bool, true, false, not, ◌&&◌, ◌||◌, none, some, List, [],
  ◌∷◌, ◌++◌, ◌==◌, ltb, if◌then◌else◌, length, take, drop, arith,
}
use nanotalk.Common.{Bytes, Sodium, stream_verify}
use nanotalk.Rtp.{flow_ok, flow_error, byte, read_seq, read_ssrc, make_nonce, mac_size, header_size}
use nanotalk.Rtp.Source.{
  RtpSrc, Outcome, next, returned, Received, datagram, negative, cancelled, failed, packet_mtu,
  lookup_stream, store_stream, stream_roc, open_packet, authenticate, process, receive, create,
}

module _ (s : Sodium) where
  -- The nonce under which the receiver reads a packet.
  abbrev pub packet_nonce : RtpSrc → Bytes → Bytes
  packet_nonce src packet =
      make_nonce (stream_roc (lookup_stream (read_ssrc packet) src.streams) (read_seq packet))
        (read_seq packet) (read_ssrc packet)

  -- The receiver is enabled, and the packet is longer than a header and a tag, with the version of RTP.
  abbrev pub IsAccepted : RtpSrc → Bytes → Type 0
  IsAccepted src packet =
      (src.enable ≡ true)
      × ((ltb (header_size + mac_size) (length packet) && (byte packet 0 == 0x80)) ≡ true)

  -- The buffer `m` is the decryption of `packet`, which is accepted and carries a valid tag under the
  -- receiver's key.
  abbrev pub IsGenuine : RtpSrc → Bytes → Bytes → Type 0
  IsGenuine src packet m =
      let len = length packet - mac_size in
      let nonce = packet_nonce src packet in
      IsAccepted src packet
      × (stream_verify s (drop len packet) (take len packet) nonce src.key ≡ true)
      × (m ≡ open_packet s src.key nonce (take len packet))

  -- After one packet: the receiver goes on with its state unchanged, or it returns, and a buffer only
  -- if it is that packet's.
  abbrev IsChecked : Bytes → RtpSrc → RtpSrc → Outcome → Type 0
  IsChecked packet src src' next = src' ≡ src
  IsChecked packet src src' (returned flow none) = src'.key ≡ src.key
  IsChecked packet src src' (returned flow (some m)) = (src'.key ≡ src.key) × IsGenuine src packet m

  -- After the deliveries `rs`, with `rest` of them left: the receiver waits with its state unchanged,
  -- or it returns, and a buffer only if it is that of the last datagram which it has read.
  abbrev pub IsGuarded : List Received → RtpSrc → RtpSrc × Outcome × List Received → Type 0
  IsGuarded rs src (src', next, rest) = src' ≡ src
  IsGuarded rs src (src', returned flow none, rest) = src'.key ≡ src.key
  IsGuarded rs src (src', returned flow (some m), rest) =
      (src'.key ≡ src.key)
      × ((passed : List Received) × (bs : Bytes) × (allocated : Bool) × (mapped : Bool) × (rs
            ≡ passed ++ (datagram bs allocated mapped ∷ rest))
          × IsGenuine src (take packet_mtu bs) m)

  guard_if :
      (packet : Bytes) (src : RtpSrc) (test : Bool) (p q : RtpSrc × Outcome)
      → (test ≡ true → IsChecked packet src p.0 p.1)
      → (test ≡ false → IsChecked packet src q.0 q.1)
      → let r = if test then p else q in IsChecked packet src r.0 r.1
  guard_if packet src true p q if_true if_false = if_true refl
  guard_if packet src false p q if_true if_false = if_false refl

  authenticate-IsChecked :
      (allocated mapped : Bool) (src : RtpSrc) (packet : Bytes)
      → IsAccepted src packet
      → let r = authenticate s allocated mapped src packet in IsChecked packet src r.0 r.1
  unfolding authenticate
  authenticate-IsChecked allocated mapped src packet accepted =
      guard_if packet src (stream_verify s (drop len packet) (take len packet) nonce src.key)
        (
          stored,
          if not allocated || not mapped
              then returned flow_error none
              else returned flow_ok (some (open_packet s src.key nonce (take len packet))),
        )
        (src, next)
        (λ valid.
          elim (not allocated || not mapped)
            as (λ b. IsChecked packet src stored (
              if b
              then returned flow_error none
              else returned flow_ok (some (open_packet s src.key nonce (take len packet))))) [
                | true ↦ refl
                | false ↦ (refl, (accepted, valid, refl))
              ])
        (λ invalid. refl)
    where
      roc : ℕ
      roc = stream_roc (lookup_stream (read_ssrc packet) src.streams) (read_seq packet)

      nonce : Bytes
      nonce = packet_nonce src packet

      len : ℕ
      len = length packet - mac_size

      stored : RtpSrc
      stored = record src {
        streams =
            store_stream (read_ssrc packet) (record { roc = roc; seq_last = read_seq packet })
              src.streams;
      }

  process-IsChecked :
      (allocated mapped : Bool) (src : RtpSrc) (packet : Bytes)
      → let r = process s allocated mapped src packet in IsChecked packet src r.0 r.1
  unfolding process
  process-IsChecked allocated mapped src packet =
      guard_if packet src ((length packet == 0) || not src.enable) (src, next)
        (if ltb (header_size + mac_size) (length packet) && (byte packet 0 == 0x80)
          then authenticate s allocated mapped src packet
          else (src, next))
        (λ e. refl)
        (λ e.
          guard_if packet src
            (ltb (header_size + mac_size) (length packet) && (byte packet 0 == 0x80))
            (authenticate s allocated mapped src packet) (src, next)
            (λ f. authenticate-IsChecked allocated mapped src packet (ground (arith, e), f))
            (λ f. refl))

  -- What `receive` does with one delivery, by the deliveries after it.
  receive-IsGuarded :
      (src : RtpSrc) (r : Received) (rs : List Received)
      → IsGuarded (r ∷ rs) src ((receive s src r).0, (receive s src r).1, rs)
  unfolding receive
  receive-IsGuarded src (datagram bs allocated mapped) rs =
      checked (process s allocated mapped src (take packet_mtu bs)).0
        (process s allocated mapped src (take packet_mtu bs)).1
        (process-IsChecked allocated mapped src (take packet_mtu bs))
    where
      checked :
          (src' : RtpSrc) (outcome : Outcome)
          → IsChecked (take packet_mtu bs) src src' outcome
          → IsGuarded (datagram bs allocated mapped ∷ rs) src (src', outcome, rs)
      checked src' next h = h
      checked src' (returned flow none) h = h
      checked src' (returned flow (some m)) h = (h.0, ([], bs, allocated, mapped, refl, h.1))
  receive-IsGuarded src negative rs = refl
  receive-IsGuarded src cancelled rs = refl
  receive-IsGuarded src failed rs = refl

  IsGuarded-later :
      (r : Received) (rs : List Received) (src src' : RtpSrc) (outcome : Outcome)
      (rest : List Received)
      → IsGuarded rs src (src', outcome, rest)
      → IsGuarded (r ∷ rs) src (src', outcome, rest)
  IsGuarded-later r rs src src' next rest h = h
  IsGuarded-later r rs src src' (returned flow none) rest h = h
  IsGuarded-later r rs src src' (returned flow (some m)) rest
        (same, (passed, bs, allocated, mapped, e, genuine)) =
      (same, (r ∷ passed, bs, allocated, mapped, ap (◌∷◌ r) e, genuine))

  -- Whatever the socket delivers, `rtp_src_create` hands on a buffer only if it is enabled and the last
  -- datagram that it has read, cut off at 1500 bytes, is longer than 28 bytes, starts with the byte
  -- 0x80, and carries a valid tag under the receiver's key and the nonce that its header and the state of
  -- the streams give; and the buffer is the decryption of that datagram. It never changes the key, and
  -- as long as it does not return, every datagram so far has left its state as it was.
  pub create-IsGuarded : (src : RtpSrc) (rs : List Received) → IsGuarded rs src (create s src rs)
  unfolding create
  create-IsGuarded src [] = refl
  create-IsGuarded src (r ∷ rs) =
      go (receive s src r).0 (receive s src r).1 (receive-IsGuarded src r rs)
        (create-IsGuarded src rs)
    where
      go :
          (src' : RtpSrc) (outcome : Outcome)
          → IsGuarded (r ∷ rs) src (src', outcome, rs)
          → IsGuarded rs src (create s src rs)
          → IsGuarded (r ∷ rs) src (elim outcome [
            | next ↦ create s src' rs
            | returned flow buffer ↦ (src', returned flow buffer, rs)
          ])
      go src' next e later =
          subst (λ x. IsGuarded (r ∷ rs) src (create s x rs)) (sym e)
            (IsGuarded-later r rs src (create s src rs).0 (create s src rs).1 (create s src rs).2
              later)
      go src' (returned flow none) h later = h
      go src' (returned flow (some m)) h later = h
