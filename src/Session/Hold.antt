-- ===== src/Session/Hold.antt =====
-- A disabled receiver, which is that of a call on hold, and what a receiver leaves alone.
use nanotalk.Base.{◌≡◌, refl, Bool, false, some, take, arith}
use nanotalk.Common.{Bytes, Sodium}
use nanotalk.Rtp.{flow_ok}
use nanotalk.Rtp.Source.{
  RtpSrc, Received, datagram, negative, cancelled, failed, next, returned, packet_mtu, authenticate,
  process, receive,
}

module _ (s : Sodium) where
  authenticate-enable :
      (allocated mapped : Bool) (src : RtpSrc) (packet : Bytes)
      → (authenticate s allocated mapped src packet).0.enable ≡ src.enable
  unfolding authenticate
  authenticate-enable allocated mapped src packet = ground arith

  process-enable :
      (allocated mapped : Bool) (src : RtpSrc) (packet : Bytes)
      → (process s allocated mapped src packet).0.enable ≡ src.enable
  unfolding process
  process-enable allocated mapped src packet =
      ground (arith, authenticate-enable allocated mapped src packet)

  pub receive-enable : (src : RtpSrc) (r : Received) → (receive s src r).0.enable ≡ src.enable
  unfolding receive
  receive-enable src (datagram bs allocated mapped) =
      process-enable allocated mapped src (take packet_mtu bs)
  receive-enable src negative = refl
  receive-enable src cancelled = refl
  receive-enable src failed = refl

  process_held :
      (allocated mapped : Bool) (src : RtpSrc) (packet : Bytes)
      → src.enable ≡ false
      → process s allocated mapped src packet ≡ (src, next)
  unfolding process
  process_held allocated mapped src packet e = ground arith

  -- A disabled receiver hands nothing on.
  pub receive_held :
      (src src' : RtpSrc) (r : Received) (m : Bytes)
      → src.enable ≡ false
      → (receive s src r ≡ (src', returned flow_ok (some m)))
      → ⊥
  unfolding receive
  receive_held src src' (datagram bs allocated mapped) m e h =
      ground (arith, process_held allocated mapped src (take packet_mtu bs) e)
  receive_held src src' negative m e h = ground arith
  receive_held src src' cancelled m e h = ground arith
  receive_held src src' failed m e h = ground arith
