-- ===== src/Session/Callbacks.antt =====
-- The callbacks of src/rtp-session.c: those of the demultiplexer, of the buses and of the main loop.
use nanotalk.Base.{
  ℕ, ◌+◌, bit_and, Bool, true, false, not, ◌&&◌, Option, none, some, List, [], ◌∷◌, ◌++◌, ◌==◌, ltb,
  if◌then◌else◌, keep,
}
use nanotalk.Common.{Bytes}
use nanotalk.Rtp.{byte}
use nanotalk.Session.{
  Element, has_video_prefix, Session, remove_id, ring_sound, accept, video_src, video_enc,
  video_pay, video_rtp_sink, video_buffer, video_depay, video_dec, video_sink, fakesink,
  state_ready,
}

-- What `request_pt_map_cb` answers: the medium and its clock rate.
pub data Media : Type 0 where
  opus vp8 : ℕ → Media

unfoldable pub request_pt_map : ℕ → Option Media
request_pt_map pt =
    if pt == 96 then some (opus 48000) else if pt == 97 then some (vp8 90000) else none

-- `new_payload_type_cb`. The first audio packet makes the main loop call `accept_cb`.
unfoldable pub new_payload_type : ℕ → Session → Session
new_payload_type pt s =
    if pt == 96
    then record s {
      sources = s.next_source ∷ s.sources;
      idles = s.next_source ∷ s.idles;
      next_source = s.next_source + 1;
    }
    else if pt == 97
    then record s {
      rx_elements = s.rx_elements ++ (video_buffer ∷ video_depay ∷ video_dec ∷ video_sink ∷ []);
    }
    else record s { rx_elements = s.rx_elements ++ (fakesink ∷ []) }

-- `accept_cb` from the source `n`, which the main loop removes.
unfoldable pub accept_idle : ℕ → Session → Session
accept_idle n s =
    let s1 = accept s in
    record s1 { sources = remove_id n s1.sources; idles = remove_id n s1.idles }

-- A message on a bus: an error of an element, or another message.
pub data Message : Type 0 where
  error : Element → Message
  other : Message

-- The element is one of the four that the recovery removes.
unfoldable pub is_capture : Element → Bool
is_capture video_src = true
is_capture video_enc = true
is_capture video_pay = true
is_capture video_rtp_sink = true
is_capture _ = false

-- `bus_watch_cb`; the result says whether `hangup` is emitted.
unfoldable pub bus_watch : Message → Session → Session × Bool
bus_watch other s = (s, false)
bus_watch (error e) s =
    if has_video_prefix e && ltb 0 s.io_timeout_source
    then (if s.enable_video
        then (
          record s {
            enable_video = false;
            tx_state = state_ready;
            tx_elements = keep (λ x. not (is_capture x)) s.tx_elements;
            video_rtp = none;
          },
          false,
        )
        else (s, false))
    else (s, true)

-- `io_timeout_cb`: what it sends to the peer.
unfoldable pub io_timeout : Session → List Bytes
io_timeout s = [] ∷ []

-- `ca_timeout_cb`; libcanberra says whether the sound still plays.
unfoldable pub ca_timeout : Bool → Session → Session
ca_timeout true s = s
ca_timeout false s = record s { playing = some (ring_sound s.on_hold) }

-- The payload type of an RTP packet.
unfoldable pub payload_type : Bytes → ℕ
payload_type m = bit_and (byte m 1) 0x7f
