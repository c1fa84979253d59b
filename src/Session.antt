-- ===== src/Session.antt =====
-- src/rtp-session.c: the state of `RtpSessionPrivate` and of the two pipelines, built with libcanberra
-- for the ringing sounds. GStreamer makes every element that it is asked for.
pub mod Callbacks
pub mod Steps
pub mod Refine
pub mod Owned
pub mod Sources
pub mod Hold
pub mod Answer
use nanotalk.Base.{
  ℕ, ◌+◌, Bool, true, false, Option, none, some, List, [], ◌∷◌, ◌==◌, ltb, if◌then◌else◌,
}
use nanotalk.Common.{DhtKey}
use nanotalk.Rtp.Sink.{RtpSink, new_sink}
use nanotalk.Rtp.Source.{RtpSrc, new_src, set_enable}

-- The elements of both pipelines by their variables in the code. The name of an RTP sink is that of
-- its variable without `rtp_`.
pub data Element : Type 0 where
  rtp_src rtp_demux audio_buffer audio_depay audio_dec volume audio_sink : Element
  audio_src audio_enc audio_pay audio_rtp_sink : Element
  video_src video_enc video_pay video_rtp_sink : Element
  video_buffer video_depay video_dec video_sink fakesink : Element

-- `g_str_has_prefix(name, "video_")`.
unfoldable pub has_video_prefix : Element → Bool
has_video_prefix video_src = true
has_video_prefix video_enc = true
has_video_prefix video_pay = true
has_video_prefix video_rtp_sink = true
has_video_prefix video_buffer = true
has_video_prefix video_depay = true
has_video_prefix video_dec = true
has_video_prefix video_sink = true
has_video_prefix _ = false

-- The states that the code asks for.
pub data GstState : Type 0 where
  state_null state_ready state_playing : GstState

pub data Sound : Type 0 where
  phone_incoming_call phone_outgoing_calling : Sound

-- `struct _RtpSessionPrivate`, with the pipelines, the properties of their elements, the sources of
-- the main loop that call back into the session, those among them that wait to run `accept_cb`, and
-- the next number of a source. A source number of 0 is none.
pub record Session : Type 0 where
  pub rx_elements : List Element
  pub tx_elements : List Element
  pub rx_state : GstState
  pub tx_state : GstState
  pub src : RtpSrc
  pub audio_rtp : RtpSink
  pub video_rtp : Option RtpSink
  pub rx_watch : ℕ
  pub tx_watch : ℕ
  pub io_timeout_source : ℕ
  pub ca_timeout_source : ℕ
  pub enable_video : Bool
  pub on_hold : Bool
  pub playing : Option Sound
  pub video_bitrate : Option ℕ
  pub audio_bitrate : Option ℕ
  pub volume_level : Option ℕ
  pub sources : List ℕ
  pub idles : List ℕ
  pub next_source : ℕ

-- `g_source_remove` on a list of source numbers.
unfoldable pub remove_id : ℕ → List ℕ → List ℕ
remove_id n [] = []
remove_id n (m ∷ ms) = if m == n then ms else m ∷ remove_id n ms

-- `rtp_session_init` and `rtp_session_new`, when the main loop is at source number `next`.
unfoldable pub new_session : DhtKey → DhtKey → Bool → ℕ → Session
new_session enc_key dec_key enable_video next = record {
  rx_elements =
      rtp_src ∷ rtp_demux ∷ audio_buffer ∷ audio_depay ∷ audio_dec ∷ volume ∷ audio_sink ∷ [];
  tx_elements =
      audio_src
      ∷ audio_enc
      ∷ audio_pay
      ∷ audio_rtp_sink
      ∷ (if enable_video then video_src ∷ video_enc ∷ video_pay ∷ video_rtp_sink ∷ [] else []);
  rx_state = state_null;
  tx_state = state_null;
  src = new_src dec_key;
  audio_rtp = new_sink enc_key;
  video_rtp = if enable_video then some (new_sink enc_key) else none;
  rx_watch = next;
  tx_watch = next + 1;
  io_timeout_source = 0;
  ca_timeout_source = 0;
  enable_video = enable_video;
  on_hold = false;
  playing = none;
  video_bitrate = none;
  audio_bitrate = none;
  volume_level = none;
  sources = next ∷ (next + 1) ∷ [];
  idles = [];
  next_source = next + 2;
}

pub data Property : Type 0 where
  prop_video_bitrate prop_audio_bitrate prop_volume : Property

-- `rtp_session_set_property`; a value is the number that stands for it.
unfoldable pub set_property : Property → ℕ → Session → Session
set_property prop_video_bitrate value s =
    if s.enable_video then record s { video_bitrate = some value } else s
set_property prop_audio_bitrate value s = record s { audio_bitrate = some value }
set_property prop_volume value s = record s { volume_level = some value }

-- `rtp_session_get_property`; `none` is the default of the element, or no answer.
unfoldable pub get_property : Property → Session → Option ℕ
get_property prop_video_bitrate s = if s.enable_video then s.video_bitrate else none
get_property prop_audio_bitrate s = s.audio_bitrate
get_property prop_volume s = s.volume_level

abbrev pub ring_sound : Bool → Sound
ring_sound on_hold = if on_hold then phone_incoming_call else phone_outgoing_calling

abbrev pub start_ringing : Bool → Session → Session
start_ringing on_hold s = record s {
  ca_timeout_source = s.next_source;
  sources = s.next_source ∷ s.sources;
  next_source = s.next_source + 1;
  playing = some (ring_sound on_hold);
}

abbrev pub start_hold : Bool → Session → Session
start_hold on_hold s =
    if on_hold then record s { on_hold = true; src = set_enable false s.src } else s

abbrev pub start_keepalive : Session → Session
start_keepalive s =
    if s.io_timeout_source == 0
    then record s {
      io_timeout_source = s.next_source;
      sources = s.next_source ∷ s.sources;
      next_source = s.next_source + 1;
      tx_state = state_ready;
      rx_state = state_playing;
    }
    else s

-- `rtp_session_launch`.
unfoldable pub launch : Bool → Session → Session
launch on_hold s = start_keepalive (start_hold on_hold (start_ringing on_hold s))

abbrev pub stop_hold : Session → Session
stop_hold s = if s.on_hold then record s { on_hold = false; src = set_enable true s.src } else s

abbrev pub stop_keepalive : Session → Session
stop_keepalive s =
    if ltb 0 s.io_timeout_source
    then record s {
      sources = remove_id s.io_timeout_source s.sources;
      io_timeout_source = 0;
      tx_state = state_playing;
    }
    else s

abbrev pub stop_ringing : Session → Session
stop_ringing s =
    if ltb 0 s.ca_timeout_source
    then record s {
      sources = remove_id s.ca_timeout_source s.sources;
      ca_timeout_source = 0;
      playing = none;
    }
    else s

-- `rtp_session_accept`.
unfoldable pub accept : Session → Session
accept s = stop_ringing (stop_keepalive (stop_hold s))

-- `rtp_session_finalize`: the watches of the two pipelines and the sound go.
unfoldable pub finalize : Session → Session
finalize s = record s {
  sources = remove_id s.tx_watch (remove_id s.rx_watch s.sources);
  playing = none;
}

-- `rtp_session_destroy` on the last reference.
unfoldable pub destroy : Session → Session
destroy s =
    let s1 : Session = record s { rx_state = state_null; tx_state = state_null } in
    let s2 : Session =
      if ltb 0 s1.io_timeout_source
      then record s1 { sources = remove_id s1.io_timeout_source s1.sources }
      else s1 in
    let s3 : Session =
      if ltb 0 s2.ca_timeout_source
      then record s2 { sources = remove_id s2.ca_timeout_source s2.sources; playing = none }
      else s2 in
    finalize s3
