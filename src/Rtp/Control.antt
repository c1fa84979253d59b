-- ===== src/Rtp/Control.antt =====
-- The life of the elements of src/rtp-src.c and src/rtp-sink.c around their packets: the cancellable
-- by which GStreamer ends a wait, the allocator, their properties, and what they release. A socket
-- and an allocator are numbers.
use nanotalk.Base.{
  ℕ, Bool, true, false, Option, none, some, List, [], ◌∷◌, ◌++◌, ◌≡◌, refl, map, if◌then◌else◌,
}
use nanotalk.Common.{DhtKey, Sodium}
use nanotalk.Rtp.{flow_flushing}
use nanotalk.Rtp.Sink.{RtpSink}
use nanotalk.Rtp.Source.{RtpSrc, Received, cancelled, returned, receive, create}

-- The fields of `struct _RtpSrc` that `RtpSrc` leaves out.
pub record Control : Type 0 where
  pub socket : Option ℕ
  pub allocator : Option ℕ
  pub is_cancelled : Bool

pub data Released : Type 0 where
  allocator_ref socket_ref : ℕ → Released
  cancellable_ref streams_table : Released

unfoldable pub release : (ℕ → Released) → Option ℕ → List Released
release f none = []
release f (some n) = f n ∷ []

-- `rtp_src_init` and `PROP_SOCKET` of `rtp_src_set_property`.
unfoldable pub new_control : ℕ → Control
new_control socket = record { socket = some socket; allocator = none; is_cancelled = false }

-- `rtp_src_negotiate`. The parent's answer comes with the allocator that was agreed on.
unfoldable pub negotiate : Option (Option ℕ) → Control → (Control × List Released) × Bool
negotiate none c = ((c, []), false)
negotiate (some allocator) c =
    ((record c { allocator = allocator }, release allocator_ref c.allocator), true)

unfoldable pub unlock : Control → Control
unlock c = record c { is_cancelled = true }

unfoldable pub unlock_stop : Control → Control
unlock_stop c = record c { is_cancelled = false }

-- `rtp_src_finalize`.
unfoldable pub finalize_src : Control → List Released
finalize_src c =
    release allocator_ref c.allocator
    ++ (release socket_ref c.socket ++ (cancellable_ref ∷ streams_table ∷ []))

-- `rtp_sink_finalize`.
unfoldable pub finalize_sink : Option ℕ → List Released
finalize_sink socket = release socket_ref socket

-- A property of an element.
pub data Value : Type 0 where
  key_value : DhtKey → Value
  socket_value : Option ℕ → Value
  enable_value : Bool → Value

pub data Property : Type 0 where
  prop_key prop_socket prop_enable : Property

-- `rtp_src_get_property`.
unfoldable pub src_property : Property → RtpSrc → Control → Value
src_property prop_key src c = key_value src.key
src_property prop_socket src c = socket_value c.socket
src_property prop_enable src c = enable_value src.enable

-- `rtp_sink_get_property`, which has no `PROP_ENABLE`.
unfoldable pub sink_property : Property → RtpSink → Option ℕ → Option Value
sink_property prop_key sink socket = some (key_value sink.key)
sink_property prop_socket sink socket = some (socket_value socket)
sink_property prop_enable sink socket = none

-- What `g_socket_receive` returns under a cancellable: `G_IO_ERROR_CANCELLED` once it is cancelled.
abbrev pub under : Control → Received → Received
under c r = if c.is_cancelled then cancelled else r

-- An element that is unlocked stops waiting: the next turn of its loop returns `GST_FLOW_FLUSHING`,
-- whatever has arrived, and changes nothing of the source.
create-unlock :
    (s : Sodium) (src : RtpSrc) (c : Control) (r : Received) (rs : List Received)
    → create s src (map (under (unlock c)) (r ∷ rs))
      ≡ (src, returned flow_flushing none, map (under (unlock c)) rs)
unfolding create receive unlock
create-unlock s src c r rs = refl
