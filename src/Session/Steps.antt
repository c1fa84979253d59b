-- ===== src/Session/Steps.antt =====
-- What may happen to a session, and the life of a call as seen from outside: it rings, on either
-- side, and then it is active.
use nanotalk.Base.{ℕ, ◌<◌, ◌≡◌, Bool, true, false, not, some, List, [], ◌∷◌}
use nanotalk.Common.{Bytes, Sodium}
use nanotalk.Rtp.{flow_ok}
use nanotalk.Rtp.Source.{RtpSrc, Received, returned, receive}
use nanotalk.Session.{Session, state_ready, state_playing, Property, set_property, accept}
use nanotalk.Session.Callbacks.{
  Message, new_payload_type, accept_idle, bus_watch, ca_timeout, payload_type,
}

-- Who moves: the user, who answers or turns a knob, or the network, the pipelines and the timers.
pub data Actor : Type 0 where
  user_answers user_sets world : Actor

module _ (s : Sodium) where
  pub data Step : Actor → Session → Session → Type 0 where
    answer : (x : Session) → Step user_answers x (accept x)
    -- The receiver returns a packet, which may be the first with its payload type.
    packet :
        (x : Session) (r : Received) (src : RtpSrc) (m : Bytes)
        → receive s x.src r ≡ (src, returned flow_ok (some m))
        → Step world x (record x { src = src })
    first_packet :
        (x : Session) (r : Received) (src : RtpSrc) (m : Bytes)
        → receive s x.src r ≡ (src, returned flow_ok (some m))
        → Step world x (new_payload_type (payload_type m) (record x { src = src }))
    idle :
        (x : Session) (n : ℕ) (rest : List ℕ) → x.idles ≡ n ∷ rest → Step world x (accept_idle n x)
    message : (x : Session) (m : Message) → Step world x (bus_watch m x).0
    replay :
        (x : Session) (is_playing : Bool)
        → 0 < x.ca_timeout_source
        → Step world x (ca_timeout is_playing x)
    set : (x : Session) (p : Property) (value : ℕ) → Step user_sets x (set_property p value x)

  pub data Steps : Session → Session → Type 0 where
    here : {x : Session} → Steps x x
    later : {x y z : Session} {a : Actor} → Steps x y → Step a y z → Steps x z

  -- Steps of the world alone.
  pub data Waits : Session → Session → Type 0 where
    here : {x : Session} → Waits x x
    later : {x y z : Session} → Waits x y → Step world y z → Waits x z

module _ {s : Sodium} where
  -- Who moved in a run, the last one first.
  unfoldable pub movers : {x y : Session} → Steps s x y → List Actor
  movers here = []
  movers (later {a = a} run step) = a ∷ movers run

-- A call that rings here is `ringing true`, one that rings at the peer is `ringing false`.
pub data Phase : Type 0 where
  ringing : Bool → Phase
  active : Phase

-- The life of a call. The answer of the user makes it active, whatever it was; a knob changes nothing;
-- and the world may leave it as it is, or make active what rings at the peer.
pub data CallStep : Actor → Phase → Phase → Type 0 where
  answered : {p : Phase} → CallStep user_answers p active
  turned : {p : Phase} → CallStep user_sets p p
  waited : {p : Phase} → CallStep world p p
  picked_up : CallStep world (ringing false) active

-- The life of a call under the moves of a list, the last one first.
pub data CallSteps : List Actor → Phase → Phase → Type 0 where
  here : {p : Phase} → CallSteps [] p p
  later :
      {moves : List Actor} {p q r : Phase} {a : Actor}
      → CallSteps moves p q
      → CallStep a q r
      → CallSteps (a ∷ moves) p r

-- How a session shows its phase.
pub record IsRinging (incoming : Bool) (x : Session) : Type 0 where
  pub held : x.on_hold ≡ incoming
  pub enabled : x.src.enable ≡ not incoming
  pub keepalive : 0 < x.io_timeout_source
  pub rings : 0 < x.ca_timeout_source
  pub tx : x.tx_state ≡ state_ready
  pub rx : x.rx_state ≡ state_playing
  pub quiet : incoming ≡ true → x.idles ≡ []

pub record IsActive (x : Session) : Type 0 where
  pub held : x.on_hold ≡ false
  pub enabled : x.src.enable ≡ true
  pub keepalive : x.io_timeout_source ≡ 0
  pub rings : x.ca_timeout_source ≡ 0
  pub tx : x.tx_state ≡ state_playing
  pub rx : x.rx_state ≡ state_playing

abbrev pub Shows : Phase → Session → Type 0
Shows (ringing incoming) x = IsRinging incoming x
Shows active x = IsActive x
