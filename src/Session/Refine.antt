-- ===== src/Session/Refine.antt =====
-- A session against the life of a call, and a call on hold against the world.
use nanotalk.Base.{ℕ, ◌<◌, ◌≡◌, refl, sym, ap, ◌∙◌, Bool, true, false, some, [], arith}
use nanotalk.Common.{Bytes, DhtKey, Sodium}
use nanotalk.Rtp.{flow_ok}
use nanotalk.Rtp.Source.{RtpSrc, Received, returned, receive}
use nanotalk.Session.{
  Session, new_session, Property, prop_video_bitrate, prop_audio_bitrate, prop_volume, set_property,
  launch, accept,
}
use nanotalk.Session.Callbacks.{
  Message, error, other, new_payload_type, accept_idle, bus_watch, ca_timeout, payload_type,
}
use nanotalk.Rtp.Source.{set_enable, new_src}
use nanotalk.Session.Hold.{receive-enable, receive_held}
use nanotalk.Session.Steps.{
  Actor, world, Step, answer, packet, first_packet, idle, message, replay, set, Steps, Waits, here,
  later, Phase, ringing, active, CallStep, answered, turned, waited, picked_up, CallSteps, movers,
  IsRinging, IsActive, Shows,
}

-- A session that has been launched rings.
pub launch-IsRinging :
    (incoming : Bool) (x : Session)
    → x.io_timeout_source ≡ 0
    → x.on_hold ≡ false
    → x.src.enable ≡ true
    → x.idles ≡ []
    → 0 < x.next_source
    → IsRinging incoming (launch incoming x)
unfolding launch set_enable
launch-IsRinging true x io hold on no_idle pos = ground arith
launch-IsRinging false x io hold on no_idle pos = ground arith

accept-IsActive : (p : Phase) (x : Session) → Shows p x → IsActive (accept x)
unfolding accept set_enable
accept-IsActive (ringing true) x h = ground arith
accept-IsActive (ringing false) x h = ground arith
accept-IsActive active x h = ground arith

set_property-Shows :
    (p : Phase) (q : Property) (value : ℕ) (x : Session)
    → Shows p x
    → Shows p (set_property q value x)
unfolding set_property
set_property-Shows (ringing b) prop_video_bitrate value x h = ground arith
set_property-Shows (ringing b) prop_audio_bitrate value x h = ground arith
set_property-Shows (ringing b) prop_volume value x h = ground arith
set_property-Shows active prop_video_bitrate value x h = ground arith
set_property-Shows active prop_audio_bitrate value x h = ground arith
set_property-Shows active prop_volume value x h = ground arith

bus_watch-Shows : (p : Phase) (m : Message) (x : Session) → Shows p x → Shows p (bus_watch m x).0
unfolding bus_watch
bus_watch-Shows p other x h = h
bus_watch-Shows (ringing b) (error e) x h = ground arith
bus_watch-Shows active (error e) x h = ground arith

ca_timeout-Shows : (p : Phase) (b : Bool) (x : Session) → Shows p x → Shows p (ca_timeout b x)
unfolding ca_timeout
ca_timeout-Shows p true x h = h
ca_timeout-Shows (ringing i) false x h = ground arith
ca_timeout-Shows active false x h = ground arith

new_payload_type-Shows :
    (p : Phase) (pt : ℕ) (x : Session)
    → x.src.enable ≡ true
    → Shows p x
    → Shows p (new_payload_type pt x)
unfolding new_payload_type
new_payload_type-Shows (ringing true) pt x on h = absurd (ground (arith, on, h.enabled))
new_payload_type-Shows (ringing false) pt x on h = ground arith
new_payload_type-Shows active pt x on h = ground arith

accept_idle-IsActive : (p : Phase) (n : ℕ) (x : Session) → Shows p x → IsActive (accept_idle n x)
unfolding accept_idle
accept_idle-IsActive p n x h =
    let a = accept-IsActive p x h in
    record {
      held = a.held;
      enabled = a.enabled;
      keepalive = a.keepalive;
      rings = a.rings;
      tx = a.tx;
      rx = a.rx;
    }

module _ (s : Sodium) where
  receiving-Shows :
      (p : Phase) (x : Session) (r : Received) (src : RtpSrc) (m : Bytes)
      → receive s x.src r ≡ (src, returned flow_ok (some m))
      → Shows p x
      → (src.enable ≡ true) × Shows p (record x { src = src })
  receiving-Shows (ringing true) x r src m e h = absurd (receive_held s x.src src r m h.enabled e)
  receiving-Shows (ringing false) x r src m e h =
      let on = ap (λ t. t.0.enable) (sym e) ∙ receive-enable s x.src r ∙ h.enabled in
      (
        on,
        record {
          held = h.held;
          enabled = on;
          keepalive = h.keepalive;
          rings = h.rings;
          tx = h.tx;
          rx = h.rx;
          quiet = h.quiet;
        },
      )
  receiving-Shows active x r src m e h =
      let on = ap (λ t. t.0.enable) (sym e) ∙ receive-enable s x.src r ∙ h.enabled in
      (
        on,
        record {
          held = h.held;
          enabled = on;
          keepalive = h.keepalive;
          rings = h.rings;
          tx = h.tx;
          rx = h.rx;
        },
      )

  -- Every step of a session is a step of the call.
  pub Step-CallStep :
      {a : Actor} {x y : Session}
      → Step s a x y
      → (p : Phase) → Shows p x
      → (q : Phase) × CallStep a p q × Shows q y
  Step-CallStep (answer x) p h = (active, answered, accept-IsActive p x h)
  Step-CallStep (packet x r src m e) p h = (p, waited, (receiving-Shows p x r src m e h).1)
  Step-CallStep (first_packet x r src m e) p h =
      let t = receiving-Shows p x r src m e h in
      (p, waited, new_payload_type-Shows p (payload_type m) (record x { src = src }) t.0 t.1)
  Step-CallStep (idle x n rest e) (ringing true) h = absurd (ground (arith, e, h.quiet refl))
  Step-CallStep (idle x n rest e) (ringing false) h =
      (active, picked_up, accept_idle-IsActive (ringing false) n x h)
  Step-CallStep (idle x n rest e) active h = (active, waited, accept_idle-IsActive active n x h)
  Step-CallStep (message x m) p h = (p, waited, bus_watch-Shows p m x h)
  Step-CallStep (replay x b c) p h = (p, waited, ca_timeout-Shows p b x h)
  Step-CallStep (set x q value) p h = (p, turned, set_property-Shows p q value x h)

  Steps-CallSteps :
      {x y : Session} (run : Steps s x y) (p : Phase)
      → Shows p x
      → (q : Phase) × CallSteps (movers run) p q × Shows q y
  unfolding movers
  Steps-CallSteps here p h = (p, CallSteps.here, h)
  Steps-CallSteps (later run step) p h =
      let (q, calls, shown) = Steps-CallSteps run p h in
      let (r, call, shown') = Step-CallStep step q shown in (r, CallSteps.later calls call, shown')

  -- The session refines the life of a call: a new session that has been launched rings, here if it
  -- was launched on hold and else at the peer, and whatever happens to it, its timers, its pipelines
  -- and its receiver show a phase that the call comes to under the same moves of the user and of the
  -- world. So an answer of the user always makes it active, a knob never changes the phase, and the
  -- world makes active only a call that rings at the peer. The main loop's source numbers start
  -- above 0.
  pub session_refines :
      (enc_key dec_key : DhtKey) (video incoming : Bool) (number : ℕ) (y : Session)
      → 0 < number
      → (run : Steps s (launch incoming (new_session enc_key dec_key video number)) y)
      → (p : Phase) × CallSteps (movers run) (ringing incoming) p × Shows p y
  unfolding new_session new_src
  session_refines enc_key dec_key video incoming number y pos run =
      Steps-CallSteps run (ringing incoming) (
        launch-IsRinging incoming (new_session enc_key dec_key video number) refl refl refl refl
          (omega arith))

  world-IsRinging : {x y : Session} → Step s world x y → IsRinging true x → IsRinging true y
  world-IsRinging step h = ringing_stays (Step-CallStep step (ringing true) h)
    where
      ringing_stays :
          {y : Session}
          → (q : Phase) × CallStep world (ringing true) q × Shows q y
          → IsRinging true y
      ringing_stays (q, waited, shown) = shown

  -- A call that rings here cannot be answered from outside: as long as the user does nothing, it
  -- rings, whatever datagrams, errors and timers come, and its receiver hands on no packet.
  pub waits_for_user :
      {x y : Session}
      → Waits s x y
      → IsRinging true x
      → IsRinging true y
        × ((r : Received) (src : RtpSrc) (m : Bytes)
            → ¬ (receive s y.src r ≡ (src, returned flow_ok (some m))))
  waits_for_user here h = (h, λ r src m e. receive_held s _ src r m h.enabled e)
  waits_for_user (later run step) h =
      let rings = world-IsRinging step (waits_for_user run h).0 in
      (rings, λ r src m e. receive_held s _ src r m rings.enabled e)
