-- ===== src/Session/Sources.antt =====
-- The sources of the main loop when a session is destroyed.
use nanotalk.Base.{count, ℕ, ◌+◌, ◌<◌, ◌≤◌, ◌≡◌, refl, ap, Bool, List, ltb, if◌then◌else◌, arith}
use nanotalk.Common.{DhtKey, Sodium}
use nanotalk.Session.{Session, new_session, remove_id, launch, destroy, finalize}
use nanotalk.Session.Callbacks.{payload_type}
use nanotalk.Session.Steps.{
  Actor, Step, answer, packet, first_packet, idle, message, replay, set, Steps, here, later,
}
use nanotalk.Session.Owned.{
  held_by, IsOwned, remove_id_exact, accept-IsOwned, new_session-IsOwned, launch-IsOwned,
  accept_idle-IsOwned, new_payload_type-IsOwned, bus_watch-IsOwned, set_property-IsOwned,
  ca_timeout-IsOwned,
}

-- `if(source > 0) g_source_remove(source)`.
abbrev drop_id : ℕ → List ℕ → List ℕ
drop_id m ms = if ltb 0 m then remove_id m ms else ms

count-drop_id :
    (m : ℕ) (ms : List ℕ)
    → held_by m m ≤ count m ms
    → (n : ℕ) → count n (drop_id m ms) + held_by n m ≡ count n ms
count-drop_id m ms h n = ground (arith, h, remove_id_exact n m ms)

destroy-sources :
    (s : Session)
    → 0 < s.rx_watch
    → 0 < s.tx_watch
    → (destroy s).sources
      ≡ drop_id s.tx_watch
          (drop_id s.rx_watch (drop_id s.ca_timeout_source (drop_id s.io_timeout_source s.sources)))
unfolding destroy finalize
destroy-sources s rx tx = ground arith

destroy-count : (s : Session) → IsOwned s → (n : ℕ) → count n (destroy s).sources ≡ count n s.idles
destroy-count s h n =
    let l1 = drop_id s.io_timeout_source s.sources in
    let l2 = drop_id s.ca_timeout_source l1 in
    let l3 = drop_id s.rx_watch l2 in
    let c1 =
      count-drop_id s.io_timeout_source s.sources (ground (arith, h.exact s.io_timeout_source)) in
    let c2 =
      count-drop_id s.ca_timeout_source l1
        (ground (arith, h.exact s.ca_timeout_source, c1 s.ca_timeout_source)) in
    let c3 =
      count-drop_id s.rx_watch l2
        (ground (arith, h.exact s.rx_watch, c1 s.rx_watch, c2 s.rx_watch)) in
    let c4 =
      count-drop_id s.tx_watch l3
        (ground (arith, h.exact s.tx_watch, c1 s.tx_watch, c2 s.tx_watch, c3 s.tx_watch)) in
    let e = ap (count n) (destroy-sources s h.rx h.tx) in
    let c1' = c1 n in
    let c2' = c2 n in
    let c3' = c3 n in let c4' = c4 n in omega (arith, h.exact n, c1', c2', c3', c4', e)

module _ (s : Sodium) where
  Step-IsOwned : {a : Actor} {x y : Session} → Step s a x y → IsOwned x → IsOwned y
  Step-IsOwned (answer x) h = accept-IsOwned x h
  Step-IsOwned (packet x r src m e) h = record {
    rx = h.rx;
    tx = h.tx;
    number = h.number;
    exact = h.exact;
  }
  Step-IsOwned (first_packet x r src m e) h =
      new_payload_type-IsOwned (payload_type m) (record x { src = src })
        (record { rx = h.rx; tx = h.tx; number = h.number; exact = h.exact })
  Step-IsOwned (idle x n rest e) h = accept_idle-IsOwned x n rest h e
  Step-IsOwned (message x m) h = bus_watch-IsOwned m x h
  Step-IsOwned (replay x b c) h = ca_timeout-IsOwned b x h
  Step-IsOwned (set x p value) h = set_property-IsOwned p value x h

  Steps-IsOwned : {x y : Session} → Steps s x y → IsOwned x → IsOwned y
  Steps-IsOwned here h = h
  Steps-IsOwned (later run step) h = Step-IsOwned step (Steps-IsOwned run h)

  -- A session that has been launched and is destroyed, whatever happened in between, leaves in the
  -- main loop each of its sources exactly as often as it waits to run `accept_cb`: its timers and the
  -- watches of its pipelines are gone, and an `accept_cb` that waits is not. The main loop's source
  -- numbers start above 0.
  pub destroyed_sources :
      (enc_key dec_key : DhtKey) (video incoming : Bool) (number : ℕ) (y : Session)
      → 0 < number
      → Steps s (launch incoming (new_session enc_key dec_key video number)) y
      → (n : ℕ) → count n (destroy y).sources ≡ count n y.idles
  unfolding new_session
  destroyed_sources enc_key dec_key video incoming number y pos run = destroy-count y (
      Steps-IsOwned run (
        launch-IsOwned incoming (new_session enc_key dec_key video number)
          (new_session-IsOwned enc_key dec_key video number pos) refl refl))
