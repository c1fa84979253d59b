-- ===== src/Session/Owned.antt =====
-- The sources of the main loop that call back into a session: each is accounted for by a field.
use nanotalk.Base.{
  count, ℕ, ◌+◌, ◌-◌, ◌<◌, ◌≡◌, ap, Bool, true, false, List, [], ◌∷◌, ◌==◌, ltb, ◌&&◌, min,
  if◌then◌else◌, ℕ_discrete, arith,
}
use nanotalk.Common.{DhtKey}
use nanotalk.Session.{
  Session, new_session, remove_id, stop_keepalive, stop_ringing, stop_hold, launch, accept,
  set_property, Property,
}
use nanotalk.Session.Callbacks.{
  new_payload_type, accept_idle, bus_watch, Message, error, other, ca_timeout,
}

-- A source number in a field; 0 is none.
abbrev pub held_by : ℕ → ℕ → ℕ
held_by n source = if ltb 0 source && (source == n) then 1 else 0

-- The sources that a session knows of, each in its field.
abbrev pub owned : ℕ → Session → ℕ
owned n s =
    held_by n s.rx_watch
    + held_by n s.tx_watch
    + held_by n s.io_timeout_source
    + held_by n s.ca_timeout_source
    + count n s.idles

-- Every source of the main loop is one that the session knows of, and the other way round.
pub record IsOwned (s : Session) : Type 0 where
  pub rx : 0 < s.rx_watch
  pub tx : 0 < s.tx_watch
  pub number : 0 < s.next_source
  pub exact : (n : ℕ) → count n s.sources ≡ owned n s

count-remove_id :
    (n m : ℕ) (ms : List ℕ)
    → count n (remove_id m ms) ≡ count n ms - (if m == n then min (count m ms) 1 else 0)
unfolding count remove_id
count-remove_id n m [] = ground arith
count-remove_id n m (k ∷ ms) = ground (arith, count-remove_id n m ms)

pub remove_id_exact :
    (n m : ℕ) (ms : List ℕ)
    → 0 < count m ms
    → count n (remove_id m ms) + (if m == n then 1 else 0) ≡ count n ms
remove_id_exact n m ms h = elim (ℕ_discrete m n) [
  | yes e ↦ ground (arith, count-remove_id n m ms, e, ap (λ (k : ℕ). count k ms) e)
  | no e ↦ ground (arith, count-remove_id n m ms, e)
]

module _ (s : Session) (h : IsOwned s) where
  stop_keepalive-IsOwned : IsOwned (stop_keepalive s)
  stop_keepalive-IsOwned = record {
    rx = ground (arith, h.rx);
    tx = ground (arith, h.tx);
    number = ground (arith, h.number);
    exact = λ n. ground (
      arith,
      h.exact n,
      h.exact s.io_timeout_source,
      remove_id_exact n s.io_timeout_source s.sources,
    );
  }

  stop_ringing-IsOwned : IsOwned (stop_ringing s)
  stop_ringing-IsOwned = record {
    rx = ground (arith, h.rx);
    tx = ground (arith, h.tx);
    number = ground (arith, h.number);
    exact = λ n. ground (
      arith,
      h.exact n,
      h.exact s.ca_timeout_source,
      remove_id_exact n s.ca_timeout_source s.sources,
    );
  }

  stop_hold-IsOwned : IsOwned (stop_hold s)
  stop_hold-IsOwned = record {
    rx = ground (arith, h.rx);
    tx = ground (arith, h.tx);
    number = ground (arith, h.number);
    exact = λ n. ground (arith, h.exact n);
  }

pub accept-IsOwned : (s : Session) → IsOwned s → IsOwned (accept s)
unfolding accept
accept-IsOwned s h =
    stop_ringing-IsOwned (stop_keepalive (stop_hold s))
      (stop_keepalive-IsOwned (stop_hold s) (stop_hold-IsOwned s h))

accept-idles : (s : Session) → (accept s).idles ≡ s.idles
unfolding accept
accept-idles s = ground arith

pub new_session-IsOwned :
    (enc_key dec_key : DhtKey) (video : Bool) (number : ℕ)
    → 0 < number
    → IsOwned (new_session enc_key dec_key video number)
unfolding new_session count
new_session-IsOwned enc_key dec_key video number pos = record {
  rx = pos;
  tx = omega arith;
  number = omega arith;
  exact = λ n. ground arith;
}

pub launch-IsOwned :
    (incoming : Bool) (s : Session)
    → IsOwned s
    → s.io_timeout_source ≡ 0
    → s.ca_timeout_source ≡ 0
    → IsOwned (launch incoming s)
unfolding launch count
launch-IsOwned incoming s h io ca = record {
  rx = ground (arith, h.rx);
  tx = ground (arith, h.tx);
  number = ground (arith, h.number);
  exact = λ n. ground (arith, h.exact n, h.number);
}

pub accept_idle-IsOwned :
    (s : Session) (m : ℕ) (rest : List ℕ)
    → IsOwned s
    → s.idles ≡ m ∷ rest
    → IsOwned (accept_idle m s)
unfolding accept_idle count
accept_idle-IsOwned s m rest h e =
    let a = accept-IsOwned s h in
    let here_m : 0 < count m (accept s).idles = rw (accept-idles s, e, count) (ground arith) in
    record {
      rx = a.rx;
      tx = a.tx;
      number = a.number;
      exact = λ n. omega (
        arith,
        a.exact n,
        a.exact m,
        here_m,
        remove_id_exact n m (accept s).sources,
        remove_id_exact n m (accept s).idles,
      );
    }

pub new_payload_type-IsOwned : (pt : ℕ) (s : Session) → IsOwned s → IsOwned (new_payload_type pt s)
unfolding new_payload_type count
new_payload_type-IsOwned pt s h = record {
  rx = ground (arith, h.rx);
  tx = ground (arith, h.tx);
  number = ground (arith, h.number);
  exact = λ n. ground (arith, h.exact n);
}

pub bus_watch-IsOwned : (m : Message) (s : Session) → IsOwned s → IsOwned (bus_watch m s).0
unfolding bus_watch
bus_watch-IsOwned other s h = h
bus_watch-IsOwned (error e) s h = record {
  rx = ground (arith, h.rx);
  tx = ground (arith, h.tx);
  number = ground (arith, h.number);
  exact = λ n. ground (arith, h.exact n);
}

pub set_property-IsOwned :
    (p : Property) (value : ℕ) (s : Session) → IsOwned s → IsOwned (set_property p value s)
unfolding set_property
set_property-IsOwned p value s h = record {
  rx = ground (arith, h.rx);
  tx = ground (arith, h.tx);
  number = ground (arith, h.number);
  exact = λ n. ground (arith, h.exact n);
}

pub ca_timeout-IsOwned : (b : Bool) (s : Session) → IsOwned s → IsOwned (ca_timeout b s)
unfolding ca_timeout
ca_timeout-IsOwned true s h = h
ca_timeout-IsOwned false s h = record { rx = h.rx; tx = h.tx; number = h.number; exact = h.exact }
