-- ===== src/App/Lost.antt =====
-- A session that is no longer the current one of its window.
use nanotalk.Base.{
  ℕ, ◌<◌, ◌≡◌, refl, sym, ap, ◌∙◌, inl, inr, Bool, true, false, Option, none, some, List, [], ◌∷◌,
  ◌==◌, if◌then◌else◌, if_both, Option-cases, arith,
}
use nanotalk.Common.{DhtId, DhtKey, Sodium}
use nanotalk.Common.Text.{Base64}
use nanotalk.Client.{Completion, Effect}
use nanotalk.Client.Run.{lookup_finish}
use nanotalk.Session.{Session, accept}
use nanotalk.App.{Dialog, App, find_session, modify_session, remove_session}
use nanotalk.App.Call.{
  entry_id, destroy_session, accept_session, open_session, remove_call, lookup_finished, call_start,
  call_stop, call_toggle, dialog_open, dialog_close, caller_text, new_connection,
}
use nanotalk.App.Steps.{
  Move, types, starts, stops, toggles, finishes, opens, responds, closes, hangs_up, session_moves,
  client_moves, AppStep, moves, arrives, crowds, AppSteps, here, later,
}

unfoldable pub is_live : ℕ → List (ℕ × Session) → Bool
is_live n [] = false
is_live n ((m, x) ∷ rest) = if m == n then true else is_live n rest

unfoldable pub is_current : ℕ → Option ℕ → Bool
is_current n none = false
is_current n (some m) = m == n

-- It has not been destroyed, and nothing in the window leads to it.
pub record IsLost (n : ℕ) (a : App) : Type 0 where
  pub known : n < a.next_session
  pub other : is_current n a.session ≡ false
  pub live : is_live n a.sessions ≡ true

is_live-modify_session :
    (n m : ℕ) (f : Session → Session) (xs : List (ℕ × Session))
    → is_live n (modify_session m f xs) ≡ is_live n xs
unfolding is_live modify_session
is_live-modify_session n m f [] = refl
is_live-modify_session n m f ((k, x) ∷ xs) = ground (arith, is_live-modify_session n m f xs)

is_live-remove_session :
    (n m : ℕ) (xs : List (ℕ × Session))
    → (m == n) ≡ false
    → is_live n xs ≡ true
    → is_live n (remove_session m xs) ≡ true
unfolding is_live remove_session
is_live-remove_session n m [] e h = h
is_live-remove_session n m ((k, x) ∷ xs) e h = ground (arith, is_live-remove_session n m xs e)

module _ (n : ℕ) where
  destroy_session-IsLost : (a : App) → IsLost n a → IsLost n (destroy_session a)
  unfolding is_current
  destroy_session-IsLost a h = elim (Option-cases a.session) [
    | inl e ↦ unfold destroy_session in rw (destroy_session, e) h
    | inr (m, e) ↦
        let other : (m == n) ≡ false = sym (ap (is_current n) e) ∙ h.other in
        elim (Option-cases (find_session m a.sessions)) [
          | inl e' ↦
              unfold destroy_session in
              rw (destroy_session, e, e') (record { known = h.known; other = refl; live = h.live })
          | inr (x, e') ↦
              unfold destroy_session in
              rw (destroy_session, e, e')
                (record {
                  known = h.known;
                  other = refl;
                  live = is_live-remove_session n m a.sessions other h.live;
                })
        ]
  ]

  call_stop-IsLost : (a : App) → IsLost n a → IsLost n (call_stop a)
  call_stop-IsLost a h =
      let k = destroy_session-IsLost a h in
      elim (Option-cases a.call_dialog) [
        | inl e ↦
            unfold call_stop in
            rw (call_stop, e) (record { known = k.known; other = k.other; live = k.live })
        | inr (m, e) ↦
            unfold call_stop in
            rw (call_stop, e) (record { known = h.known; other = h.other; live = h.live })
      ]

  open_session-IsLost :
      (on_hold : Bool) (enc dec : DhtKey) (a : App)
      → IsLost n a
      → IsLost n (open_session on_hold enc dec a)
  open_session-IsLost on_hold enc dec a h =
      unfold open_session is_current is_live in
      record {
        known = omega (arith, h.known);
        other = ground (arith, h.known);
        live = ground (arith, h.live);
      }

  lookup_finished-IsLost :
      (result : ℕ) (completion : Completion) (a : App)
      → IsLost n a
      → IsLost n (lookup_finished result completion a)
  lookup_finished-IsLost result completion a h =
      let a1 : App = record a { calls = remove_call result a.calls } in
      elim (Option-cases (lookup_finish completion)) [
        | inl e ↦
            unfold lookup_finished in
            rw (lookup_finished, e) (record { known = h.known; other = h.other; live = h.live })
        | inr (keys, e) ↦
            let k =
              open_session-IsLost false keys.1 keys.2 a1
                (record { known = h.known; other = h.other; live = h.live }) in
            unfold lookup_finished in
            rw (lookup_finished, e) (record { known = k.known; other = k.other; live = k.live })
      ]

  new_connection-IsLost :
      (b : Base64) (id : DhtId) (enc dec : DhtKey) (a : App)
      → IsLost n a
      → IsLost n (new_connection b id enc dec a)
  new_connection-IsLost b id enc dec a h =
      let k =
        open_session-IsLost true enc dec (record a { main_entry = caller_text b id a })
          (record { known = h.known; other = h.other; live = h.live }) in
      unfold new_connection in record { known = k.known; other = k.other; live = k.live }

  call_start-IsLost :
      (b : Base64) (randombytes : ℕ → DhtKey) (now : ℕ) (a : App)
      → IsLost n a
      → IsLost n (call_start b randombytes now a).0
  call_start-IsLost b randombytes now a h = elim (Option-cases (entry_id b a)) [
    | inl e ↦ unfold call_start in rw (call_start, e) h
    | inr (id, e) ↦
        unfold call_start in
        rw (call_start, e) (record { known = h.known; other = h.other; live = h.live })
  ]

  dialog_open-IsLost : (a : App) → IsLost n a → IsLost n (dialog_open a)
  dialog_open-IsLost a h = elim (Option-cases a.session) [
    | inl e ↦ unfold dialog_open in rw (dialog_open, e) h
    | inr (m, e) ↦
        unfold dialog_open in
        rw (dialog_open, e) (record { known = h.known; other = h.other; live = h.live })
  ]

  accept_session-IsLost : (a : App) → IsLost n a → IsLost n (accept_session a)
  accept_session-IsLost a h =
      elim a.session
        as (λ o. IsLost n (elim o [
          | none ↦ a
          | some m ↦ record a { sessions = modify_session m accept a.sessions }
        ])) [
          | none ↦ h
          | some m ↦ record {
            known = h.known;
            other = h.other;
            live = is_live-modify_session n m accept a.sessions ∙ h.live;
          }
        ]

  dialog_close-IsLost :
      (answer : Bool) (outer : List Dialog) (a : App)
      → IsLost n a
      → IsLost n (dialog_close answer outer a)
  dialog_close-IsLost answer outer a h =
      let a1 : App = record a { call_dialog = none; dialogs = outer } in
      let h1 : IsLost n a1 = record { known = h.known; other = h.other; live = h.live } in
      unfold dialog_close in
      if_both (IsLost n) answer _ _ (accept_session-IsLost a1 h1) (call_stop-IsLost a1 h1)

module _ (n : ℕ) (b : Base64) (s : Sodium) (randombytes : ℕ → DhtKey) where
  call_toggle-IsLost :
      (now : ℕ) (a : App) → IsLost n a → IsLost n (call_toggle b randombytes now a).0
  call_toggle-IsLost now a h =
      let P = λ (p : App × List Effect). IsLost n p.0 in
      unfold call_toggle in
      if_both P a.start_sensitive _ _ (call_start-IsLost n b randombytes now a h)
        (if_both P a.stop_sensitive _ _ (call_stop-IsLost n a h) h)

  Move-IsLost : {a a' : App} → IsLost n a → Move b s randombytes a a' → IsLost n a'
  Move-IsLost h (types a text) = record { known = h.known; other = h.other; live = h.live }
  Move-IsLost h (starts a now e) = call_start-IsLost n b randombytes now a h
  Move-IsLost h (stops a e) = call_stop-IsLost n a h
  Move-IsLost h (toggles a now) = call_toggle-IsLost now a h
  Move-IsLost h (finishes a result completion e) = lookup_finished-IsLost n result completion a h
  Move-IsLost h (opens a k e) =
      dialog_open-IsLost n (record a { queued = k })
        (record { known = h.known; other = h.other; live = h.live })
  Move-IsLost h (responds a k answer) = record { known = h.known; other = h.other; live = h.live }
  Move-IsLost h (closes a k answer outer e) = dialog_close-IsLost n answer outer a h
  Move-IsLost h (hangs_up a k x e) = call_stop-IsLost n a h
  Move-IsLost h (session_moves a k actor x y e step) = record {
    known = h.known;
    other = h.other;
    live = is_live-modify_session n k (λ x'. y) a.sessions ∙ h.live;
  }
  Move-IsLost h (client_moves a c e) = record { known = h.known; other = h.other; live = h.live }

  step-IsLost :
      {crowded : Bool} {a a' : App}
      → IsLost n a
      → AppStep b s randombytes crowded a a'
      → IsLost n a'
  step-IsLost h (moves m) = Move-IsLost h m
  step-IsLost h (arrives a id enc dec l e q d) = new_connection-IsLost n b id enc dec a h
  step-IsLost h (crowds a id enc dec l c) = new_connection-IsLost n b id enc dec a h

-- When a connection is signalled to a window that has a current session, one that is live and whose
-- number is an old one, then whatever happens afterwards, that session is never again the current one
-- and never destroyed.
pub second_caller_loses :
    (b : Base64) (s : Sodium) (randombytes : ℕ → DhtKey) (n : ℕ) (id : DhtId) (enc dec : DhtKey)
    (a a' : App)
    → a.session ≡ some n
    → is_live n a.sessions ≡ true
    → n < a.next_session
    → AppSteps b s randombytes true (new_connection b id enc dec a) a'
    → (is_current n a'.session ≡ false) × (is_live n a'.sessions ≡ true)
second_caller_loses b s randombytes n id enc dec a a' current live known steps =
    let lost = go steps in (lost.other, lost.live)
  where
    start : IsLost n (new_connection b id enc dec a)
    start =
        unfold new_connection open_session is_current is_live in
        record {
          known = omega (arith, known);
          other = ground (arith, known);
          live = ground (arith, live);
        }

    go : {x : App} → AppSteps b s randombytes true (new_connection b id enc dec a) x → IsLost n x
    go here = start
    go (later before step) = step-IsLost n b s randombytes (go before) step
