-- ===== src/App/Ready.antt =====
-- When a window waits: its buttons, and the lookups that are under way.
use nanotalk.Base.{
  ℕ, ◌<◌, ◌≡◌, ◌⊎◌, inl, inr, refl, Bool, true, false, Option, none, List, length, if_both,
  Option-cases, arith,
}
use nanotalk.Common.{DhtKey, Sodium}
use nanotalk.Common.Text.{Base64}
use nanotalk.Client.{Client, Completion, Effect}
use nanotalk.Client.Run.{lookup_finish}
use nanotalk.App.{Dialog, App, Media, startup}
use nanotalk.App.Call.{
  entry_id, accept_session, lookup_finished, call_start, call_stop, call_toggle, dialog_open,
  dialog_close, new_connection,
}
use nanotalk.App.Steps.{
  Move, types, starts, stops, toggles, finishes, opens, responds, closes, hangs_up, session_moves,
  client_moves, AppStep, moves, arrives, crowds, AppSteps, here, later,
}

-- A button can be pressed, or a call is looked up.
abbrev pub IsReady : App → Type 0
IsReady a = (a.start_sensitive ≡ true) ⊎ ((a.stop_sensitive ≡ true) ⊎ (0 < length a.calls))

call_stop-IsReady : (a : App) → IsReady a → IsReady (call_stop a)
unfolding call_stop
call_stop-IsReady a h = elim (Option-cases a.call_dialog) [
  | inl e ↦ rw (call_stop, e) (inl refl)
  | inr (n, e) ↦ rw (call_stop, e) h
]

lookup_finished-IsReady :
    (result : ℕ) (completion : Completion) (a : App) → IsReady (lookup_finished result completion a)
unfolding lookup_finished
lookup_finished-IsReady result completion a = elim (Option-cases (lookup_finish completion)) [
  | inl e ↦ rw (lookup_finished, e) (inl refl)
  | inr (keys, e) ↦ rw (lookup_finished, e) (inr (inl refl))
]

module _ (b : Base64) (s : Sodium) (randombytes : ℕ → DhtKey) where
  call_start-IsReady : (now : ℕ) (a : App) → IsReady a → IsReady (call_start b randombytes now a).0
  unfolding call_start
  call_start-IsReady now a h = elim (Option-cases (entry_id b a)) [
    | inl e ↦ rw (call_start, e) h
    | inr (id, e) ↦ rw (call_start, e) (inr (inr (omega arith)))
  ]

  call_toggle-IsReady :
      (now : ℕ) (a : App) → IsReady a → IsReady (call_toggle b randombytes now a).0
  unfolding call_toggle
  call_toggle-IsReady now a h =
      let P = λ (p : App × List Effect). IsReady p.0 in
      if_both P a.start_sensitive _ _ (call_start-IsReady now a h)
        (if_both P a.stop_sensitive _ _ (call_stop-IsReady a h) h)

  dialog_open-IsReady : (a : App) → IsReady a → IsReady (dialog_open a)
  unfolding dialog_open
  dialog_open-IsReady a h = elim (Option-cases a.session) [
    | inl e ↦ rw (dialog_open, e) h
    | inr (n, e) ↦ rw (dialog_open, e) h
  ]

  accept_session-IsReady : (a : App) → IsReady a → IsReady (accept_session a)
  accept_session-IsReady a h = elim (Option-cases a.session) [
    | inl e ↦ rw e h
    | inr (n, e) ↦ rw e h
  ]

  dialog_close-IsReady :
      (answer : Bool) (outer : List Dialog) (a : App)
      → IsReady a
      → IsReady (dialog_close answer outer a)
  unfolding dialog_close
  dialog_close-IsReady true outer a h =
      accept_session-IsReady (record a { call_dialog = none; dialogs = outer }) h
  dialog_close-IsReady false outer a h =
      call_stop-IsReady (record a { call_dialog = none; dialogs = outer }) h

  Move-IsReady : {a a' : App} → IsReady a → Move b s randombytes a a' → IsReady a'
  Move-IsReady h (types a text) = h
  Move-IsReady h (starts a now e) = call_start-IsReady now a h
  Move-IsReady h (stops a e) = call_stop-IsReady a h
  Move-IsReady h (toggles a now) = call_toggle-IsReady now a h
  Move-IsReady h (finishes a result completion e) = lookup_finished-IsReady result completion a
  Move-IsReady h (opens a n e) = dialog_open-IsReady (record a { queued = n }) h
  Move-IsReady h (responds a n answer) = h
  Move-IsReady h (closes a n answer outer e) = dialog_close-IsReady answer outer a h
  Move-IsReady h (hangs_up a n x e) = call_stop-IsReady a h
  Move-IsReady h (session_moves a n actor x y e step) = h
  Move-IsReady h (client_moves a c e) = h

-- From its start on, whatever the user, the peers and the main loop do, in a window one of the two
-- buttons can be pressed, or a call is being looked up.
pub window-IsReady :
    (b : Base64) (s : Sodium) (randombytes : ℕ → DhtKey) (client : Client) (media : Option Media)
    (crowded : Bool) (a : App)
    → AppSteps b s randombytes crowded (startup client media) a
    → IsReady a
window-IsReady b s randombytes client media crowded a steps = go steps
  where
    one : {a1 a2 : App} → IsReady a1 → AppStep b s randombytes crowded a1 a2 → IsReady a2
    one h (moves m) = Move-IsReady b s randombytes h m
    one h (arrives a1 id enc dec e e' q d) = unfold new_connection in inr (inl refl)
    one h (crowds a1 id enc dec e c) = unfold new_connection in inr (inl refl)

    go : {a' : App} → AppSteps b s randombytes crowded (startup client media) a' → IsReady a'
    go here = unfold startup in inl refl
    go (later steps step) = one (go steps) step
