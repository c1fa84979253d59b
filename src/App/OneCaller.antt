-- ===== src/App/OneCaller.antt =====
-- A window whose callers come one at a time, and its sessions.
use nanotalk.Base.{ℕ, inl, inr, refl, ap, ◌∙◌, false, Option, some, List, if_cases, arith}
use nanotalk.Common.{DhtKey, Sodium}
use nanotalk.Common.Text.{Base64}
use nanotalk.Client.{Client, Effect, set_listen}
use nanotalk.App.{App, Media, startup}
use nanotalk.App.Call.{call_toggle, respond}
use nanotalk.App.Steps.{
  Move, types, starts, stops, toggles, finishes, opens, responds, closes, hangs_up, session_moves,
  client_moves, AppStep, moves, arrives, crowds, AppSteps, here, later,
}
use nanotalk.App.Orderly.{IsOrderly, respond-Asks, call_stop-IsOrderly}
use nanotalk.App.Reach.{
  true_or_false, call_start-IsOrderly, lookup_finished-IsOrderly, dialog_open-IsOrderly,
}
use nanotalk.App.Moves.{
  IsCalling-stop, IsCalling-session, IsCalling-dialog, IsSearching-call, IsIdle-start,
  IsIdle-listening, modify-IsCalling, dialog_close-IsOrderly, new_connection-IsOrderly, frame,
}

module _ (b : Base64) (s : Sodium) (randombytes : ℕ → DhtKey) where
  Move-IsOrderly : {a a' : App} → IsOrderly a → Move b s randombytes a a' → IsOrderly a'
  Move-IsOrderly h (types a text) = frame a text a.client a.dialogs refl (λ e. e) (λ k. k) h
  Move-IsOrderly h (starts a now e) =
      call_start-IsOrderly b randombytes now a h.queued (IsIdle-start a h.situation e)
  Move-IsOrderly h (stops a e) = call_stop-IsOrderly a h.queued (IsCalling-stop a h.situation e)
  Move-IsOrderly h (toggles a now) =
      unfold call_toggle in
      if_cases (λ (p : App × List Effect). IsOrderly p.0) a.start_sensitive _ _
        (λ e. call_start-IsOrderly b randombytes now a h.queued (IsIdle-start a h.situation e))
        (λ e.
          if_cases (λ (p : App × List Effect). IsOrderly p.0) a.stop_sensitive _ _
            (λ e'. call_stop-IsOrderly a h.queued (IsCalling-stop a h.situation e')) (λ e'. h))
  Move-IsOrderly h (finishes a result completion e) =
      lookup_finished-IsOrderly result completion a h.queued e
        (IsSearching-call result a h.situation e)
  Move-IsOrderly h (opens a n e) = dialog_open-IsOrderly a n e h
  Move-IsOrderly h (responds a n answer) =
      frame a a.main_entry a.client (respond n answer a.dialogs) refl
        (λ e. ap (respond n answer) e ∙ unfold respond in refl) (respond-Asks n answer a) h
  Move-IsOrderly h (closes a n answer outer e) =
      let (c, last) =
        IsCalling-dialog a (record { number = n; response = some answer }) outer h.situation e in
      dialog_close-IsOrderly answer outer a h.queued c last
  Move-IsOrderly h (hangs_up a n x e) =
      call_stop-IsOrderly a h.queued (IsCalling-session a n x h.situation e)
  Move-IsOrderly h (session_moves a n actor x y e step) = record {
    queued = h.queued;
    situation = inr (inr (modify-IsCalling n (λ x'. y) a (IsCalling-session a n x h.situation e)));
  }
  Move-IsOrderly h (client_moves a c e) = frame a a.main_entry c a.dialogs e (λ k. k) (λ k. k) h

  step-IsOrderly : {a a' : App} → IsOrderly a → AppStep b s randombytes false a a' → IsOrderly a'
  step-IsOrderly h (moves m) = Move-IsOrderly h m
  step-IsOrderly h (arrives a id enc dec l e q d) =
      new_connection-IsOrderly b id enc dec a q (IsIdle-listening a h.situation l e)
  step-IsOrderly h (crowds a id enc dec l c) = absurd (true_or_false false c refl)

startup-IsOrderly : (client : Client) (media : Option Media) → IsOrderly (startup client media)
startup-IsOrderly client media =
    unfold startup set_listen in
    record {
      queued = omega arith;
      situation = inl (record {
        start = refl;
        stop = refl;
        calls = refl;
        listens = refl;
        no_call = record { session = refl; sessions = refl; dialogs = refl; call_dialog = refl };
      });
    }

-- From the start of a window on, as long as a caller comes only while there is no session and no dialog
-- is open or about to open, the window is in one of three situations: idle, where a call can be
-- started, none can be stopped, and the client listens; searching, where one lookup is under way, no
-- button can be pressed, and the client does not listen; or calling, where the current session is the
-- only one that has not been destroyed, the call can be stopped, and at most one dialog is open, which is
-- then the one that `call_stop` answers. At most one dialog waits to open.
pub one_caller-IsOrderly :
    (b : Base64) (s : Sodium) (randombytes : ℕ → DhtKey) (client : Client) (media : Option Media)
    (a : App)
    → AppSteps b s randombytes false (startup client media) a
    → IsOrderly a
one_caller-IsOrderly b s randombytes client media a steps = go steps
  where
    go : {a' : App} → AppSteps b s randombytes false (startup client media) a' → IsOrderly a'
    go here = startup-IsOrderly client media
    go (later steps' step) = step-IsOrderly b s randombytes (go steps') step
