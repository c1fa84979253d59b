-- ===== src/App/Call.antt =====
-- The calls of src/application.c, from the two buttons, the network and the dialog.
use nanotalk.Base.{
  ℕ, ◌+◌, Bool, true, false, Option, none, some, List, [], ◌∷◌, ◌==◌, if◌then◌else◌,
}
use nanotalk.Common.{Bytes, DhtId, DhtKey}
use nanotalk.Common.Text.{Base64, id_from_string, id_to_string}
use nanotalk.Client.{Completion, Effect, set_listen}
use nanotalk.Client.Lookup.{lookup_async}
use nanotalk.Client.Run.{lookup_finish}
use nanotalk.Session.{
  Session, new_session, set_property, prop_volume, prop_audio_bitrate, prop_video_bitrate, launch,
  accept, destroy,
}
use nanotalk.App.{Dialog, App, find_entry, find_session, modify_session, remove_session}

-- `rtp_session_new` to `rtp_session_launch`, which two callbacks share. A session numbers its sources
-- from 1.
unfoldable pub fresh_session : Bool → DhtKey → DhtKey → App → Session
fresh_session on_hold enc_key dec_key a =
    let s = new_session enc_key dec_key a.media.video_enable 1 in
    let s1 = set_property prop_volume a.volume s in
    let s2 = set_property prop_audio_bitrate a.media.audio_bitrate s1 in
    launch on_hold (set_property prop_video_bitrate a.media.video_bitrate s2)

unfoldable pub open_session : Bool → DhtKey → DhtKey → App → App
open_session on_hold enc_key dec_key a = record a {
  session = some a.next_session;
  sessions = (a.next_session, fresh_session on_hold enc_key dec_key a) ∷ a.sessions;
  next_session = a.next_session + 1;
}

abbrev pub listen : Bool → App → App
listen b a = record a { client = set_listen b a.client }

unfoldable pub remove_call : ℕ → List ℕ → List ℕ
remove_call r [] = []
remove_call r (q ∷ rest) = if q == r then rest else q ∷ remove_call r rest

-- `lookup_finished_cb` with a result and how its call has ended.
unfoldable pub lookup_finished : ℕ → Completion → App → App
lookup_finished result completion a =
    let a1 : App = record a { calls = remove_call result a.calls } in
    elim (lookup_finish completion) [
      | some (socket, enc_key, dec_key) ↦ record (open_session false enc_key dec_key a1) {
        stop_sensitive = true;
      }
      | none ↦ listen true (record a1 { start_sensitive = true })
    ]

module _ (b : Base64) where
  -- The identifier that the entry names, by an alias or by itself.
  unfoldable pub entry_id : App → Option DhtId
  entry_id a = elim (find_entry a.main_entry a.alias2id_table) [
    | some id ↦ some id
    | none ↦ id_from_string b a.main_entry
  ]

  -- `call_start`.
  unfoldable pub call_start : (ℕ → DhtKey) → ℕ → App → App × List Effect
  call_start randombytes now a = elim (entry_id a) [
    | none ↦ (a, [])
    | some id ↦
        let (client, effects) = lookup_async randombytes now id a.next_call a.client in
        (
          listen false (record a {
            client = client;
            calls = a.next_call ∷ a.calls;
            next_call = a.next_call + 1;
            start_sensitive = false;
          }),
          effects,
        )
  ]

-- `gtk_dialog_response`.
unfoldable pub respond : ℕ → Bool → List Dialog → List Dialog
respond n answer [] = []
respond n answer (d ∷ ds) =
    if d.number == n then record d { response = some answer } ∷ ds else d ∷ respond n answer ds

-- `rtp_session_destroy(app->session)`.
unfoldable pub destroy_session : App → App
destroy_session a = elim a.session [
  | none ↦ a
  | some n ↦ elim (find_session n a.sessions) [
    | none ↦ record a { session = none }
    | some x ↦ record a {
      session = none;
      sessions = remove_session n a.sessions;
      destroyed = (n, destroy x) ∷ a.destroyed;
    }
  ]
]

-- `call_stop`.
unfoldable pub call_stop : App → App
call_stop a = elim a.call_dialog [
  | some n ↦ record a { dialogs = respond n false a.dialogs }
  | none ↦
      listen true (record (destroy_session a) { start_sensitive = true; stop_sensitive = false })
]

-- `call_toggle`.
unfoldable pub call_toggle : Base64 → (ℕ → DhtKey) → ℕ → App → App × List Effect
call_toggle b randombytes now a =
    if a.start_sensitive
    then call_start b randombytes now a
    else if a.stop_sensitive
    then (call_stop a, [])
    else (a, [])

-- `dialog_run` up to `gtk_dialog_run`, from one of its sources.
unfoldable pub dialog_open : App → App
dialog_open a = elim a.session [
  | none ↦ a
  | some n ↦ record a {
    call_dialog = some a.next_dialog;
    dialogs = record { number = a.next_dialog; response = none } ∷ a.dialogs;
    next_dialog = a.next_dialog + 1;
  }
]

abbrev pub accept_session : App → App
accept_session a = elim a.session [
  | none ↦ a
  | some n ↦ record a { sessions = modify_session n accept a.sessions }
]

-- `dialog_run` from the return of `gtk_dialog_run` in the innermost dialog.
unfoldable pub dialog_close : Bool → List Dialog → App → App
dialog_close answer outer a =
    let a1 : App = record a { call_dialog = none; dialogs = outer } in
    if answer then accept_session a1 else call_stop a1

-- The text that names a caller.
unfoldable pub caller_text : Base64 → DhtId → App → Bytes
caller_text b id a = elim (find_entry id a.id2alias_table) [
  | some alias ↦ alias
  | none ↦ id_to_string b id
]

-- `new_connection`.
unfoldable pub new_connection : Base64 → DhtId → DhtKey → DhtKey → App → App
new_connection b id enc_key dec_key a =
    let a1 = open_session true enc_key dec_key (record a { main_entry = caller_text b id a }) in
    record a1 { queued = a1.queued + 1; start_sensitive = false; stop_sensitive = true }
