-- ===== src/App/Steps.antt =====
-- What may happen to the window: the user's clicks, the callbacks of the client and of the sessions, and
-- the main loop, in any order.
use nanotalk.Base.{ℕ, suc, ◌≡◌, Bool, true, false, some, none, List, [], ◌∷◌, ◌==◌, if◌then◌else◌}
use nanotalk.Common.{Bytes, DhtId, DhtKey, Sodium}
use nanotalk.Common.Text.{Base64}
use nanotalk.Client.{Client, Completion}
use nanotalk.Session.{Session}
use nanotalk.Session.Steps.{Actor, Step}
use nanotalk.App.{Dialog, App, find_session, modify_session}
use nanotalk.App.Call.{
  lookup_finished, call_start, call_stop, call_toggle, respond, dialog_open, dialog_close,
  new_connection,
}

unfoldable pub member : ℕ → List ℕ → Bool
member r [] = false
member r (q ∷ rest) = if q == r then true else member r rest

module _ (b : Base64) (s : Sodium) (randombytes : ℕ → DhtKey) where
  -- A move of the window. The client takes part by what it may do to `listen`: nothing.
  pub data Move : App → App → Type 0 where
    types : (a : App) (text : Bytes) → Move a (record a { main_entry = text })
    starts :
        (a : App) (now : ℕ) → a.start_sensitive ≡ true → Move a (call_start b randombytes now a).0
    stops : (a : App) → a.stop_sensitive ≡ true → Move a (call_stop a)
    toggles : (a : App) (now : ℕ) → Move a (call_toggle b randombytes now a).0
    finishes :
        (a : App) (result : ℕ) (completion : Completion)
        → member result a.calls ≡ true
        → Move a (lookup_finished result completion a)
    opens : (a : App) (n : ℕ) → a.queued ≡ suc n → Move a (dialog_open (record a { queued = n }))
    responds :
        (a : App) (n : ℕ) (answer : Bool)
        → Move a (record a { dialogs = respond n answer a.dialogs })
    closes :
        (a : App) (n : ℕ) (answer : Bool) (outer : List Dialog)
        → a.dialogs ≡ record { number = n; response = some answer } ∷ outer
        → Move a (dialog_close answer outer a)
    hangs_up :
        (a : App) (n : ℕ) (x : Session) → find_session n a.sessions ≡ some x → Move a (call_stop a)
    session_moves :
        (a : App) (n : ℕ) (actor : Actor) (x y : Session)
        → find_session n a.sessions ≡ some x
        → Step s actor x y
        → Move a (record a { sessions = modify_session n (λ x'. y) a.sessions })
    client_moves :
        (a : App) (c : Client) → c.listen ≡ a.client.listen → Move a (record a { client = c })

  -- A caller that comes alone finds no call, no dialog and none that is to open; the client may signal
  -- another one as long as it listens.
  pub data AppStep (crowded : Bool) : App → App → Type 0 where
    moves : {a a' : App} → Move a a' → AppStep crowded a a'
    arrives :
        (a : App) (id : DhtId) (enc_key dec_key : DhtKey)
        → a.client.listen ≡ true
        → a.session ≡ none
        → a.queued ≡ 0
        → a.dialogs ≡ []
        → AppStep crowded a (new_connection b id enc_key dec_key a)
    crowds :
        (a : App) (id : DhtId) (enc_key dec_key : DhtKey)
        → a.client.listen ≡ true
        → crowded ≡ true
        → AppStep crowded a (new_connection b id enc_key dec_key a)

  pub data AppSteps (crowded : Bool) : App → App → Type 0 where
    here : {a : App} → AppSteps crowded a a
    later :
        {a a' a'' : App} → AppSteps crowded a a' → AppStep crowded a' a'' → AppSteps crowded a a''
