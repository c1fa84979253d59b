-- ===== src/App/Orderly.antt =====
-- The situations of a window while callers come one at a time.
use nanotalk.Base.{
  ℕ, ◌≤◌, ◌≡◌, ◌⊎◌, inl, inr, refl, sym, ap, ◌∙◌, subst, Bool, true, false, none, some, [], ◌∷◌,
  ◌==◌, ==_self, Bool-cases,
}
use nanotalk.Client.{set_listen}
use nanotalk.Session.{Session, destroy}
use nanotalk.App.{Dialog, App, find_session, remove_session}
use nanotalk.App.Call.{listen, destroy_session, call_stop, respond}

-- There is no session, and nothing is asked.
pub record HasNoCall (a : App) : Type 0 where
  pub session : a.session ≡ none
  pub sessions : a.sessions ≡ []
  pub dialogs : a.dialogs ≡ []
  pub call_dialog : a.call_dialog ≡ none

-- A call can be started, and the client listens.
pub record IsIdle (a : App) : Type 0 where
  pub start : a.start_sensitive ≡ true
  pub stop : a.stop_sensitive ≡ false
  pub calls : a.calls ≡ []
  pub listens : a.client.listen ≡ true
  pub no_call : HasNoCall a

-- One peer is looked up, and the client does not listen.
pub record IsSearching (a : App) : Type 0 where
  pub start : a.start_sensitive ≡ false
  pub stop : a.stop_sensitive ≡ false
  pub call : ℕ
  pub calls : a.calls ≡ call ∷ []
  pub listens : a.client.listen ≡ false
  pub no_call : HasNoCall a

-- The dialog is open or not; while it is, none waits to open.
abbrev pub Asks : App → Type 0
Asks a =
    ((a.dialogs ≡ []) × (a.call_dialog ≡ none))
    ⊎ ((d : Dialog) × (a.dialogs ≡ d ∷ []) × (a.call_dialog ≡ some d.number) × (a.queued ≡ 0))

-- There is one session, the current one, and the call can be stopped.
pub record IsCalling (a : App) : Type 0 where
  pub start : a.start_sensitive ≡ false
  pub stop : a.stop_sensitive ≡ true
  pub calls : a.calls ≡ []
  pub number : ℕ
  pub live : Session
  pub session : a.session ≡ some number
  pub sessions : a.sessions ≡ (number, live) ∷ []
  pub asks : Asks a

pub record IsOrderly (a : App) : Type 0 where
  pub queued : a.queued ≤ 1
  pub situation : IsIdle a ⊎ (IsSearching a ⊎ IsCalling a)

find_head : (n : ℕ) (x : Session) → find_session n ((n, x) ∷ []) ≡ some x
unfolding find_session
find_head n x = rw (==_self n)

remove_head : (n : ℕ) (x : Session) → remove_session n ((n, x) ∷ []) ≡ []
unfolding remove_session
remove_head n x = rw (==_self n)

stop_shown :
    (a : App) (n : ℕ) (x : Session)
    → call_stop
        (record a { session = some n; sessions = (n, x) ∷ []; dialogs = []; call_dialog = none })
      ≡ listen true (record a {
        session = none;
        sessions = [];
        dialogs = [];
        call_dialog = none;
        destroyed = (n, destroy x) ∷ a.destroyed;
        start_sensitive = true;
        stop_sensitive = false;
      })
unfolding call_stop destroy_session
stop_shown a n x = rw (call_stop, destroy_session, find_head n x, remove_head n x)

-- What is not asked about ends at once.
call_stop_idle :
    (a : App)
    → a.queued ≤ 1
    → IsCalling a
    → a.dialogs ≡ []
    → a.call_dialog ≡ none
    → IsOrderly (call_stop a)
unfolding set_listen
call_stop_idle a q h d e =
    subst IsOrderly (sym (ap call_stop shown ∙ stop_shown a h.number h.live)) (record {
      queued = q;
      situation = inl (record {
        start = refl;
        stop = refl;
        calls = h.calls;
        listens = refl;
        no_call = record { session = refl; sessions = refl; dialogs = refl; call_dialog = refl };
      });
    })
  where
    shown : a ≡ record a {
      session = some h.number;
      sessions = (h.number, h.live) ∷ [];
      dialogs = [];
      call_dialog = none;
    }
    shown = λ i. record a {
      session = h.session i;
      sessions = h.sessions i;
      dialogs = d i;
      call_dialog = e i;
    }

-- A response changes the dialog that is open and nothing else.
respond_one :
    (n : ℕ) (answer : Bool) (d : Dialog)
    → (d' : Dialog) × (respond n answer (d ∷ []) ≡ d' ∷ []) × (d'.number ≡ d.number)
unfolding respond
respond_one n answer d = elim (Bool-cases (d.number == n)) [
  | inl e ↦ (record d { response = some answer }, rw (respond, e), refl)
  | inr e ↦ (d, rw (respond, e), refl)
]

pub respond-Asks :
    (n : ℕ) (answer : Bool) (a : App)
    → Asks a
    → Asks (record a { dialogs = respond n answer a.dialogs })
respond-Asks n answer a (inl (e, e')) = inl (ap (respond n answer) e ∙ unfold respond in refl, e')
respond-Asks n answer a (inr (d, e, e', q)) =
    let (d', r, same) = respond_one n answer d in
    inr (d', ap (respond n answer) e ∙ r, e' ∙ ap some (sym same), q)

pub call_stop-IsOrderly : (a : App) → a.queued ≤ 1 → IsCalling a → IsOrderly (call_stop a)
call_stop-IsOrderly a q h = go h.asks
  where
    go : Asks a → IsOrderly (call_stop a)
    go (inl (d, e)) = call_stop_idle a q h d e
    go (inr (d, e, e', q')) =
        let shown : a ≡ record a { call_dialog = some d.number } =
          λ i. record a { call_dialog = e' i } in
        subst (λ a'. IsOrderly (call_stop a')) (sym shown)
          (unfold call_stop in
            record {
              queued = q;
              situation = inr (
                  inr (record {
                    start = h.start;
                    stop = h.stop;
                    calls = h.calls;
                    number = h.number;
                    live = h.live;
                    session = h.session;
                    sessions = h.sessions;
                    asks =
                        respond-Asks d.number false (record a { call_dialog = some d.number })
                          (inr (d, e, refl, q'));
                  }));
            })
