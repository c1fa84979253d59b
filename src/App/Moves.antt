-- ===== src/App/Moves.antt =====
-- What leads a window from one of its situations to another: a dialog that closes, a caller, a change of
-- a session, and what the situations say about the buttons.
use nanotalk.Base.{
  ℕ, ◌≤◌, ◌≡◌, ◌⊎◌, inl, inr, refl, sym, ap, ◌∙◌, subst, Bool, true, false, none, some, List, [],
  ◌∷◌, ◌==◌, drop, Bool-cases, arith,
}
use nanotalk.Common.{Bytes, DhtId, DhtKey}
use nanotalk.Common.Text.{Base64}
use nanotalk.Client.{Client}
use nanotalk.Session.{Session, accept}
use nanotalk.App.{Dialog, App, find_session, modify_session}
use nanotalk.App.Call.{
  fresh_session, accept_session, open_session, dialog_close, caller_text, new_connection,
}
use nanotalk.App.Steps.{member}
use nanotalk.App.Orderly.{
  HasNoCall, IsIdle, IsSearching, IsCalling, Asks, IsOrderly, call_stop-IsOrderly,
}
use nanotalk.App.Reach.{true_or_false}

abbrev pub Situation : App → Type 0
Situation a = IsIdle a ⊎ (IsSearching a ⊎ IsCalling a)

-- Where a button or a session shows a call.
pub IsCalling-stop : (a : App) → Situation a → a.stop_sensitive ≡ true → IsCalling a
IsCalling-stop a (inl i) e = absurd (true_or_false a.stop_sensitive e i.stop)
IsCalling-stop a (inr (inl i)) e = absurd (true_or_false a.stop_sensitive e i.stop)
IsCalling-stop a (inr (inr c)) e = c

none_found :
    (n : ℕ) (x : Session) (xs : List (ℕ × Session)) → xs ≡ [] → find_session n xs ≡ some x → ⊥
none_found n x xs empty e =
    let found : find_session n [] ≡ some x =
      subst (λ (ys : List (ℕ × Session)). find_session n ys ≡ some x) empty e in
    unfold find_session in ground (arith, found)

pub IsCalling-session :
    (a : App) (n : ℕ) (x : Session) → Situation a → find_session n a.sessions ≡ some x → IsCalling a
IsCalling-session a n x (inl i) e = absurd (none_found n x a.sessions i.no_call.sessions e)
IsCalling-session a n x (inr (inl i)) e = absurd (none_found n x a.sessions i.no_call.sessions e)
IsCalling-session a n x (inr (inr c)) e = c

not_empty : (d : Dialog) (ds : List Dialog) → [] ≡ d ∷ ds → ⊥
not_empty d ds e = ground arith

pub IsCalling-dialog :
    (a : App) (d : Dialog) (outer : List Dialog)
    → Situation a
    → a.dialogs ≡ d ∷ outer
    → IsCalling a × (outer ≡ [])
IsCalling-dialog a d outer (inl i) e = absurd (not_empty d outer (sym i.no_call.dialogs ∙ e))
IsCalling-dialog a d outer (inr (inl i)) e = absurd (not_empty d outer (sym i.no_call.dialogs ∙ e))
IsCalling-dialog a d outer (inr (inr c)) e = (
  c,
  elim c.asks [
    | inl (empty, e') ↦ absurd (not_empty d outer (sym empty ∙ e))
    | inr (d', one, e', q) ↦ ap (drop 1) (sym e ∙ one)
  ],
)

no_member : (r : ℕ) (rs : List ℕ) → rs ≡ [] → member r rs ≡ true → ⊥
no_member r rs empty e =
    let m : member r [] ≡ true = subst (λ (qs : List ℕ). member r qs ≡ true) empty e in
    unfold member in ground (arith, m)

pub IsSearching-call : (r : ℕ) (a : App) → Situation a → member r a.calls ≡ true → IsSearching a
IsSearching-call r a (inl i) e = absurd (no_member r a.calls i.calls e)
IsSearching-call r a (inr (inl i)) e = i
IsSearching-call r a (inr (inr c)) e = absurd (no_member r a.calls c.calls e)

pub IsIdle-start : (a : App) → Situation a → a.start_sensitive ≡ true → IsIdle a
IsIdle-start a (inl i) e = i
IsIdle-start a (inr (inl i)) e = absurd (true_or_false a.start_sensitive e i.start)
IsIdle-start a (inr (inr c)) e = absurd (true_or_false a.start_sensitive e c.start)

-- The sessions may change, but not their number.
modify_one :
    (n m : ℕ) (f : Session → Session) (x : Session)
    → (y : Session) × (modify_session n f ((m, x) ∷ []) ≡ (m, y) ∷ [])
unfolding modify_session
modify_one n m f x = elim (Bool-cases (m == n)) [
  | inl e ↦ (f x, rw (modify_session, e))
  | inr e ↦ (x, rw (modify_session, e))
]

pub modify-IsCalling :
    (n : ℕ) (f : Session → Session) (a : App)
    → IsCalling a
    → IsCalling (record a { sessions = modify_session n f a.sessions })
modify-IsCalling n f a c =
    let (y, e) = modify_one n c.number f c.live in
    record {
      start = c.start;
      stop = c.stop;
      calls = c.calls;
      number = c.number;
      live = y;
      session = c.session;
      sessions = ap (modify_session n f) c.sessions ∙ e;
      asks = c.asks;
    }

pub dialog_close-IsOrderly :
    (answer : Bool) (outer : List Dialog) (a : App)
    → a.queued ≤ 1
    → IsCalling a
    → outer ≡ []
    → IsOrderly (dialog_close answer outer a)
dialog_close-IsOrderly answer outer a q c e = go answer
  where
    a1 : App
    a1 = record a { call_dialog = none; dialogs = outer }

    c1 : IsCalling a1
    c1 = record {
      start = c.start;
      stop = c.stop;
      calls = c.calls;
      number = c.number;
      live = c.live;
      session = c.session;
      sessions = c.sessions;
      asks = inl (e, refl);
    }

    go : (answer' : Bool) → IsOrderly (dialog_close answer' outer a)
    go false = unfold dialog_close in call_stop-IsOrderly a1 q c1
    go true =
        let shown : a1 ≡ record a1 { session = some c.number } =
          λ i. record a1 { session = c.session i } in
        unfold dialog_close in
        subst (λ a'. IsOrderly (accept_session a')) (sym shown)
          (record {
            queued = q;
            situation = inr (
                inr (
                  modify-IsCalling c.number accept (record a1 { session = some c.number })
                    (subst IsCalling shown c1)));
          })

-- A caller in a window without a call.
pub new_connection-IsOrderly :
    (b : Base64) (id : DhtId) (enc_key dec_key : DhtKey) (a : App)
    → a.queued ≡ 0
    → IsIdle a
    → IsOrderly (new_connection b id enc_key dec_key a)
new_connection-IsOrderly b id enc_key dec_key a q i =
    unfold new_connection open_session in
    record {
      queued = omega (arith, q);
      situation = inr (
          inr (record {
            start = refl;
            stop = refl;
            calls = i.calls;
            number = a.next_session;
            live =
                fresh_session true enc_key dec_key (record a { main_entry = caller_text b id a });
            session = refl;
            sessions =
                ap
                  (λ rest.
                    (
                      a.next_session,
                      fresh_session true enc_key dec_key
                          (record a { main_entry = caller_text b id a }),
                    )
                    ∷ rest)
                  i.no_call.sessions;
            asks = inl (i.no_call.dialogs, i.no_call.call_dialog);
          }));
    }

-- The text, the rest of the client and the responses do not matter.
pub frame :
    (a : App) (text : Bytes) (c : Client) (ds : List Dialog)
    → c.listen ≡ a.client.listen
    → (a.dialogs ≡ [] → ds ≡ [])
    → (Asks a → Asks (record a { dialogs = ds }))
    → IsOrderly a
    → IsOrderly (record a { main_entry = text; client = c; dialogs = ds })
frame a text c ds e f g h = record {
  queued = h.queued;
  situation = elim h.situation [
    | inl i ↦ inl (record {
      start = i.start;
      stop = i.stop;
      calls = i.calls;
      listens = e ∙ i.listens;
      no_call = same i.no_call;
    })
    | inr (inl i) ↦ inr (
        inl (record {
          start = i.start;
          stop = i.stop;
          call = i.call;
          calls = i.calls;
          listens = e ∙ i.listens;
          no_call = same i.no_call;
        }))
    | inr (inr k) ↦ inr (
        inr (record {
          start = k.start;
          stop = k.stop;
          calls = k.calls;
          number = k.number;
          live = k.live;
          session = k.session;
          sessions = k.sessions;
          asks = g k.asks;
        }))
  ];
}
  where
    same : HasNoCall a → HasNoCall (record a { main_entry = text; client = c; dialogs = ds })
    same k = record {
      session = k.session;
      sessions = k.sessions;
      dialogs = f k.dialogs;
      call_dialog = k.call_dialog;
    }

pub IsIdle-listening :
    (a : App) → Situation a → a.client.listen ≡ true → a.session ≡ none → IsIdle a
IsIdle-listening a (inl i) l e = i
IsIdle-listening a (inr (inl i)) l e = absurd (true_or_false a.client.listen l i.listens)
IsIdle-listening a (inr (inr c)) l e = absurd (no_session c.number (sym e ∙ c.session))
  where
    no_session : (n : ℕ) → none ≡ some n → ⊥
    no_session n e' = ground arith
