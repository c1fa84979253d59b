-- ===== src/App/Reach.antt =====
-- Every move of a window leads from one of its situations to another, while callers come one at a time.
use nanotalk.Base.{
  ℕ, suc, ◌≤◌, ◌≡◌, inl, inr, refl, sym, ap, ◌∙◌, subst, Bool, true, false, none, some, [], ◌∷◌,
  Option-cases, arith,
}
use nanotalk.Common.{DhtKey}
use nanotalk.Common.Text.{Base64}
use nanotalk.Client.{Completion, set_listen}
use nanotalk.Client.Run.{lookup_finish}
use nanotalk.App.{App}
use nanotalk.App.Call.{
  entry_id, fresh_session, open_session, remove_call, lookup_finished, call_start, dialog_open,
}
use nanotalk.App.Steps.{member}
use nanotalk.App.Orderly.{HasNoCall, IsIdle, IsSearching, IsOrderly}

pub true_or_false : (b : Bool) → b ≡ true → b ≡ false → ⊥
true_or_false b e e' = ground arith

-- `call_start` in a window without a call.
pub call_start-IsOrderly :
    (b : Base64) (randombytes : ℕ → DhtKey) (now : ℕ) (a : App)
    → a.queued ≤ 1
    → IsIdle a
    → IsOrderly (call_start b randombytes now a).0
unfolding call_start set_listen
call_start-IsOrderly b randombytes now a q h = elim (Option-cases (entry_id b a)) [
  | inl e ↦ rw (call_start, e) (record { queued = q; situation = inl h })
  | inr (id, e) ↦
      rw (call_start, e)
        (record {
          queued = q;
          situation = inr (
              inl (record {
                start = refl;
                stop = h.stop;
                call = a.next_call;
                calls = ap (λ rest. a.next_call ∷ rest) h.calls;
                listens = refl;
                no_call = record {
                  session = h.no_call.session;
                  sessions = h.no_call.sessions;
                  dialogs = h.no_call.dialogs;
                  call_dialog = h.no_call.call_dialog;
                };
              }));
        })
]

remove_only : (r q : ℕ) → member r (q ∷ []) ≡ true → remove_call r (q ∷ []) ≡ []
unfolding member remove_call
remove_only r q m = ground arith

pub lookup_finished-IsOrderly :
    (result : ℕ) (completion : Completion) (a : App)
    → a.queued ≤ 1
    → member result a.calls ≡ true
    → IsSearching a
    → IsOrderly (lookup_finished result completion a)
lookup_finished-IsOrderly result completion a q m h =
    let none_left : remove_call result a.calls ≡ [] =
      ap (remove_call result) h.calls
      ∙ remove_only result h.call (subst (λ rs. member result rs ≡ true) h.calls m) in
    let opened = λ (enc dec : DhtKey).
      fresh_session false enc dec (record a { calls = remove_call result a.calls }) in
    elim (Option-cases (lookup_finish completion)) [
      | inl e ↦
          unfold lookup_finished set_listen in
          rw (lookup_finished, e)
            (record {
              queued = q;
              situation = inl (record {
                start = refl;
                stop = h.stop;
                calls = none_left;
                listens = refl;
                no_call = record {
                  session = h.no_call.session;
                  sessions = h.no_call.sessions;
                  dialogs = h.no_call.dialogs;
                  call_dialog = h.no_call.call_dialog;
                };
              });
            })
      | inr (keys, e) ↦
          unfold lookup_finished open_session in
          rw (lookup_finished, e)
            (record {
              queued = q;
              situation = inr (
                  inr (record {
                    start = h.start;
                    stop = refl;
                    calls = none_left;
                    number = a.next_session;
                    live = opened keys.1 keys.2;
                    session = refl;
                    sessions =
                        ap (λ rest. (a.next_session, opened keys.1 keys.2) ∷ rest)
                          h.no_call.sessions;
                    asks = inl (h.no_call.dialogs, h.no_call.call_dialog);
                  }));
            })
    ]

-- A situation with fewer dialogs to open is one.
unqueue : (a : App) (n : ℕ) → n ≤ a.queued → IsOrderly a → IsOrderly (record a { queued = n })
unqueue a n le h = record {
  queued = omega (arith, le, h.queued);
  situation = elim h.situation [
    | inl i ↦ inl (record {
      start = i.start;
      stop = i.stop;
      calls = i.calls;
      listens = i.listens;
      no_call = same i.no_call;
    })
    | inr (inl i) ↦ inr (
        inl (record {
          start = i.start;
          stop = i.stop;
          call = i.call;
          calls = i.calls;
          listens = i.listens;
          no_call = same i.no_call;
        }))
    | inr (inr c) ↦ inr (
        inr (record {
          start = c.start;
          stop = c.stop;
          calls = c.calls;
          number = c.number;
          live = c.live;
          session = c.session;
          sessions = c.sessions;
          asks = elim c.asks [
            | inl e ↦ inl e
            | inr (d, e, e', q) ↦ inr (d, e, e', omega (arith, le, q))
          ];
        }))
  ];
}
  where
    same : HasNoCall a → HasNoCall (record a { queued = n })
    same k = record {
      session = k.session;
      sessions = k.sessions;
      dialogs = k.dialogs;
      call_dialog = k.call_dialog;
    }

-- `dialog_run` from its only source.
pub dialog_open-IsOrderly :
    (a : App) (n : ℕ)
    → a.queued ≡ suc n
    → IsOrderly a
    → IsOrderly (dialog_open (record a { queued = n }))
dialog_open-IsOrderly a n z h = elim h.situation [
  | inl idle ↦ same idle.no_call.session
  | inr (inl searching) ↦ same searching.no_call.session
  | inr (inr c) ↦ elim c.asks [
    | inl (d, e) ↦
        let shown : a ≡ record a { session = some c.number; dialogs = [] } =
          λ i. record a { session = c.session i; dialogs = d i } in
        subst (λ (a' : App). IsOrderly (dialog_open (record a' { queued = n }))) (sym shown)
          (unfold dialog_open in
            record {
              queued = omega (arith, z, h.queued);
              situation = inr (
                  inr (record {
                    start = c.start;
                    stop = c.stop;
                    calls = c.calls;
                    number = c.number;
                    live = c.live;
                    session = refl;
                    sessions = c.sessions;
                    asks = inr (
                      record { number = a.next_dialog; response = none },
                      refl,
                      refl,
                      omega (arith, z, h.queued),
                    );
                  }));
            })
    | inr (d, e, e', q) ↦ absurd (omega (arith, z, q))
  ]
]
  where
    same : a.session ≡ none → IsOrderly (dialog_open (record a { queued = n }))
    same e = unfold dialog_open in rw (dialog_open, e) (unqueue a n (omega (arith, z)) h)
