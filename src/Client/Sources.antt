-- ===== src/Client/Sources.antt =====
-- What `dht_lookup_dispatch` leaves behind: how many requests wait, and when a lookup is given up.
pub mod Loop
use nanotalk.Base.{
  ℕ, zero, suc, ◌+◌, ◌≤◌, ◌<◌, ◌≡◌, ◌⊎◌, inl, inr, refl, ap, subst, ◌∙◌, true, false, some, List,
  [], ◌∷◌, ◌++◌, ◌==◌, All, arith,
}
use nanotalk.Bucket.{node_count}
use nanotalk.Client.{
  DhtQuery, DhtLookup, Client, Effect, find_lookup, store_lookup, remove_lookup, drop_lookup,
}
use nanotalk.Client.Tables.{find-store_lookup, remove-store_lookup, drop_lookup_found}
use nanotalk.Client.Lookup.{Dispatch, dispatch_loop, concurrency, fail_results, lookup_dispatch}
use nanotalk.Client.Sources.Loop.{
  waiting, alive, Settled, IsDispatched, dispatch_loop_lem, dispatch_loop_idle,
}

abbrev IsFinished : DhtQuery → Type 0
IsFinished q = q.is_finished ≡ true

none_waits : (qs : List DhtQuery) → waiting qs ≡ 0 → All Settled qs → All IsFinished qs
unfolding waiting
none_waits [] h s = tt
none_waits (q ∷ qs) h s =
    (elim s.0 [ inl e ↦ e | inr k ↦ ground (arith, h, k) ], none_waits qs (omega (arith, h)) s.1)

-- The lookup goes on.
abbrev pub GoesOn : DhtLookup → Client × List Effect → Type 0
GoesOn l r =
    (l' : DhtLookup) × (find_lookup l.id r.0.lookup_table ≡ some l')
    × (l'.results ≡ l.results)
    × (l'.num_sources ≡ waiting l'.queries)
    × (0 < l'.num_sources)
    × (l'.num_sources ≤ concurrency)
    × (All Settled l'.queries ⊎ ((l'.num_sources ≡ concurrency) ⊎ (node_count ≤ alive l'.queries)))

-- The lookup has left the table, its calls have failed, and nothing was sent.
abbrev pub GivenUp : DhtLookup → Client → Client × List Effect → Type 0
GivenUp l c r =
    (after : List Effect) × (r.0.lookup_table ≡ remove_lookup l.id c.lookup_table)
    × (r.1 ≡ fail_results l.results ++ after)
    × (All IsFinished l.queries ⊎ (node_count ≤ alive l.queries))

suc_nonzero : (n : ℕ) → (suc n == 0) ≡ false
suc_nonzero n = ground arith

module _ (l : DhtLookup) (c : Client) where
  abbrev pub start : Dispatch
  start = record { num_sources = l.num_sources; num_alive = 0; next_source = c.next_source }

  abbrev pub ran : List DhtQuery × Dispatch × List Effect
  ran = dispatch_loop c.id l.id l.queries start

  abbrev pub changed : DhtLookup
  changed = record l { queries = ran.0; num_sources = ran.1.num_sources }

  abbrev pub stored : Client
  stored = record c {
    next_source = ran.1.next_source;
    lookup_table = store_lookup changed c.lookup_table;
  }

  abbrev pub emptied : Client
  emptied = record stored {
    lookup_table = store_lookup (record changed { results = [] }) stored.lookup_table;
  }

  pub dispatch_on : (n : ℕ) → ran.1.num_sources ≡ suc n → lookup_dispatch l c ≡ (stored, ran.2)
  unfolding lookup_dispatch
  dispatch_on n e =
      let z : (ran.1.num_sources == 0) ≡ false = rw e (suc_nonzero n) in rw (lookup_dispatch, z)

  pub dispatch_out :
      ran.1.num_sources ≡ 0
      → lookup_dispatch l c ≡ (
        (drop_lookup l.id emptied).0,
        ran.2 ++ (fail_results l.results ++ (drop_lookup l.id emptied).1),
      )
  unfolding lookup_dispatch
  dispatch_out e = rw (lookup_dispatch, e)

  pub emptied_table : (drop_lookup l.id emptied).0.lookup_table ≡ remove_lookup l.id c.lookup_table
  emptied_table =
      let gone = record changed { results = [] } in
      ap (λ p. p.0.lookup_table)
        (drop_lookup_found l.id gone emptied (find-store_lookup gone stored.lookup_table))
      ∙ remove-store_lookup gone stored.lookup_table
      ∙ remove-store_lookup changed c.lookup_table

-- After `dht_lookup_dispatch`, started with at most three requests waiting, its counter exact and
-- source numbers above 0,
-- a lookup either goes on or is given up. If it goes on, its calls are kept, its counter is the
-- number of queries that wait, between one and three, and it had a reason not to ask more: no query
-- is left to ask, three wait, or 16 have been answered. If it is given up, all its calls fail, it
-- leaves the table, and every query is finished or 16 have been answered.
pub lookup_dispatch_lem :
    (l : DhtLookup) (c : Client)
    → l.num_sources ≡ waiting l.queries
    → l.num_sources ≤ concurrency
    → 0 < c.next_source
    → GoesOn l (lookup_dispatch l c) ⊎ GivenUp l c (lookup_dispatch l c)
unfolding lookup_dispatch
lookup_dispatch_lem l c hw hc hs = go (ran l c).1.num_sources refl
  where
    facts : IsDispatched l.queries (start l c) (ran l c).0 (ran l c).1
    facts = dispatch_loop_lem c.id l.id l.queries (start l c) hc hs

    ended : (ran l c).1.num_sources ≡ 0 → All IsFinished l.queries ⊎ (node_count ≤ alive l.queries)
    ended e =
        let same = (dispatch_loop_idle c.id l.id l.queries (start l c) hc hs e).0 in
        elim facts.3 [
          | inl all ↦
              inl (
                none_waits l.queries (omega (arith, e, facts.4, hw)) (subst (All Settled) same all))
          | inr (inl full) ↦ absurd (omega (arith, e, full))
          | inr (inr many) ↦ inr (
              let seen : node_count ≤ alive (ran l c).0 = omega (arith, many, facts.2) in
              subst (λ qs. node_count ≤ alive qs) same seen)
        ]

    go :
        (n : ℕ)
        → (ran l c).1.num_sources ≡ n
        → GoesOn l (lookup_dispatch l c) ⊎ GivenUp l c (lookup_dispatch l c)
    go zero e = inr (
      (drop_lookup l.id (emptied l c)).1,
      ap (λ p. p.0.lookup_table) (dispatch_out l c e) ∙ emptied_table l c,
      ap (λ p. p.1) (dispatch_out l c e)
          ∙ ap (λ es. es ++ (fail_results l.results ++ (drop_lookup l.id (emptied l c)).1))
              (dispatch_loop_idle c.id l.id l.queries (start l c) hc hs e).1,
      ended e,
    )
    go (suc n) e = inl (
      changed l c,
      ap (λ p. find_lookup l.id p.0.lookup_table) (dispatch_on l c n e)
          ∙ find-store_lookup (changed l c) c.lookup_table,
      refl,
      omega (arith, facts.0, hw),
      omega (arith, e),
      facts.1,
      elim facts.3 [
        | inl all ↦ inl all
        | inr (inl full) ↦ inr (inl full)
        | inr (inr many) ↦ inr (inr (omega (arith, many, facts.2)))
      ],
    )
