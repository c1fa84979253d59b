-- ===== src/Client/Sources/Loop.antt =====
-- The loop of `dht_lookup_dispatch` over the queries of a lookup.
use nanotalk.Base.{
  ℕ, ◌+◌, ◌≤◌, ◌<◌, ◌≡◌, ◌⊎◌, inl, inr, refl, sym, ap₂, subst, true, false, not, ◌&&◌, List, [],
  ◌∷◌, ◌++◌, ◌==◌, ltb, if◌then◌else◌, All, Bool-cases, arith,
}
use nanotalk.Common.{DhtId, address_deserialize}
use nanotalk.Bucket.{node_count, inc_uint}
use nanotalk.Client.{DhtQuery, Effect, send, add_timeout}
use nanotalk.Client.Lookup.{Dispatch, dispatch_query, dispatch_loop, concurrency, lookup_request}

-- The number of queries that wait for an answer, and of those that were answered.
unfoldable pub waiting : List DhtQuery → ℕ
waiting [] = 0
waiting (q ∷ qs) = (if q.timeout_source == 0 then 0 else 1) + waiting qs

unfoldable pub alive : List DhtQuery → ℕ
alive [] = 0
alive (q ∷ qs) = (if q.is_alive then 1 else 0) + alive qs

-- The query is done, or waits.
abbrev pub Settled : DhtQuery → Type 0
Settled q = (q.is_finished ≡ true) ⊎ (0 < q.timeout_source)

dispatch_query_lem :
    (own id : DhtId) (q : DhtQuery) (d : Dispatch)
    → d.num_sources < 3
    → 0 < d.next_source
    → let r = dispatch_query own id q d in
      Settled r.0
      × (waiting (r.0 ∷ []) + d.num_sources ≡ waiting (q ∷ []) + r.1.num_sources)
      × (d.num_sources ≤ r.1.num_sources)
      × (r.1.num_sources ≤ 3)
      × (r.1.num_alive ≡ d.num_alive)
      × (r.0.is_alive ≡ q.is_alive)
      × (0 < r.1.next_source)
unfolding dispatch_query waiting
dispatch_query_lem own id q d h k = ground arith

-- What the loop gives from the state `d`, for the queries it is to visit.
abbrev pub IsDispatched : List DhtQuery → Dispatch → List DhtQuery → Dispatch → Type 0
IsDispatched qs d qs' d' =
    (waiting qs' + d.num_sources ≡ waiting qs + d'.num_sources)
    × (d'.num_sources ≤ concurrency)
    × (d'.num_alive ≤ d.num_alive + alive qs')
    × (All Settled qs' ⊎ ((d'.num_sources ≡ concurrency) ⊎ (node_count ≤ d'.num_alive)))
    × (d.num_sources ≤ d'.num_sources)

pub dispatch_stop :
    (own id : DhtId) (q : DhtQuery) (qs : List DhtQuery) (d : Dispatch)
    → (ltb d.num_sources concurrency && ltb d.num_alive node_count) ≡ false
    → dispatch_loop own id (q ∷ qs) d ≡ (q ∷ qs, d, [])
unfolding dispatch_loop
dispatch_stop own id q qs d e = rw (dispatch_loop, e)

abbrev pub counted : DhtQuery → Dispatch → Dispatch
counted q d = record d { num_alive = if q.is_alive then d.num_alive + 1 else d.num_alive }

pub dispatch_go :
    (own id : DhtId) (q : DhtQuery) (qs : List DhtQuery) (d : Dispatch)
    → (ltb d.num_sources concurrency && ltb d.num_alive node_count) ≡ true
    → let r = dispatch_query own id q d in
      let rest = dispatch_loop own id qs (counted r.0 r.1) in
      dispatch_loop own id (q ∷ qs) d ≡ (r.0 ∷ rest.0, rest.1, r.2 ++ rest.2)
unfolding dispatch_loop
dispatch_go own id q qs d e = rw (dispatch_loop, e)

stopped :
    (m n : ℕ)
    → m ≤ 3
    → (ltb m concurrency && ltb n node_count) ≡ false
    → (m ≡ concurrency) ⊎ (node_count ≤ n)
stopped m n h e = ground arith

going : (m n : ℕ) → (ltb m concurrency && ltb n node_count) ≡ true → m < 3
going m n e = ground arith

combine :
    (q q' : DhtQuery) (qs qs' : List DhtQuery) (d d1 d2 : Dispatch)
    → Settled q'
    → waiting (q' ∷ []) + d.num_sources ≡ waiting (q ∷ []) + d1.num_sources
    → d1.num_alive ≡ d.num_alive
    → d.num_sources ≤ d1.num_sources
    → IsDispatched qs (counted q' d1) qs' d2
    → IsDispatched (q ∷ qs) d (q' ∷ qs') d2
unfolding waiting alive
combine q q' qs qs' d d1 d2 hs hw ha hm rest = (
  omega (arith, hw, rest.0),
  rest.1,
  ground (arith, ha, rest.2),
  elim rest.3 [ inl all ↦ inl (hs, all) | inr stop ↦ inr stop ],
  omega (arith, hm, rest.4),
)

pub dispatch_loop_lem :
    (own id : DhtId) (qs : List DhtQuery) (d : Dispatch)
    → d.num_sources ≤ concurrency
    → 0 < d.next_source
    → let r = dispatch_loop own id qs d in IsDispatched qs d r.0 r.1
dispatch_loop_lem own id [] d h k =
    unfold dispatch_loop in (refl, h, omega arith, inl tt, omega arith)
dispatch_loop_lem own id (q ∷ qs) d h k =
    elim (Bool-cases (ltb d.num_sources concurrency && ltb d.num_alive node_count)) [
      | inl e ↦
          let r = dispatch_query own id q d in
          let one = dispatch_query_lem own id q d (going d.num_sources d.num_alive e) k in
          let rest = dispatch_loop_lem own id qs (counted r.0 r.1) one.3 one.6 in
          subst (λ p. IsDispatched (q ∷ qs) d p.0 p.1) (sym (dispatch_go own id q qs d e))
            (combine q r.0 qs (dispatch_loop own id qs (counted r.0 r.1)).0 d r.1
              (dispatch_loop own id qs (counted r.0 r.1)).1 one.0 one.1 one.4 one.2 rest)
      | inr e ↦
          subst (λ p. IsDispatched (q ∷ qs) d p.0 p.1) (sym (dispatch_stop own id q qs d e))
            (refl, h, omega arith, inr (stopped d.num_sources d.num_alive h e), omega arith)
    ]

dispatch_query_idle :
    (own id : DhtId) (q : DhtQuery) (d : Dispatch)
    → d.num_sources < 3
    → (dispatch_query own id q d).1.num_sources ≡ 0
    → ((dispatch_query own id q d).0 ≡ q) × ((dispatch_query own id q d).2 ≡ [])
unfolding dispatch_query
dispatch_query_idle own id q d h =
    elim (not q.is_finished && (q.timeout_source == 0))
      as (λ b.
        let r : DhtQuery × Dispatch × List Effect =
          if b
          then (
            record q { timeout_source = d.next_source },
            record d { num_sources = inc_uint d.num_sources; next_source = d.next_source + 1 },
            send (address_deserialize q.addr) (lookup_request own id)
                ∷ add_timeout d.next_source
                ∷ [],
          )
          else (q, d, []) in
        r.1.num_sources ≡ 0 → (r.0 ≡ q) × (r.2 ≡ [])) [
          | true ↦ λ e. absurd (omega (arith, e, h))
          | false ↦ λ e. (refl, refl)
        ]

pub dispatch_loop_idle :
    (own id : DhtId) (qs : List DhtQuery) (d : Dispatch)
    → d.num_sources ≤ concurrency
    → 0 < d.next_source
    → (dispatch_loop own id qs d).1.num_sources ≡ 0
    → ((dispatch_loop own id qs d).0 ≡ qs) × ((dispatch_loop own id qs d).2 ≡ [])
dispatch_loop_idle own id [] d h k = unfold dispatch_loop in λ e. (refl, refl)
dispatch_loop_idle own id (q ∷ qs) d h k =
    elim (Bool-cases (ltb d.num_sources concurrency && ltb d.num_alive node_count)) [
      | inl e ↦
          let r = dispatch_query own id q d in
          let lt = going d.num_sources d.num_alive e in
          let one = dispatch_query_lem own id q d lt k in
          let rest = dispatch_loop_lem own id qs (counted r.0 r.1) one.3 one.6 in
          subst (λ p. p.1.num_sources ≡ 0 → (p.0 ≡ q ∷ qs) × (p.2 ≡ []))
            (sym (dispatch_go own id q qs d e))
            (λ z.
              let idle = dispatch_query_idle own id q d lt (omega (arith, z, rest.4)) in
              let tail = dispatch_loop_idle own id qs (counted r.0 r.1) one.3 one.6 z in
              (ap₂ (λ x xs. x ∷ xs) idle.0 tail.0, ap₂ (λ x y. x ++ y) idle.1 tail.1))
      | inr e ↦
          subst (λ p. p.1.num_sources ≡ 0 → (p.0 ≡ q ∷ qs) × (p.2 ≡ []))
            (sym (dispatch_stop own id q qs d e)) (λ z. (refl, refl))
    ]
