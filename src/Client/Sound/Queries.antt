-- ===== src/Client/Sound/Queries.antt =====
-- The sequence of queries of a lookup stays sorted.
use mathlib.Core.Option.{some-injective}
use nanotalk.Base.{
  ◌≡◌, ◌≢◌, refl, sym, ap, ap₂, ◌∙◌, subst, inl, inr, false, none, some, List, [], ◌∷◌, All,
  All-map, bytes_eq_sound, bytes_eq_iff, if◌then◌else◌, Bool-cases, if_both, arith,
}
use nanotalk.Common.{DhtId, DhtAddress, IsArray, id_size, address_equal, id_equal}
use nanotalk.Client.{DhtQuery}
use nanotalk.Client.Tables.{chosen}
use nanotalk.Client.Lookup.{find_query, modify_query}
use nanotalk.Client.Receive.{remove_query, store_query, settle_query}
use nanotalk.Client.Sound.{Key, query_key, query_keys, Precedes, InOrder, IsMetric, IsSorted}
use nanotalk.Client.Sound.Insert.{remove_query-All, insert_query-IsSorted, Lacks}

differs : (a b : DhtAddress) → address_equal a b ≡ false → a ≢ b
differs a b other e = ground (arith, other, (bytes_eq_iff a b).1 e)

remove_query-InOrder :
    (addr : DhtAddress) (qs : List DhtQuery)
    → InOrder (query_keys qs)
    → InOrder (query_keys (remove_query addr qs))
unfolding remove_query
remove_query-InOrder addr [] h = tt
remove_query-InOrder addr (q ∷ qs) h =
    let rest = remove_query-InOrder addr qs h.1 in
    if_both (λ ks. InOrder (query_keys ks)) (address_equal q.addr addr) _ _ h.1
      (remove_query-All (Precedes (query_key q)) addr qs h.0, rest)

remove_query-Lacks :
    (addr : DhtAddress) (qs : List DhtQuery)
    → InOrder (query_keys qs)
    → Lacks addr (remove_query addr qs)
unfolding remove_query
remove_query-Lacks addr [] h = tt
remove_query-Lacks addr (q ∷ qs) h =
    let rest = remove_query-Lacks addr qs h.1 in
    elim (Bool-cases (address_equal q.addr addr)) [
      | inl same ↦
          rw (same, remove_query)
            (subst (λ a. Lacks a qs) (bytes_eq_sound q.addr addr same)
              (All-map (Precedes (query_key q)) (λ (k : Key). k.1 ≢ q.addr) (query_keys qs)
                (λ k p. p.1) h.0))
      | inr other ↦ rw (other, remove_query) (differs q.addr addr other, rest)
    ]

remove_query-IsSorted :
    (addr : DhtAddress) (qs : List DhtQuery) → IsSorted qs → IsSorted (remove_query addr qs)
remove_query-IsSorted addr qs h =
    (remove_query-All IsMetric addr qs h.0, remove_query-InOrder addr qs h.1)

pub find_query_missing :
    (addr : DhtAddress) (qs : List DhtQuery) → find_query addr qs ≡ none → Lacks addr qs
unfolding find_query
find_query_missing addr [] e = tt
find_query_missing addr (q ∷ qs) e = elim (Bool-cases (address_equal q.addr addr)) [
  | inl same ↦ absurd (ground (arith, e, same))
  | inr other ↦ (
    differs q.addr addr other,
    find_query_missing addr qs
        (subst (λ b. (if b then some q else find_query addr qs) ≡ none) other e),
  )
]

pub find_query-All :
    (P : Key → Type 0) (addr : DhtAddress) (q : DhtQuery) (qs : List DhtQuery)
    → All P (query_keys qs)
    → find_query addr qs ≡ some q
    → P (query_key q)
unfolding find_query
find_query-All P addr q [] h e = absurd (ground arith)
find_query-All P addr q (r ∷ rs) h e =
    elim (chosen (address_equal r.addr addr) r q (find_query addr rs) e) [
      | inl (same, eq) ↦ subst (λ (x : DhtQuery). P (query_key x)) eq h.0
      | inr later ↦ find_query-All P addr q rs h.1 later
    ]

-- A change of a query that keeps its metric and its address.
modify_query-keys :
    (f : DhtQuery → DhtQuery) (addr : DhtAddress) (qs : List DhtQuery)
    → ((q : DhtQuery) → query_key (f q) ≡ query_key q)
    → query_keys (modify_query f addr qs) ≡ query_keys qs
unfolding modify_query
modify_query-keys f addr [] same = refl
modify_query-keys f addr (q ∷ qs) same =
    if_both (λ ks. query_keys ks ≡ query_keys (q ∷ qs)) (address_equal q.addr addr) _ _
      (ap (λ k. k ∷ query_keys qs) (same q))
      (ap (λ ks. query_key q ∷ ks) (modify_query-keys f addr qs same))

store_query-keys :
    (q' q : DhtQuery) (qs : List DhtQuery)
    → q'.metric ≡ q.metric
    → find_query q'.addr qs ≡ some q
    → query_keys (store_query q' qs) ≡ query_keys qs
unfolding find_query store_query
store_query-keys q' q [] same e = refl
store_query-keys q' q (r ∷ rs) same e =
    let rest = store_query-keys q' q rs same in
    elim (Bool-cases (address_equal r.addr q'.addr)) [
      | inl here ↦
          let found : some r ≡ some q =
            subst (λ b. (if b then some r else find_query q'.addr rs) ≡ some q) here e in
          let metric = same ∙ ap (λ (x : DhtQuery). x.metric) (sym (some-injective r q found)) in
          rw (here, store_query)
            (ap (λ k. k ∷ query_keys rs)
              (ap₂ (λ m a. (m, a)) metric (sym (bytes_eq_sound r.addr q'.addr here))))
      | inr there ↦
          let found = subst (λ b. (if b then some r else find_query q'.addr rs) ≡ some q) there e in
          rw (there, store_query) (ap (λ ks. query_key r ∷ ks) (rest found))
    ]

IsSorted-keys : (ps qs : List DhtQuery) → query_keys ps ≡ query_keys qs → IsSorted qs → IsSorted ps
IsSorted-keys ps qs e h = subst (λ ks. All IsMetric ks × InOrder ks) (sym e) h

pub modify_query-IsSorted :
    (f : DhtQuery → DhtQuery) (addr : DhtAddress) (qs : List DhtQuery)
    → ((q : DhtQuery) → query_key (f q) ≡ query_key q)
    → IsSorted qs
    → IsSorted (modify_query f addr qs)
modify_query-IsSorted f addr qs same h =
    IsSorted-keys (modify_query f addr qs) qs (modify_query-keys f addr qs same) h

-- An answer moves its query to where its new metric belongs.
pub settle_query-IsSorted :
    (metric : DhtId) (q' q : DhtQuery) (qs : List DhtQuery)
    → IsArray id_size metric
    → q'.metric ≡ q.metric
    → find_query q'.addr qs ≡ some q
    → IsSorted qs
    → IsSorted (settle_query metric q' qs)
unfolding settle_query
settle_query-IsSorted metric q' q qs hm same e h =
    if_both IsSorted (id_equal metric q'.metric) _ _
      (IsSorted-keys (store_query q' qs) qs (store_query-keys q' q qs same e) h)
      (insert_query-IsSorted (record q' { metric = metric }) (remove_query q'.addr qs) hm
        (remove_query-Lacks q'.addr qs h.1) (remove_query-IsSorted q'.addr qs h))
