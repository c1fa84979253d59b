-- ===== src/Client/Sound/Insert.antt =====
-- A query takes its place in the sequence of a lookup.
use nanotalk.Base.{◌≤◌, ◌<◌, ◌≡◌, ◌≢◌, sym, List, [], ◌∷◌, All, Ordering, if_both, dec_lt, arith}
use nanotalk.Common.{DhtAddress, IsArray, id_size, address_equal, id_compare}
use nanotalk.Common.Order.{value, id_compare-value}
use nanotalk.Client.{DhtQuery}
use nanotalk.Client.Lookup.{insert_query}
use nanotalk.Client.Receive.{remove_query}
use nanotalk.Client.Sound.{Key, query_key, query_keys, Precedes, InOrder, IsMetric, IsSorted}

insert_near :
    (q r : DhtQuery) (rs : List DhtQuery)
    → IsArray id_size q.metric
    → IsArray id_size r.metric
    → value q.metric < value r.metric
    → insert_query q (r ∷ rs) ≡ q ∷ r ∷ rs
unfolding insert_query
insert_near q r rs hq hr h = ground (arith, id_compare-value id_size q.metric r.metric hq hr)

insert_far :
    (q r : DhtQuery) (rs : List DhtQuery)
    → IsArray id_size q.metric
    → IsArray id_size r.metric
    → value r.metric ≤ value q.metric
    → insert_query q (r ∷ rs) ≡ r ∷ insert_query q rs
unfolding insert_query
insert_far q r rs hq hr h = ground (arith, id_compare-value id_size q.metric r.metric hq hr)

module _ (P : Key → Type 0) where
  pub insert_query-All :
      (q : DhtQuery) (qs : List DhtQuery)
      → P (query_key q)
      → All P (query_keys qs)
      → All P (query_keys (insert_query q qs))
  unfolding insert_query
  insert_query-All q [] h k = (h, tt)
  insert_query-All q (r ∷ rs) h k =
      let rest = insert_query-All q rs h k.1 in
      elim (id_compare q.metric r.metric)
        as (λ o.
          All P (query_keys (elim o [ Ordering.lt ↦ q ∷ r ∷ rs | _ ↦ r ∷ insert_query q rs ]))) [
            | Ordering.lt ↦ (h, k)
            | Ordering.eq ↦ (k.0, rest)
            | Ordering.gt ↦ (k.0, rest)
          ]

  pub remove_query-All :
      (addr : DhtAddress) (qs : List DhtQuery)
      → All P (query_keys qs)
      → All P (query_keys (remove_query addr qs))
  unfolding remove_query
  remove_query-All addr [] h = tt
  remove_query-All addr (q ∷ qs) h =
      let rest = remove_query-All addr qs h.1 in
      if_both (λ ks. All P (query_keys ks)) (address_equal q.addr addr) _ _ h.1 (h.0, rest)

-- No query has the address.
abbrev pub Lacks : DhtAddress → List DhtQuery → Type 0
Lacks addr qs = All (λ (k : Key). k.1 ≢ addr) (query_keys qs)

lower_bound :
    (k j : Key) (ks : List Key)
    → value k.0 ≤ value j.0
    → All (Precedes j) ks
    → All (λ (i : Key). i.1 ≢ k.1) ks
    → All (Precedes k) ks
lower_bound k j [] le h new = tt
lower_bound k j (i ∷ ks) le h new =
    ((omega (arith, le, h.0.0), new.0), lower_bound k j ks le h.1 new.1)

insert_query-InOrder :
    (q : DhtQuery) (qs : List DhtQuery)
    → IsArray id_size q.metric
    → Lacks q.addr qs
    → IsSorted qs
    → InOrder (query_keys (insert_query q qs))
insert_query-InOrder q [] hq new h = unfold insert_query in (tt, tt)
insert_query-InOrder q (r ∷ rs) hq new h =
    let rest = insert_query-InOrder q rs hq new.1 (h.0.1, h.1.1) in
    elim (dec_lt (value q.metric) (value r.metric)) [
      | yes near ↦
          let le : value q.metric ≤ value r.metric = omega (arith, near) in
          rw (insert_near q r rs hq h.0.0 near) (
            ((le, new.0), lower_bound (query_key q) (query_key r) (query_keys rs) le h.1.0 new.1),
            h.1,
          )
      | no near ↦ rw (insert_far q r rs hq h.0.0 (omega arith)) (
        insert_query-All (Precedes (query_key r)) q rs (omega arith, λ e. new.0 (sym e)) h.1.0,
        rest,
      )
    ]

-- A query with a new address takes its place.
pub insert_query-IsSorted :
    (q : DhtQuery) (qs : List DhtQuery)
    → IsArray id_size q.metric
    → Lacks q.addr qs
    → IsSorted qs
    → IsSorted (insert_query q qs)
insert_query-IsSorted q qs hq new h =
    (insert_query-All IsMetric q qs hq h.0, insert_query-InOrder q qs hq new h)
