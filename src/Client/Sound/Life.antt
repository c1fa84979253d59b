-- ===== src/Client/Sound/Life.antt =====
-- The routing table and the order of the queries over the whole life of a client.
use nanotalk.Base.{
  ℕ, suc, ◌+◌, ◌≤◌, ◌≢◌, subst, List, [], ◌∷◌, length, All, All-map, arith, Ordering,
}
use nanotalk.Common.{DhtKey, Sodium, IsArray, id_size, id_compare}
use nanotalk.Bucket.{init_table}
use nanotalk.Bucket.Update.{IsTable, init_table-IsTable}
use nanotalk.Client.{DhtQuery, DhtLookup, Client, new_client}
use nanotalk.Client.Run.{Event, handle, run}
use nanotalk.Client.Sound.{
  IsOrdered, IsSound, IsSorted, IsMetric, Precedes, most_events, query_key, query_keys,
}
use nanotalk.Common.Order.{id_compare-value}
use nanotalk.Client.Sound.Handlers.{IsInput, handle-IsSound}

module _ (s : Sodium) (randombytes : ℕ → DhtKey) where
  run-IsSound :
      (n : ℕ) (es : List Event) (c : Client)
      → n + length es ≤ most_events
      → All IsInput es
      → IsSound n c
      → IsSound (n + length es) (run s randombytes es c).0
  unfolding run
  run-IsSound n [] c room i h = subst (λ m. IsSound m c) (omega arith) h
  run-IsSound n (e ∷ es) c room i h =
      let c1 = (handle s randombytes e c).0 in
      let one = handle-IsSound s randombytes n e c (omega (arith, room)) i.0 h in
      let end = (run s randombytes es c1).0 in
      subst (λ m. IsSound m end) (omega arith)
        (run-IsSound (suc n) es c1 (omega (arith, room)) i.1 one)

new_client-IsSound :
    (s : Sodium) (key : DhtKey)
    → IsArray id_size (new_client s key).id
    → IsSound 0 (new_client s key)
unfolding new_client init_table
new_client-IsSound s key size = (
  record {
    table = init_table-IsTable (new_client s key).id size;
    peers = omega arith;
    few = omega arith;
  },
  tt,
)

-- Whatever a client has been through since `dht_client_new`, its routing table is well formed: every
-- node stands in the bucket of its identifier, no bucket holds more than 16 nodes, and the counter
-- of buckets is exact and that of peers no less than their number. It is assumed that there were
-- at most 2 ^ 30 events, that the client's own identifier, those it is called with and the random
-- bytes of a refresh are arrays of their size, and that a datagram consists of bytes and is no
-- longer than `MSG_MTU`.
pub run-IsTable :
    (s : Sodium) (randombytes : ℕ → DhtKey) (key : DhtKey) (es : List Event)
    → IsArray id_size (new_client s key).id
    → length es ≤ most_events
    → All IsInput es
    → IsTable (run s randombytes es (new_client s key)).0.table
run-IsTable s randombytes key es size room i =
    (run-IsSound s randombytes 0 es (new_client s key) (omega (arith, room)) i
      (new_client-IsSound s key size)).0.table

-- A query before another one in the sequence of a lookup.
abbrev pub Before : DhtQuery → DhtQuery → Type 0
Before q r = (id_compare q.metric r.metric ≢ Ordering.gt) × (r.addr ≢ q.addr)

abbrev pub InSequence : List DhtQuery → Type 0
InSequence [] = Unit
InSequence (q ∷ qs) = All (Before q) qs × InSequence qs

by_metric :
    (q : DhtQuery) (qs : List DhtQuery)
    → IsArray id_size q.metric
    → All IsMetric (query_keys qs)
    → All (Precedes (query_key q)) (query_keys qs)
    → All (Before q) qs
by_metric q [] hq m h = tt
by_metric q (r ∷ rs) hq m h = ((not_after, h.0.1), by_metric q rs hq m.1 h.1)
  where
    not_after : id_compare q.metric r.metric ≢ Ordering.gt
    not_after = rw (id_compare-value id_size q.metric r.metric hq m.0) (ground (arith, h.0.0))

IsSorted-InSequence : (qs : List DhtQuery) → IsSorted qs → InSequence qs
IsSorted-InSequence [] h = tt
IsSorted-InSequence (q ∷ qs) h =
    (by_metric q qs h.0.0 h.0.1 h.1.0, IsSorted-InSequence qs (h.0.1, h.1.1))

-- Whatever a client has been through since `dht_client_new`, the sequence of each of its lookups is
-- in the order of `dht_id_compare`, the nearest query first, although answers change the metrics of
-- queries, and no two queries of a lookup have one address. What is assumed is as for the routing
-- table: at most 2 ^ 30 events, and arrays of bytes of their sizes.
pub run-InSequence :
    (s : Sodium) (randombytes : ℕ → DhtKey) (key : DhtKey) (es : List Event)
    → IsArray id_size (new_client s key).id
    → length es ≤ most_events
    → All IsInput es
    → All
        (λ (l : DhtLookup). InSequence l.queries)
        (run s randombytes es (new_client s key)).0.lookup_table
run-InSequence s randombytes key es size room i =
    All-map IsOrdered (λ (l : DhtLookup). InSequence l.queries)
      (run s randombytes es (new_client s key)).0.lookup_table
      (λ l h. IsSorted-InSequence l.queries h.1)
      (run-IsSound s randombytes 0 es (new_client s key) (omega (arith, room)) i
        (new_client-IsSound s key size)).1
