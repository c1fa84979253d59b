-- ===== src/Client/Sound.antt =====
-- What a client keeps sound throughout its life: its routing table, and the order of its lookups'
-- queries.
pub mod Insert
pub mod Queries
pub mod Counters
pub mod Dispatch
pub mod Datagrams
pub mod Handlers
pub mod Life
use nanotalk.Base.{ℕ, ◌+◌, ◌*◌, ◌^◌, ◌≤◌, ◌≢◌, List, [], ◌∷◌, length, All}
use nanotalk.Common.{DhtId, DhtAddress, IsArray, id_size}
use nanotalk.Common.Order.{value}
use nanotalk.Bucket.{Table}
use nanotalk.Bucket.Update.{IsTable}
use nanotalk.Client.{DhtQuery, DhtLookup, Client}

-- What places a query in the sequence and in the table of its lookup.
abbrev pub Key : Type 0
Key = DhtId × DhtAddress

abbrev pub query_key : DhtQuery → Key
query_key q = (q.metric, q.addr)

abbrev pub query_keys : List DhtQuery → List Key
query_keys [] = []
query_keys (q ∷ qs) = query_key q ∷ query_keys qs

-- A query may stand before another one: it is not farther, and has another address.
abbrev pub Precedes : Key → Key → Type 0
Precedes k j = (value k.0 ≤ value j.0) × (j.1 ≢ k.1)

abbrev pub InOrder : List Key → Type 0
InOrder [] = Unit
InOrder (k ∷ ks) = All (Precedes k) ks × InOrder ks

abbrev pub IsMetric : Key → Type 0
IsMetric k = IsArray id_size k.0

-- The queries of a lookup are sorted and have different addresses.
abbrev pub IsSorted : List DhtQuery → Type 0
IsSorted qs = All IsMetric (query_keys qs) × InOrder (query_keys qs)

abbrev pub IsOrdered : DhtLookup → Type 0
IsOrdered l = IsArray id_size l.id × IsSorted l.queries

-- Events that the counters of the routing table have room for.
abbrev pub most_events : ℕ
most_events = 2 ^ 30

-- A table that is well formed and has counted `n` events.
pub record IsCounted (n : ℕ) (t : Table) : Type 0 where
  pub table : IsTable t
  pub peers : t.num_peers ≤ n
  pub few : length t.buckets ≤ 1 + 3 * n

-- A client that has handled `n` events.
abbrev pub IsSound : ℕ → Client → Type 0
IsSound n c = IsCounted n c.table × All IsOrdered c.lookup_table
