-- ===== src/Client/Pending.antt =====
-- What keeps a lookup of a client going: requests that wait, each with a timer.
pub mod Queries
pub mod Dispatch
pub mod Handlers
pub mod Datagrams
pub mod Life
use nanotalk.Base.{◌≤◌, ◌<◌, ◌≡◌, All}
use nanotalk.Client.{DhtLookup, Client}
use nanotalk.Client.Lookup.{concurrency}
use nanotalk.Client.Sources.Loop.{waiting}

-- The counter of a lookup is exact, and there is room for its requests.
abbrev pub IsCounted : DhtLookup → Type 0
IsCounted l = (l.num_sources ≡ waiting l.queries) × (l.num_sources ≤ concurrency)

-- A request waits, too.
abbrev pub IsPending : DhtLookup → Type 0
IsPending l = IsCounted l × (0 < l.num_sources)

-- The lookups of a client are pending, and its sources are numbered from 1.
abbrev pub IsGoing : Client → Type 0
IsGoing c = All IsPending c.lookup_table × (0 < c.next_source)
