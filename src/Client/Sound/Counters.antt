-- ===== src/Client/Sound/Counters.antt =====
-- The routing table of a client counts its changes.
use nanotalk.Base.{ℕ, suc, ◌≤◌, ◌<◌, Bool, arith}
use nanotalk.Common.{DhtId, DhtAddress, IsArray, id_size}
use nanotalk.Bucket.{Table, update, uint_mod}
use nanotalk.Bucket.Update.{update-IsTable, IsTable}
use nanotalk.Bucket.Count.{update-IsNear}
use nanotalk.Search.{search_nodes}
use nanotalk.Search.Prune.{search_nodes-IsTable, search_nodes-counters}
use nanotalk.Search.Members.{Named, search_nodes-Named, Placed-IsArray}
use nanotalk.Client.Sound.{IsCounted, most_events}

pub update-IsCounted :
    (n now : ℕ) (id : DhtId) (addr : DhtAddress) (alive : Bool) (t : Table)
    → n < most_events
    → IsArray id_size id
    → IsCounted n t
    → IsCounted (suc n) (update now id addr alive t)
update-IsCounted n now id addr alive t room size h =
    let near = update-IsNear now id addr alive t in
    record {
      table =
          (update-IsTable now id addr alive t h.table size (omega (arith, room, h.peers))
            (omega (arith, room, h.few))).0;
      peers = omega (arith, near.0, h.peers);
      few = omega (arith, near.1, h.few);
    }

pub search_nodes-IsCounted :
    (n now : ℕ) (id : DhtId) (t : Table)
    → n ≤ most_events
    → IsCounted n t
    → IsCounted n (search_nodes now id t).0
search_nodes-IsCounted n now id t room h =
    let range : t.num_peers < uint_mod = omega (arith, room, h.peers) in
    let same = search_nodes-counters now id t h.table range in
    record {
      table = (search_nodes-IsTable now id t h.table range).0;
      peers = omega (arith, same.0, h.peers);
      few = omega (arith, same.1, h.few);
    }

pub search_nodes-IsArray :
    (now : ℕ) (id : DhtId) (t : Table)
    → IsTable t
    → Named (IsArray id_size) (search_nodes now id t).1
search_nodes-IsArray now id t h =
    search_nodes-Named (IsArray id_size) now id t (Placed-IsArray t.id 0 t.buckets h.placed)

pub IsCounted-suc : (n : ℕ) (t : Table) → IsCounted n t → IsCounted (suc n) t
IsCounted-suc n t h = record {
  table = h.table;
  peers = omega (arith, h.peers);
  few = omega (arith, h.few);
}
