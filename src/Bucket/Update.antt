-- ===== src/Bucket/Update.antt =====
-- The well-formed routing table, and `dht_client_update`.
use nanotalk.Base.{
  ℕ, ◌+◌, ◌≤◌, ◌<◌, ◌≡◌, refl, sym, subst, ◌∙◌, inl, inr, Bool, true, false, Option, none, some, [],
  ◌∷◌, ◌++◌, ◌==◌, if◌then◌else◌, length, get_or, take, All, length-take, All-append, length-append,
  Bool-cases, arith,
}
use nanotalk.Common.{DhtId, DhtAddress, IsArray, id_size, id_xor}
use nanotalk.Bucket.{
  Node, Bucket, Table, Split, Scan, found, ended, node_count, uint_mod, inc_uint, fresh_node, touch,
  modify, split_loop, split_fuel, has_next, find_bucket, scan, insert_node, update_scanned, update,
  init_table,
}
use nanotalk.Bucket.Place.{
  Placed, Placed-snoc, InLast-at, offset, find_bucket-offset, Puts, Placed-put, LastAt,
  Placed-LastAt,
}
use nanotalk.Bucket.Grow.{total, total-snoc, IsSized, IsSplit, split_loop-IsSplit}
use nanotalk.Bucket.Modify.{
  AllIds-modify, touch-id, modify_const, total-modify, IsSized-modify, IsSized-get_or, IsSized-take,
  total-take, scan-count, length-modify,
}
use nanotalk.Bucket.Peers.{joins, update-peers}

-- Every node stands in the bucket of its metric, no bucket is over its limit, the counter of buckets
-- is their number, and the counter of peers is no less than the number of nodes.
pub record IsTable (t : Table) : Type 0 where
  pub own : IsArray id_size t.id
  pub placed : Placed t.id 0 t.buckets
  pub counted : t.num_buckets ≡ length t.buckets
  pub sized : All (λ (b : Bucket). length b ≤ node_count) t.buckets
  pub peers : total t.buckets ≤ t.num_peers

module _ (t : Table) (valid : IsTable t) (id : DhtId) (size : IsArray id_size id) where
  abbrev place : ℕ
  place = offset (id_xor t.id id) 0 t.buckets

  abbrev old : Bucket
  old = get_or t.buckets place []

  -- A change in the bucket where `id` belongs.
  put-IsTable :
      (f : Bucket → Bucket) (k peers : ℕ)
      → Puts id f
      → ((b : Bucket) → length (f b) ≤ length b + k)
      → IsSized (f old)
      → peers ≡ t.num_peers + k
      → IsTable (record t { buckets = modify f place t.buckets; num_peers = peers })
  put-IsTable f k peers puts grows small e = record {
    own = valid.own;
    placed = Placed-put t.id id size f puts 0 t.buckets (λ i p. absurd (omega arith)) valid.placed;
    counted = valid.counted ∙ sym (length-modify f place t.buckets);
    sized = IsSized-modify f place t.buckets small valid.sized;
    peers = omega (arith, valid.peers, total-modify f k place t.buckets grows);
  }

  put_node-IsTable :
      (g : Node → Node) (i : ℕ)
      → ((P : DhtId → Type 0) (x : Node) → P id → P x.id → P (g x).id)
      → IsTable (record t { buckets = modify (modify g i) place t.buckets })
  put_node-IsTable g i keeps =
      put-IsTable (modify g i) 0 t.num_peers
        (λ P b p h. AllIds-modify P g i b (λ x q. keeps P x p q) h)
        (λ b. omega (arith, length-modify g i b))
        (omega (arith, length-modify g i old, IsSized-get_or place t.buckets valid.sized))
        (omega arith)

  split_start : ℕ → DhtAddress → ℕ → Split
  split_start now addr count = record {
    behind = take place t.buckets;
    bucket = fresh_node now id addr ∷ old;
    nbits = place;
    count = count + 1;
    num_buckets = t.num_buckets;
  }

  split_start-IsSplit :
      (now : ℕ) (addr : DhtAddress) (count : ℕ)
      → length old < node_count
      → has_next place t.buckets ≡ false
      → IsSplit t.id (t.num_peers + 1) (split_start now addr count)
  unfolding split_start
  split_start-IsSplit now addr count small e = record {
    behind = l.behind;
    last = ((size, λ i p. l.shares i (omega arith)), InLast-at t.id old (omega arith) l.last);
    nbits = omega (arith, l.index);
    sized = IsSized-take place t.buckets valid.sized;
    small = omega arith;
    counted = omega (arith, valid.counted, l.end, l.index);
    fits = omega (arith, valid.peers, total-take place t.buckets);
  }
    where
      l : LastAt t.id id 0 t.buckets place
      l = Placed-LastAt t.id id 0 t.buckets (λ i p. absurd (omega arith)) valid.placed e

  end-IsTable :
      (s : Split)
      → IsSplit t.id (t.num_peers + 1) s
      → t.num_peers + 1 < uint_mod
      → IsTable (record t {
        buckets = s.behind ++ (s.bucket ∷ []);
        num_buckets = s.num_buckets;
        num_peers = inc_uint t.num_peers;
      })
  end-IsTable s h peers = record {
    own = valid.own;
    placed = Placed-snoc t.id 0 s.behind s.bucket h.behind (InLast-at t.id s.bucket h.nbits h.last);
    counted = omega (arith, h.counted, length-append s.behind (s.bucket ∷ []));
    sized = All-append IsSized s.behind (s.bucket ∷ []) h.sized (h.small, tt);
    peers = omega (arith, h.fits, total-snoc s.behind s.bucket);
  }

  insert_node-IsTable :
      (now : ℕ) (addr : DhtAddress) (count : ℕ)
      → t.num_peers + 1 < uint_mod
      → length t.buckets + split_fuel + 2 < uint_mod
      → length old < node_count
      → IsTable (insert_node now id addr place count t)
  unfolding insert_node split_start
  insert_node-IsTable now addr count peers room small =
      elim (Bool-cases (has_next place t.buckets)) [
        | inl e ↦
            rw (e, insert_node, modify_const (λ b. fresh_node now id addr ∷ b) place t.buckets)
              (put-IsTable (λ b. fresh_node now id addr ∷ b) 1 (inc_uint t.num_peers)
                (λ P b p h. (p, h)) (λ b. omega arith) (omega arith) (omega arith))
        | inr e ↦
            rw (e, insert_node)
              (end-IsTable (split_loop split_fuel t.id (split_start now addr count))
                (split_loop-IsSplit t.id valid.own (t.num_peers + 1) split_fuel
                  (split_start now addr count) (omega (arith, length-take place t.buckets))
                  (split_start-IsSplit now addr count small e))
                peers)
      ]

  update_scanned-IsTable :
      (now : ℕ) (addr : DhtAddress) (alive : Bool) (s : Scan)
      → t.num_peers + 1 < uint_mod
      → length t.buckets + split_fuel + 2 < uint_mod
      → scan id old 0 none ≡ s
      → IsTable (update_scanned now id addr alive place s t)
  unfolding update_scanned
  update_scanned-IsTable now addr alive (found i) peers room e =
      put_node-IsTable (touch now addr alive) i
        (λ P x p h. subst P (sym (touch-id now addr alive x)) h)
  update_scanned-IsTable now addr false (ended count r) peers room e = valid
  update_scanned-IsTable now addr true (ended count r) peers room e =
      elim (Bool-cases (count == node_count)) [
        | inl full ↦ rw (full, update_scanned) (replaced r)
        | inr more ↦
            rw (more, update_scanned) (insert_node-IsTable now addr count peers room (roomy more))
      ]
    where
      roomy : (count == node_count) ≡ false → length old < node_count
      roomy less = ground (
        arith,
        scan-count id old 0 count none r e,
        IsSized-get_or place t.buckets valid.sized,
        less,
      )

      replaced :
          (q : Option ℕ)
          → IsTable (elim q [
            | none ↦ t
            | some i ↦ record t {
              buckets = modify (modify (λ _. fresh_node now id addr) i) place t.buckets;
            }
          ])
      replaced none = valid
      replaced (some i) = put_node-IsTable (λ _. fresh_node now id addr) i (λ P x p h. p)

-- `dht_client_update` keeps the routing table well formed, whatever identifier of 20 bytes, address
-- and flag it is called with, as long as the counters of peers and of buckets are not at the end of
-- their range. It counts one more peer exactly if the node answers, is not in its bucket, and the
-- bucket is not full.
pub update-IsTable :
    (now : ℕ) (id : DhtId) (addr : DhtAddress) (alive : Bool) (t : Table)
    → IsTable t
    → IsArray id_size id
    → t.num_peers + 1 < uint_mod
    → length t.buckets + split_fuel + 2 < uint_mod
    → let u = update now id addr alive t in
      let b = get_or t.buckets (find_bucket (id_xor t.id id) 0 t.buckets) [] in
      IsTable u × (u.num_peers ≡ t.num_peers + (if joins alive id b then 1 else 0))
update-IsTable now id addr alive t valid size peers room = (
  unfold update in
      rw at_place (
        update_scanned-IsTable t valid id size now addr alive
          (scan id (get_or t.buckets (offset (id_xor t.id id) 0 t.buckets) []) 0 none) peers room
          refl),
  update-peers now id addr alive t peers,
)
  where
    at_place : find_bucket (id_xor t.id id) 0 t.buckets ≡ offset (id_xor t.id id) 0 t.buckets
    at_place = omega (arith, find_bucket-offset (id_xor t.id id) 0 t.buckets)

-- The table that `dht_client_init` makes is well formed, if the identifier has 20 bytes.
pub init_table-IsTable : (id : DhtId) → IsArray id_size id → IsTable (init_table id)
unfolding init_table
init_table-IsTable id size = record {
  own = size;
  placed = tt;
  counted = refl;
  sized = (omega arith, tt);
  peers = omega arith;
}
