-- ===== src/Search/Prune.antt =====
-- The nodes that `dht_client_search` deletes, and the well-formed routing table.
use nanotalk.Base.{
  ℕ, suc, ◌+◌, ◌≤◌, ◌<◌, ◌≡◌, refl, sym, ap, ◌∙◌, inl, inr, Bool, true, false, List, [], ◌∷◌, ◌++◌,
  ◌==◌, if◌then◌else◌, length, All, Bool-cases, arith,
}
use nanotalk.Common.{DhtId, id_xor, bit}
use nanotalk.Bucket.{Node, Bucket, Table, node_count, uint_mod, dec_uint}
use nanotalk.Bucket.Place.{InLast, InInner, AllIds, Placed}
use nanotalk.Bucket.Grow.{total, IsSized}
use nanotalk.Bucket.Update.{IsTable}
use nanotalk.Search.{Found, is_listed, msg_node, visit, visit_if, walk, search_nodes}

-- Deletions from a bucket.
data Shrinks : Bucket → Bucket → Type 0 where
  end : Shrinks [] []
  kept : (x : Node) {b c : Bucket} → Shrinks b c → Shrinks (x ∷ b) (x ∷ c)
  cut : (x : Node) {b c : Bucket} → Shrinks b c → Shrinks (x ∷ b) c

Shrinks-refl : (b : Bucket) → Shrinks b b
Shrinks-refl [] = end
Shrinks-refl (x ∷ b) = kept x (Shrinks-refl b)

Shrinks-trans : {b c d : Bucket} → Shrinks b c → Shrinks c d → Shrinks b d
Shrinks-trans end h = h
Shrinks-trans (kept x h) (kept y k) = kept x (Shrinks-trans h k)
Shrinks-trans (kept x h) (cut y k) = cut x (Shrinks-trans h k)
Shrinks-trans (cut x h) k = cut x (Shrinks-trans h k)

Shrinks-ids : (P : DhtId → Type 0) {b c : Bucket} → Shrinks b c → AllIds P b → AllIds P c
Shrinks-ids P end p = p
Shrinks-ids P (kept x h) p = (p.0, Shrinks-ids P h p.1)
Shrinks-ids P (cut x h) p = Shrinks-ids P h p.1

Shrinks-length : {b c : Bucket} → Shrinks b c → length c ≤ length b
Shrinks-length end = omega arith
Shrinks-length (kept x h) = omega (arith, Shrinks-length h)
Shrinks-length (cut x h) = omega (arith, Shrinks-length h)

data ShrinkAll : List Bucket → List Bucket → Type 0 where
  none_left : ShrinkAll [] []
  each :
      {b c : Bucket} {bs cs : List Bucket}
      → Shrinks b c
      → ShrinkAll bs cs
      → ShrinkAll (b ∷ bs) (c ∷ cs)

ShrinkAll-refl : (bs : List Bucket) → ShrinkAll bs bs
ShrinkAll-refl [] = none_left
ShrinkAll-refl (b ∷ bs) = each (Shrinks-refl b) (ShrinkAll-refl bs)

ShrinkAll-IsSized : {bs cs : List Bucket} → ShrinkAll bs cs → All IsSized bs → All IsSized cs
ShrinkAll-IsSized none_left h = h
ShrinkAll-IsSized (each s r) h = (omega (arith, Shrinks-length s, h.0), ShrinkAll-IsSized r h.1)

ShrinkAll-length : {bs cs : List Bucket} → ShrinkAll bs cs → length bs ≡ length cs
ShrinkAll-length none_left = refl
ShrinkAll-length (each s r) = ap suc (ShrinkAll-length r)

ShrinkAll-total : {bs cs : List Bucket} → ShrinkAll bs cs → total cs ≤ total bs
ShrinkAll-total none_left = omega arith
ShrinkAll-total (each s r) = omega (arith, Shrinks-length s, ShrinkAll-total r)

ShrinkAll-Placed :
    (own : DhtId) (n : ℕ) {bs cs : List Bucket}
    → ShrinkAll bs cs
    → Placed own n bs
    → Placed own n cs
ShrinkAll-Placed own n none_left h = h
ShrinkAll-Placed own n (each s none_left) h = Shrinks-ids (InLast own n) s h
ShrinkAll-Placed own n (each s (each r q)) h =
    (Shrinks-ids (InInner own n) s h.0, ShrinkAll-Placed own (suc n) (each r q) h.1)

-- Every node deleted from a bucket is counted off.
record Visited (b : Bucket) (f : Found) (r : Bucket × Found) : Type 0 where
  shrinks : Shrinks b r.0
  peers : r.1.num_peers + length b ≡ f.num_peers + length r.0

abbrev Enough : ℕ → Found → Type 0
Enough n f = (n ≤ f.num_peers) × (f.num_peers < uint_mod)

Visited-kept :
    (x : Node) (b : Bucket) (f g : Found) (r : Bucket × Found)
    → f.num_peers ≡ g.num_peers
    → Visited b g r
    → Visited (x ∷ b) f (x ∷ r.0, r.1)
Visited-kept x b f g r e v = record { shrinks = kept x v.shrinks; peers = omega (arith, v.peers) }

Visited-cut :
    (x : Node) (b : Bucket) (f : Found) (r : Bucket × Found)
    → Enough (suc (length b)) f
    → Visited b (record f { num_peers = dec_uint f.num_peers }) r
    → Visited (x ∷ b) f r
Visited-cut x b f r h v = record { shrinks = cut x v.shrinks; peers = omega (arith, v.peers) }

visit-Visited :
    (now : ℕ) (b : Bucket) (f : Found) → Enough (length b) f → Visited b f (visit now b f)
unfolding visit
visit-Visited now [] f h = record { shrinks = end; peers = refl }
visit-Visited now (x ∷ b) f h = elim (Bool-cases (is_listed now x)) [
  | inr e ↦
      rw (e, visit)
        (Visited-cut x b f (visit now b (record f { num_peers = dec_uint f.num_peers })) h (
          visit-Visited now b (record f { num_peers = dec_uint f.num_peers })
            (omega arith, omega arith)))
  | inl e ↦ elim (Bool-cases (f.count + 1 == node_count)) [
    | inl full ↦
        rw (e, full, visit)
          (Visited-kept x b f g (b, g) refl (record { shrinks = Shrinks-refl b; peers = refl }))
    | inr more ↦
        rw (e, more, visit)
          (Visited-kept x b f g (visit now b g) refl (visit-Visited now b g (omega arith, h.1)))
  ]
]
  where
    g : Found
    g = record f { nodes = f.nodes ++ (msg_node x ∷ []); count = f.count + 1 }

visit_if-Visited :
    (c : Bool) (now : ℕ) (b : Bucket) (f : Found)
    → Enough (length b) f
    → Visited b f (visit_if c now b f)
unfolding visit_if
visit_if-Visited true now b f h = visit-Visited now b f h
visit_if-Visited false now b f h = record { shrinks = Shrinks-refl b; peers = refl }

record Walked (bs : List Bucket) (f : Found) (r : List Bucket × Found) : Type 0 where
  shrinks : ShrinkAll bs r.0
  peers : r.1.num_peers + total bs ≡ f.num_peers + total r.0

module _ (metric : DhtId) (now n : ℕ) (b : Bucket) (rest : List Bucket) (f : Found) where
  abbrev out : Bucket × Found
  out = visit_if (bit metric n) now b f

  abbrev back : List Bucket × Found
  back = walk metric now (n + 1) rest out.1

  abbrev final : Bucket × Found
  final = visit_if (if bit metric n then false else true) now out.0 back.1

  module _ (v : Visited b f out) (w : Walked rest out.1 back) (u : Visited out.0 back.1 final) where
    walk_step-Walked : Walked (b ∷ rest) f (walk metric now n (b ∷ rest) f)
    unfolding walk
    walk_step-Walked = elim (Bool-cases (out.1.count == node_count)) [
      | inl full ↦
          rw (full, walk)
            (record {
              shrinks = each v.shrinks (ShrinkAll-refl rest);
              peers = omega (arith, v.peers);
            })
      | inr more ↦ elim (Bool-cases (back.1.count == node_count)) [
        | inl full ↦
            rw (more, full, walk)
              (record {
                shrinks = each v.shrinks w.shrinks;
                peers = omega (arith, v.peers, w.peers);
              })
        | inr more2 ↦
            rw (more, more2, walk)
              (record {
                shrinks = each (Shrinks-trans v.shrinks u.shrinks) w.shrinks;
                peers = omega (arith, v.peers, w.peers, u.peers);
              })
      ]
    ]

walk-Walked :
    (metric : DhtId) (now n : ℕ) (bs : List Bucket) (f : Found)
    → Enough (total bs) f
    → Walked bs f (walk metric now n bs f)
walk-Walked metric now n [] f h = unfold walk in record { shrinks = none_left; peers = refl }
walk-Walked metric now n (b ∷ rest) f h =
    let v = visit_if-Visited (bit metric n) now b f (omega arith, h.1) in
    let smaller = Shrinks-length v.shrinks in
    let w =
      walk-Walked metric now (n + 1) rest (out metric now n b rest f).1
        (omega (arith, v.peers, smaller), omega (arith, v.peers, smaller)) in
    let shorter = ShrinkAll-total w.shrinks in
    walk_step-Walked metric now n b rest f v w (
      visit_if-Visited (if bit metric n then false else true) now (out metric now n b rest f).0
        (back metric now n b rest f).1
        (
          omega (arith, v.peers, w.peers, smaller, shorter),
          omega (arith, v.peers, w.peers, smaller, shorter),
        ))

abbrev nothing_found : Table → Found
nothing_found t = record { nodes = []; count = 0; num_peers = t.num_peers }

search_walk :
    (now : ℕ) (id : DhtId) (t : Table)
    → IsTable t
    → t.num_peers < uint_mod
    → Walked t.buckets (nothing_found t) (walk (id_xor t.id id) now 0 t.buckets (nothing_found t))
search_walk now id t valid range =
    walk-Walked (id_xor t.id id) now 0 t.buckets (nothing_found t) (valid.peers, range)

-- `dht_client_search` keeps the routing table well formed, although it deletes nodes that are dead and
-- old, and takes off the counter of peers exactly the number of nodes that it deletes, if the counter
-- is within its range.
pub search_nodes-IsTable :
    (now : ℕ) (id : DhtId) (t : Table)
    → IsTable t
    → t.num_peers < uint_mod
    → let u = (search_nodes now id t).0 in
      IsTable u
      × (u.num_peers + total t.buckets ≡ t.num_peers + total u.buckets)
      × (total u.buckets ≤ total t.buckets)
unfolding search_nodes
search_nodes-IsTable now id t valid range =
    let w = search_walk now id t valid range in
    (
      record {
        own = valid.own;
        placed = ShrinkAll-Placed t.id 0 w.shrinks valid.placed;
        counted = valid.counted ∙ ShrinkAll-length w.shrinks;
        sized = ShrinkAll-IsSized w.shrinks valid.sized;
        peers = omega (arith, w.peers, valid.peers);
      },
      w.peers,
      ShrinkAll-total w.shrinks,
    )

-- It keeps the number of buckets, and does not raise the counter of peers.
pub search_nodes-counters :
    (now : ℕ) (id : DhtId) (t : Table)
    → IsTable t
    → t.num_peers < uint_mod
    → ((search_nodes now id t).0.num_peers ≤ t.num_peers)
      × (length (search_nodes now id t).0.buckets ≡ length t.buckets)
unfolding search_nodes
search_nodes-counters now id t valid range =
    let w = search_walk now id t valid range in
    (omega (arith, w.peers, ShrinkAll-total w.shrinks), sym (ShrinkAll-length w.shrinks))
