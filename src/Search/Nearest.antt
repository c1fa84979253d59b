-- ===== src/Search/Nearest.antt =====
-- The walk of `dht_client_search` over the buckets, and their distance to the target.
use nanotalk.Base.{
  ℕ, suc, ◌+◌, ◌*◌, ◌<◌, ◌≡◌, sym, ap, subst, ◌∙◌, inl, inr, Ordering, Bool, true, false, not, xor,
  List, [], ◌∷◌, ◌++◌, take, All, All-append, All-map, Bool-cases, dec_lt, arith,
}
use nanotalk.Common.{DhtId, IsArray, id_size, id_xor, id_compare, bit}
use nanotalk.Common.Bits.{bit-id_xor, bit_past, id_compare_of_bit, SameBits, IsArray-id_xor}
use nanotalk.Bucket.{Node, Bucket, Table, node_count}
use nanotalk.Bucket.Place.{InLast, InInner, AllIds, Placed}
use nanotalk.Bucket.Update.{IsTable}
use nanotalk.Search.{search_nodes}
use nanotalk.Search.Order.{order, candidates, search_nodes_lem}
use mathlib.Core.List.{Perm, perm_append_singleton}
use mathlib.Core.List.Perm

-- `a` is nearer to `target` than `b`: the order by `dht_id_compare` of the metrics.
abbrev pub Nearer : DhtId → DhtId → DhtId → Type 0
Nearer target a b = id_compare (id_xor target a) (id_xor target b) ≡ Ordering.lt

-- Every node of one bucket is nearer than every node of the other.
abbrev pub Before : DhtId → Bucket → Bucket → Type 0
Before target b c = All (λ x. All (λ y. Nearer target x.id y.id) c) b

-- The buckets of a list, nearest first.
abbrev pub Ranked : DhtId → List Bucket → Type 0
Ranked target [] = Unit
Ranked target (b ∷ bs) = All (Before target b) bs × Ranked target bs

Ranked-snoc :
    (target : DhtId) (bs : List Bucket) (b : Bucket)
    → Ranked target bs
    → All (λ c. Before target c b) bs
    → Ranked target (bs ++ (b ∷ []))
Ranked-snoc target [] b r h = (tt, tt)
Ranked-snoc target (c ∷ bs) b r h =
    (All-append (Before target c) bs (b ∷ []) r.0 (h.0, tt), Ranked-snoc target bs b r.1 h.1)

Before-lem :
    (target : DhtId) (P Q : DhtId → Type 0) (b c : Bucket)
    → ((x y : DhtId) → P x → Q y → Nearer target x y)
    → AllIds P b
    → AllIds Q c
    → Before target b c
Before-lem target P Q b c near hb hc =
    All-map (λ (x : Node). P x.id) (λ x. All (λ y. Nearer target x.id y.id) c) b
      (λ x px.
        All-map (λ (y : Node). Q y.id) (λ y. Nearer target x.id y.id) c (λ y. near x.id y.id px) hc)
      hb

All-order :
    (P : Bucket → Type 0) (metric : DhtId) (n : ℕ) (bs : List Bucket)
    → All P bs
    → All P (order metric n bs)
unfolding order
All-order P metric n [] h = tt
All-order P metric n (b ∷ bs) h = elim (Bool-cases (bit metric n)) [
  | inl e ↦ rw (e, order) (h.0, All-order P metric (n + 1) bs h.1)
  | inr e ↦
      rw (e, order)
        (All-append P (order metric (n + 1) bs) (b ∷ []) (All-order P metric (n + 1) bs h.1)
          (h.0, tt))
]

module _ (own target : DhtId) (own_size : IsArray id_size own)
    (target_size : IsArray id_size target) where
  abbrev metric : DhtId
  metric = id_xor own target

  -- The metric of a node to the target, from its metric to the own identifier.
  distance_bit :
      (x : DhtId) (n : ℕ)
      → IsArray id_size x
      → bit (id_xor target x) n ≡ xor (bit metric n) (bit (id_xor own x) n)
  distance_bit x n h =
      rw
        (
          bit-id_xor target x n (omega (arith, target_size.0, h.0)),
          bit-id_xor own target n (omega (arith, own_size.0, target_size.0)),
          bit-id_xor own x n (omega (arith, own_size.0, h.0)),
        )
        (cancel (bit own n) (bit target n) (bit x n))
    where
      cancel : (o t b : Bool) → xor t b ≡ xor (xor o t) (xor o b)
      cancel o t b = ground arith

  module _ (n : ℕ) (x y : DhtId) (hx : InInner own n x) (hy : InLast own (suc n) y) where
    in_range : n < 8 * id_size
    in_range = elim (dec_lt n (8 * id_size)) [
      | yes p ↦ p
      | no p ↦ absurd (
          true_false (id_xor own x) hx.2 (
            bit_past (id_xor own x) n
              (omega (arith, (IsArray-id_xor id_size own x own_size hx.0).0))))
    ]
      where
        true_false : (m : DhtId) → bit m n ≡ true → bit m n ≡ false → ⊥
        true_false m p q = cc

    same_prefix : SameBits (id_xor target x) (id_xor target y) n
    same_prefix i p =
        distance_bit x i hx.0
        ∙ ap (xor (bit metric i)) (hx.1 i p ∙ sym (hy.1 i (omega arith)))
        ∙ sym (distance_bit y i hy.0)

    size_x : IsArray id_size (id_xor target x)
    size_x = IsArray-id_xor id_size target x target_size hx.0

    size_y : IsArray id_size (id_xor target y)
    size_y = IsArray-id_xor id_size target y target_size hy.0

    bit_x : (c : Bool) → bit metric n ≡ c → bit (id_xor target x) n ≡ not c
    bit_x c e = distance_bit x n hx.0 ∙ ground (arith, hx.2)

    bit_y : (c : Bool) → bit metric n ≡ c → bit (id_xor target y) n ≡ c
    bit_y c e = distance_bit y n hy.0 ∙ ground (arith, hy.1 n (omega arith))

    nearer : bit metric n ≡ true → Nearer target x y
    nearer e =
        id_compare_of_bit (id_xor target x) (id_xor target y) n size_x.1 size_y.1
          (omega (arith, size_x.0, size_y.0)) (omega (arith, size_x.0, in_range)) same_prefix
          (bit_x true e) (bit_y true e)

    farther : bit metric n ≡ false → Nearer target y x
    farther e =
        id_compare_of_bit (id_xor target y) (id_xor target x) n size_y.1 size_x.1
          (omega (arith, size_x.0, size_y.0)) (omega (arith, size_y.0, in_range))
          (λ i p. sym (same_prefix i p)) (bit_y false e) (bit_x false e)

  -- All nodes behind a bucket share its prefix.
  Placed-InLast : (n : ℕ) (bs : List Bucket) → Placed own n bs → All (AllIds (InLast own n)) bs
  Placed-InLast n [] h = tt
  Placed-InLast n (b ∷ []) h = (h, tt)
  Placed-InLast n (b ∷ c ∷ rest) h = (
    All-map (λ (x : Node). InInner own n x.id) (λ x. InLast own n x.id) b (λ x p. (p.0, p.1)) h.0,
    All-map (AllIds (InLast own (suc n))) (AllIds (InLast own n)) (c ∷ rest)
        (λ d.
          All-map (λ (x : Node). InLast own (suc n) x.id) (λ x. InLast own n x.id) d
            (λ x p. (p.0, λ i q. p.1 i (omega arith))))
        (Placed-InLast (suc n) (c ∷ rest) h.1),
  )

  Ranked-step :
      (n : ℕ) (b : Bucket) (bs : List Bucket)
      → AllIds (InInner own n) b
      → All (AllIds (InLast own (suc n))) bs
      → Ranked target (order metric (n + 1) bs)
      → Ranked target (order metric n (b ∷ bs))
  unfolding order
  Ranked-step n b bs hb hbs r = elim (Bool-cases (bit metric n)) [
    | inl e ↦
        rw (e, order)
          (
            All-order (Before target b) metric (n + 1) bs (
                All-map (AllIds (InLast own (suc n))) (Before target b) bs
                  (λ c hc.
                    Before-lem target (InInner own n) (InLast own (suc n)) b c
                      (λ x y hx hy. nearer n x y hx hy e) hb hc)
                  hbs),
            r,
          )
    | inr e ↦
        rw (e, order)
          (Ranked-snoc target (order metric (n + 1) bs) b r (
            All-order (λ c. Before target c b) metric (n + 1) bs
              (All-map (AllIds (InLast own (suc n))) (λ c. Before target c b) bs
                (λ c hc.
                  Before-lem target (InLast own (suc n)) (InInner own n) c b
                    (λ y x hy hx. farther n x y hx hy e) hc hb)
                hbs)))
  ]

  order-Ranked : (n : ℕ) (bs : List Bucket) → Placed own n bs → Ranked target (order metric n bs)
  unfolding order
  order-Ranked n [] h = absurd h
  order-Ranked n (b ∷ []) h = elim (Bool-cases (bit metric n)) [
    | inl e ↦ rw (e, order) (tt, tt)
    | inr e ↦ rw (e, order) (tt, tt)
  ]
  order-Ranked n (b ∷ c ∷ rest) h =
      Ranked-step n b (c ∷ rest) h.0 (Placed-InLast (suc n) (c ∷ rest) h.1) (
        subst (λ k. Ranked target (order metric k (c ∷ rest))) next
          (order-Ranked (suc n) (c ∷ rest) h.1))
    where
      next : suc n ≡ n + 1
      next = omega arith

-- `dht_client_search` on a well-formed table takes the buckets in the order of their distance to the
-- target: by `dht_id_compare` of the metrics, each node of a bucket that it visits earlier is nearer
-- to the target than each node of a bucket that it visits later.
pub search_order-Ranked :
    (t : Table) (target : DhtId)
    → IsTable t
    → IsArray id_size target
    → Ranked target (order (id_xor t.id target) 0 t.buckets)
search_order-Ranked t target valid size =
    order-Ranked t.id target valid.own size 0 t.buckets valid.placed

order-Perm : (metric : DhtId) (n : ℕ) (bs : List Bucket) → Perm (order metric n bs) bs
unfolding order
order-Perm metric n [] = Perm.nil
order-Perm metric n (b ∷ bs) = elim (Bool-cases (bit metric n)) [
  | inl e ↦ rw (order, e) (Perm.cons b (order-Perm metric (n + 1) bs))
  | inr e ↦
      rw (order, e)
        (Perm.trans (perm_append_singleton b (order metric (n + 1) bs))
          (Perm.cons b (order-Perm metric (n + 1) bs)))
]

-- In a well-formed table `dht_client_search` returns nearest nodes, bucket by bucket: there is an
-- order of the buckets in which, by `dht_id_compare` of the metrics, every node of an earlier bucket
-- is nearer to the target than every node of a later one, and the result is the first 16 of the
-- nodes that are alive or were seen within the last hour, taken in that order.
pub search_nodes_nearest :
    (now : ℕ) (target : DhtId) (t : Table)
    → IsTable t
    → IsArray id_size target
    → (bs : List Bucket) × Perm bs t.buckets
      × Ranked target bs
      × ((search_nodes now target t).1 ≡ take node_count (candidates now bs))
search_nodes_nearest now target t valid size = (
  order (id_xor t.id target) 0 t.buckets,
  order-Perm (id_xor t.id target) 0 t.buckets,
  search_order-Ranked t target valid size,
  search_nodes_lem now target t,
)
