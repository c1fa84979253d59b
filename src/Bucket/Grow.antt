-- ===== src/Bucket/Grow.antt =====
-- The splits of `dht_client_update` keep the nodes in their places.
use nanotalk.Base.{
  ℕ, zero, suc, ◌+◌, ◌-◌, ◌≤◌, ◌<◌, ◌≡◌, subst, inl, inr, true, none, List, [], ◌∷◌, ◌++◌, ◌==◌,
  length, All, keep, All-append, All-drop, All-keep, length-append, length-drop, length-keep-not,
  Bool-cases, arith,
}
use nanotalk.Common.{DhtId, IsArray, id_size}
use nanotalk.Bucket.{
  Node, Bucket, Split, node_count, uint_mod, moves, redistribute, split_step, split_loop,
}
use nanotalk.Bucket.Place.{
  InLast, InInner, AllIds, Inner, Inner-snoc, InLast-at, Shares-suc, moves-bit,
}
use nanotalk.Bucket.Splitting.{redistribute_lem, stays}

abbrev pub total : List Bucket → ℕ
total [] = 0
total (b ∷ bs) = length b + total bs

pub total-snoc : (bs : List Bucket) (b : Bucket) → total (bs ++ (b ∷ [])) ≡ total bs + length b
total-snoc [] b = omega arith
total-snoc (c ∷ bs) b = omega (arith, total-snoc bs b)

abbrev pub IsSized : Bucket → Type 0
IsSized b = length b ≤ node_count

-- The state of the split loop: all nodes are placed, the limits are kept, the counter of buckets is
-- their number, and the counter of peers is no less than the number of nodes.
pub record IsSplit (own : DhtId) (peers : ℕ) (s : Split) : Type 0 where
  pub behind : Inner own 0 s.behind
  pub last : AllIds (InLast own s.nbits) s.bucket
  pub nbits : s.nbits ≡ 0 + length s.behind
  pub sized : All IsSized s.behind
  pub small : IsSized s.bucket
  pub counted : s.num_buckets ≡ length s.behind + 1
  pub fits : total s.behind + length s.bucket ≤ peers

module _ (own : DhtId) (size : IsArray id_size own) where
  module _ (n : ℕ) (x : Node) (h : InLast own n x.id) where
    same_size : length own ≡ length x.id
    same_size = omega (arith, size.0, h.0.0)

    stay-InInner : stays own n x ≡ true → InInner own n x.id
    stay-InInner e = (h.0, h.1, ground (arith, moves-bit own n x same_size))

    move-InLast : moves own n x ≡ true → InLast own (suc n) x.id
    move-InLast e = (h.0, Shares-suc own x.id n h.1 (ground (arith, moves-bit own n x same_size)))

  module _ (peers : ℕ) where
    split_step-IsSplit :
        (s : Split)
        → length s.behind + 2 < uint_mod
        → IsSplit own peers s
        → IsSplit own peers (split_step own s)
    unfolding split_step
    split_step-IsSplit s room h =
        rw (redistribute_lem own s.nbits s.bucket, split_step)
          (record {
            behind = Inner-snoc own 0 s.behind kept h.behind (
                subst (λ k. AllIds (InInner own k) kept) h.nbits
                  (All-keep _ _ (stays own s.nbits) s.bucket (stay-InInner s.nbits) h.last));
            last = All-drop _ (length moved - 2) moved (
                InLast-at own moved {m = suc s.nbits} {n = s.nbits + 1} (omega arith)
                  (All-keep _ _ (moves own s.nbits) s.bucket (move-InLast s.nbits) h.last));
            nbits = omega (arith, h.nbits, length-append s.behind (kept ∷ []));
            sized =
                All-append IsSized s.behind (kept ∷ []) h.sized (omega (arith, sizes, h.small), tt);
            small = omega (arith, length-drop (length moved - 2) moved);
            counted = omega (arith, h.counted, length-append s.behind (kept ∷ []));
            fits = omega (
              arith,
              h.fits,
              sizes,
              total-snoc s.behind kept,
              length-drop (length moved - 2) moved,
            );
          })
      where
        kept : Bucket
        kept = keep (stays own s.nbits) s.bucket

        moved : Bucket
        moved = keep (moves own s.nbits) s.bucket

        sizes : length moved + length kept ≡ length s.bucket
        sizes = length-keep-not (moves own s.nbits) s.bucket

    split_step-behind : (s : Split) → length (split_step own s).behind ≡ length s.behind + 1
    unfolding split_step
    split_step-behind s =
        length-append s.behind ((redistribute own s.nbits s.bucket [] none 0).0 ∷ [])

    pub split_loop-IsSplit :
        (fuel : ℕ) (s : Split)
        → length s.behind + fuel + 2 < uint_mod
        → IsSplit own peers s
        → IsSplit own peers (split_loop fuel own s)
    unfolding split_loop
    split_loop-IsSplit zero s room h = h
    split_loop-IsSplit (suc fuel) s room h = elim (Bool-cases (s.count == node_count)) [
      | inl e ↦
          rw (e, split_loop)
            (split_loop-IsSplit fuel (split_step own s) (omega (arith, split_step-behind s))
              (split_step-IsSplit s (omega arith) h))
      | inr e ↦ rw (e, split_loop) h
    ]
