-- ===== src/Bucket/Place.antt =====
-- Where a node belongs: bucket `i` holds the identifiers whose metric has its first set bit at `i`,
-- and the last bucket those with no set bit below its index.
use nanotalk.Base.{
  ℕ, suc, ◌+◌, ◌<◌, ◌≡◌, refl, sym, ap, subst, ◌∙◌, dec_lt, inl, inr, true, false, not, List, [],
  ◌∷◌, ◌++◌, if◌then◌else◌, length, get_or, take, All, Bool-cases, arith,
}
use nanotalk.Common.{DhtId, IsArray, id_size, id_xor, bit}
use nanotalk.Common.Bits.{bit-id_xor, bit_of_bytes}
use nanotalk.Bucket.{Node, Bucket, find_bucket, has_next, modify, moves}

-- The metric of `id` has no set bit below `n`.
abbrev pub Shares : DhtId → DhtId → ℕ → Type 0
Shares own id n = (i : ℕ) → i < n → bit (id_xor own id) i ≡ false

abbrev pub InLast : DhtId → ℕ → DhtId → Type 0
InLast own n id = IsArray id_size id × Shares own id n

abbrev pub InInner : DhtId → ℕ → DhtId → Type 0
InInner own n id = IsArray id_size id × Shares own id n × (bit (id_xor own id) n ≡ true)

abbrev pub AllIds : (DhtId → Type 0) → Bucket → Type 0
AllIds P = All λ node. P node.id

-- The buckets from index `n` on that have a successor, and all of them.
abbrev pub Inner : DhtId → ℕ → List Bucket → Type 0
Inner own n [] = Unit
Inner own n (b ∷ rest) = AllIds (InInner own n) b × Inner own (suc n) rest

abbrev pub Placed : DhtId → ℕ → List Bucket → Type 0
Placed own n [] = ⊥
Placed own n (b ∷ []) = AllIds (InLast own n) b
Placed own n (b ∷ c ∷ rest) = AllIds (InInner own n) b × Placed own (suc n) (c ∷ rest)

pub InLast-at :
    (own : DhtId) (b : Bucket) {m n : ℕ} → m ≡ n → AllIds (InLast own m) b → AllIds (InLast own n) b
InLast-at own b e h = subst (λ k. AllIds (InLast own k) b) e h

pub Placed-snoc :
    (own : DhtId) (n : ℕ) (behind : List Bucket) (b : Bucket)
    → Inner own n behind
    → AllIds (InLast own (n + length behind)) b
    → Placed own n (behind ++ (b ∷ []))
Placed-snoc own n [] b h k = InLast-at own b (omega arith) k
Placed-snoc own n (c ∷ []) b h k = (h.0, InLast-at own b (omega arith) k)
Placed-snoc own n (c ∷ d ∷ behind) b h k =
    (h.0, Placed-snoc own (suc n) (d ∷ behind) b h.1 (InLast-at own b (omega arith) k))

pub Inner-snoc :
    (own : DhtId) (n : ℕ) (behind : List Bucket) (b : Bucket)
    → Inner own n behind
    → AllIds (InInner own (n + length behind)) b
    → Inner own n (behind ++ (b ∷ []))
Inner-snoc own n [] b h k = (subst (λ i. AllIds (InInner own i) b) (omega arith) k, tt)
Inner-snoc own n (c ∷ behind) b h k = (
  h.0,
  Inner-snoc own (suc n) behind b h.1 (subst (λ i. AllIds (InInner own i) b) (omega arith) k),
)

-- `moves` is the test of the next bit.
pub moves-bit :
    (own : DhtId) (n : ℕ) (node : Node)
    → length own ≡ length node.id
    → moves own n node ≡ not (bit (id_xor own node.id) n)
unfolding moves
moves-bit own n node e = bit_of_bytes own node.id n ∙ ap not (sym (bit-id_xor own node.id n e))

pub Shares-suc :
    (own id : DhtId) (n : ℕ)
    → Shares own id n
    → bit (id_xor own id) n ≡ false
    → Shares own id (suc n)
Shares-suc own id n h e i p = elim (dec_lt i n) [
  | yes below ↦ h i below
  | no above ↦ let same : n ≡ i = omega arith in subst (λ k. bit (id_xor own id) k ≡ false) same e
]

-- The steps of the walk to the bucket of `metric`, from index `n` on.
pub offset : DhtId → ℕ → List Bucket → ℕ
offset metric n [] = 0
offset metric n (b ∷ []) = 0
offset metric n (b ∷ c ∷ rest) =
    let next = suc (offset metric (suc n) (c ∷ rest)) in if bit metric n then 0 else next

pub find_bucket-offset :
    (metric : DhtId) (n : ℕ) (bs : List Bucket) → find_bucket metric n bs ≡ n + offset metric n bs
unfolding find_bucket offset
find_bucket-offset metric n [] = omega arith
find_bucket-offset metric n (b ∷ []) = omega arith
find_bucket-offset metric n (b ∷ c ∷ rest) =
    let e : n + 1 ≡ suc n = omega arith in
    rw e (ground (arith, find_bucket-offset metric (suc n) (c ∷ rest)))

module _ (metric : DhtId) (n : ℕ) (b c : Bucket) (rest : List Bucket) where
  offset_here : bit metric n ≡ true → offset metric n (b ∷ c ∷ rest) ≡ 0
  unfolding offset
  offset_here e = rw e

  offset_next :
      bit metric n ≡ false → offset metric n (b ∷ c ∷ rest) ≡ suc (offset metric (suc n) (c ∷ rest))
  unfolding offset
  offset_next e = rw e

pub Placed-cons :
    (own : DhtId) (n : ℕ) (b : Bucket) (bs : List Bucket)
    → AllIds (InInner own n) b
    → Placed own (suc n) bs
    → Placed own n (b ∷ bs)
Placed-cons own n b [] h k = absurd k
Placed-cons own n b (c ∷ rest) h k = (h, k)

-- A change of a bucket that brings in no identifier but `id`.
abbrev pub Puts : DhtId → (Bucket → Bucket) → Type 1
Puts id f = (P : DhtId → Type 0) (b : Bucket) → P id → AllIds P b → AllIds P (f b)

module _ (own id : DhtId) (size : IsArray id_size id) (f : Bucket → Bucket) (puts : Puts id f) where
  pub Placed-put :
      (n : ℕ) (bs : List Bucket)
      → Shares own id n
      → Placed own n bs
      → Placed own n (modify f (offset (id_xor own id) n bs) bs)
  unfolding modify
  Placed-put n [] shares h = absurd h
  Placed-put n (b ∷ []) shares h =
      subst (λ i. Placed own n (modify f i (b ∷ []))) offset_one changed
    where
      offset_one : 0 ≡ offset (id_xor own id) n (b ∷ [])
      offset_one = unfold offset in refl

      changed : Placed own n (f b ∷ [])
      changed = puts (InLast own n) b (size, shares) h
  Placed-put n (b ∷ c ∷ rest) shares h = elim (Bool-cases (bit (id_xor own id) n)) [
    | inl e ↦
        rw (offset_here (id_xor own id) n b c rest e)
          (puts (InInner own n) b (size, shares, e) h.0, h.1)
    | inr e ↦ rw (offset_next (id_xor own id) n b c rest e) (
        Placed-cons own n b (modify f (offset (id_xor own id) (suc n) (c ∷ rest)) (c ∷ rest)) h.0
          (Placed-put (suc n) (c ∷ rest) (Shares-suc own id n shares e) h.1))
  ]

-- The buckets split at their last one, where `id` belongs.
pub record LastAt (own id : DhtId) (n : ℕ) (bs : List Bucket) (i : ℕ) : Type 0 where
  pub behind : Inner own n (take i bs)
  pub last : AllIds (InLast own (n + i)) (get_or bs i [])
  pub shares : Shares own id (n + i)
  pub index : length (take i bs) ≡ i
  pub end : length bs ≡ suc i

LastAt-cons :
    (own id : DhtId) (n : ℕ) (b : Bucket) (bs : List Bucket) (i : ℕ)
    → AllIds (InInner own n) b
    → LastAt own id (suc n) bs i
    → LastAt own id n (b ∷ bs) (suc i)
LastAt-cons own id n b bs i h l = record {
  behind = (h, l.behind);
  last = InLast-at own (get_or bs i []) {m = suc n + i} {n = n + suc i} (omega arith) l.last;
  shares = λ j p. l.shares j (omega arith);
  index = ap suc l.index;
  end = ap suc l.end;
}

-- The last bucket takes what no bucket before it does.
pub Placed-LastAt :
    (own id : DhtId) (n : ℕ) (bs : List Bucket)
    → Shares own id n
    → Placed own n bs
    → has_next (offset (id_xor own id) n bs) bs ≡ false
    → LastAt own id n bs (offset (id_xor own id) n bs)
unfolding has_next
Placed-LastAt own id n [] shares h e = absurd h
Placed-LastAt own id n (b ∷ []) shares h e = subst (LastAt own id n (b ∷ [])) offset_one (record {
  behind = tt;
  last = InLast-at own b {m = n} {n = n + 0} (omega arith) h;
  shares = λ j p. shares j (omega arith);
  index = refl;
  end = refl;
})
  where
    offset_one : 0 ≡ offset (id_xor own id) n (b ∷ [])
    offset_one = unfold offset in refl
Placed-LastAt own id n (b ∷ c ∷ rest) shares h e = elim (Bool-cases (bit (id_xor own id) n)) [
  | inl p ↦
      absurd
        (cc (e, ap (λ i. has_next i (b ∷ c ∷ rest)) (offset_here (id_xor own id) n b c rest p)))
  | inr p ↦
      let next = offset_next (id_xor own id) n b c rest p in
      rw next (
        LastAt-cons own id n b (c ∷ rest) (offset (id_xor own id) (suc n) (c ∷ rest)) h.0 (
          Placed-LastAt own id (suc n) (c ∷ rest) (Shares-suc own id n shares p) h.1
            (rw next at e)))
]
