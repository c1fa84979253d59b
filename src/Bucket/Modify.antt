-- ===== src/Bucket/Modify.antt =====
-- The changes of `dht_client_update` at one place of a bucket or of the table.
use nanotalk.Base.{
  ℕ, zero, suc, ◌+◌, ◌≤◌, ◌≡◌, refl, ap, Bool, true, false, Option, some, List, [], ◌∷◌,
  if◌then◌else◌, length, get_or, take, All, arith,
}
use nanotalk.Common.{DhtId, DhtAddress}
use nanotalk.Bucket.{Node, Bucket, ended, touch, modify, scan}
use nanotalk.Bucket.Place.{AllIds}
use nanotalk.Bucket.Grow.{total, IsSized}

pub AllIds-modify :
    (P : DhtId → Type 0) (g : Node → Node) (i : ℕ) (b : Bucket)
    → ((x : Node) → P x.id → P (g x).id)
    → AllIds P b
    → AllIds P (modify g i b)
unfolding modify
AllIds-modify P g i [] f h = h
AllIds-modify P g zero (x ∷ b) f h = (f x h.0, h.1)
AllIds-modify P g (suc i) (x ∷ b) f h = (h.0, AllIds-modify P g i b f h.1)

pub touch-id :
    (now : ℕ) (addr : DhtAddress) (alive : Bool) (x : Node) → (touch now addr alive x).id ≡ x.id
unfolding touch
touch-id now addr true x = refl
touch-id now addr false x = ground arith

pub modify_const :
    (g : Bucket → Bucket) (i : ℕ) (bs : List Bucket)
    → modify (λ _. g (get_or bs i [])) i bs ≡ modify g i bs
unfolding modify
modify_const g i [] = refl
modify_const g zero (b ∷ bs) = refl
modify_const g (suc i) (b ∷ bs) = ap (◌∷◌ b) (modify_const g i bs)

pub length-modify {ℓ} :
    {A : Type ℓ} (f : A → A) (i : ℕ) (b : List A) → length (modify f i b) ≡ length b
unfolding modify
length-modify f i [] = refl
length-modify f zero (x ∷ b) = refl
length-modify f (suc i) (x ∷ b) = ap suc (length-modify f i b)

module _ (f : Bucket → Bucket) where
  pub total-modify :
      (k i : ℕ) (bs : List Bucket)
      → ((b : Bucket) → length (f b) ≤ length b + k)
      → total (modify f i bs) ≤ total bs + k
  unfolding modify
  total-modify k i [] h = omega arith
  total-modify k zero (b ∷ bs) h = omega (arith, h b)
  total-modify k (suc i) (b ∷ bs) h = omega (arith, total-modify k i bs h)

  pub IsSized-modify :
      (i : ℕ) (bs : List Bucket)
      → IsSized (f (get_or bs i []))
      → All IsSized bs
      → All IsSized (modify f i bs)
  unfolding modify
  IsSized-modify i [] h k = k
  IsSized-modify zero (b ∷ bs) h k = (h, k.1)
  IsSized-modify (suc i) (b ∷ bs) h k = (k.0, IsSized-modify i bs h k.1)

pub IsSized-get_or : (i : ℕ) (bs : List Bucket) → All IsSized bs → IsSized (get_or bs i [])
IsSized-get_or i [] h = omega arith
IsSized-get_or zero (b ∷ bs) h = h.0
IsSized-get_or (suc i) (b ∷ bs) h = IsSized-get_or i bs h.1

pub IsSized-take : (i : ℕ) (bs : List Bucket) → All IsSized bs → All IsSized (take i bs)
IsSized-take zero bs h = tt
IsSized-take (suc i) [] h = tt
IsSized-take (suc i) (b ∷ bs) h = (h.0, IsSized-take i bs h.1)

pub total-take : (i : ℕ) (bs : List Bucket) → total (take i bs) + length (get_or bs i []) ≤ total bs
total-take zero [] = omega arith
total-take (suc i) [] = omega arith
total-take zero (b ∷ bs) = omega arith
total-take (suc i) (b ∷ bs) = omega (arith, total-take i bs)

-- The number with which the loop over a bucket ends is the bucket's size.
pub scan-count :
    (id : DhtId) (b : Bucket) (c k : ℕ) (r q : Option ℕ)
    → scan id b c r ≡ ended k q
    → k ≡ c + length b
unfolding scan
scan-count id [] c k r q e = ground arith
scan-count id (x ∷ b) c k r q e =
    ground (arith, scan-count id b (c + 1) k (if x.is_alive then r else some c) q)
