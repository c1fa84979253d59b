-- ===== src/Common/Order.antt =====
-- `dht_id_compare` and the hashes of src/dht-common.c, against the number that an array of bytes spells.
use native.Mathlib.Nat.{pow-suc, suc-mul, mul-le-mul_right}
use nanotalk.Base.{
  ℕ, suc, ◌+◌, ◌*◌, ◌^◌, ◌<◌, ◌≤◌, ◌≡◌, refl, sym, ap₂, ◌∙◌, [], ◌∷◌, Ordering, compare, length,
  All, arith, dec_lt,
}
use nanotalk.Common.{Bytes, DhtId, IsByte, IsArray, id_compare}
use nanotalk.Common.Bits.{id_compare_head, id_compare_tail}

-- The number that bytes spell, the most significant one first.
abbrev pub value : Bytes → ℕ
value [] = 0
value (x ∷ xs) = x * 256 ^ length xs + value xs

-- The first digit decides.
digits_lt : (x y v w p : ℕ) → v < p → x < y → x * p + v < y * p + w
digits_lt x y v w p h k =
    let grows : suc x * p ≤ y * p = mul-le-mul_right p k in omega (arith, grows, suc-mul x p, h)

pub value_lt : (xs : Bytes) → All IsByte xs → value xs < 256 ^ length xs
value_lt [] h = omega arith
value_lt (x ∷ xs) h =
    let less = digits_lt x 256 (value xs) 0 (256 ^ length xs) (value_lt xs h.1) h.0 in
    omega (arith, less, pow-suc 256 (length xs))

compare_lt : (a b : ℕ) → a < b → compare a b ≡ Ordering.lt
compare_lt a b h = ground arith

compare_gt : (a b : ℕ) → b < a → compare a b ≡ Ordering.gt
compare_gt a b h = ground arith

compare_shift : (c a b : ℕ) → compare (c + a) (c + b) ≡ compare a b
compare_shift c a b = ground arith

id_compare_head_gt : (x y : ℕ) (a b : DhtId) → y < x → id_compare (x ∷ a) (y ∷ b) ≡ Ordering.gt
unfolding id_compare
id_compare_head_gt x y a b h = ground arith

-- `dht_id_compare` on two arrays of bytes of one length is the order of the numbers that they
-- spell, the most significant byte first.
pub id_compare-value :
    (n : ℕ) (a b : DhtId) → IsArray n a → IsArray n b → id_compare a b ≡ compare (value a) (value b)
id_compare-value n [] [] ha hb = unfold id_compare in refl
id_compare-value n [] (y ∷ b) ha hb = absurd (omega (arith, ha.0, hb.0))
id_compare-value n (x ∷ a) [] ha hb = absurd (omega (arith, ha.0, hb.0))
id_compare-value n (x ∷ a) (y ∷ b) ha hb = elim (dec_lt x y) [
  | yes less ↦
      id_compare_head x y a b less
      ∙ sym (
          compare_lt (x * p + value a) (y * 256 ^ length b + value b)
            (rw same (digits_lt x y (value a) (value b) p (value_lt a ha.1.1) less)))
  | no le ↦ elim (dec_lt y x) [
    | yes more ↦
        id_compare_head_gt x y a b more
        ∙ sym (
            compare_gt (x * p + value a) (y * 256 ^ length b + value b) (
              rw same (digits_lt y x (value b) (value a) p (rw (← same) (value_lt b hb.1.1)) more)))
    | no ge ↦
        let equal : y ≡ x = omega arith in
        id_compare_tail x y a b (sym equal)
        ∙ id_compare-value (length a) a b (refl, ha.1.1) (same, hb.1.1)
        ∙ sym (
            ap₂ (λ d k. compare (x * p + value a) (d * 256 ^ k + value b)) equal same
            ∙ compare_shift (x * p) (value a) (value b))
  ]
]
  where
    p : ℕ
    p = 256 ^ length a

    same : length b ≡ length a
    same = omega (arith, ha.0, hb.0)
