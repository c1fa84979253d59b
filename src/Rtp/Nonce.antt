-- ===== src/Rtp/Nonce.antt =====
-- The nonce of a packet, and the numbers that it is made of.
use native.Mathlib.Nat.{pow-suc}
use nanotalk.Base.{
  ℕ, zero, suc, ◌+◌, ◌*◌, ◌/◌, ◌%◌, ◌^◌, ◌<◌, ◌≡◌, refl, sym, ap, ◌∙◌, ◌∷◌, length, take, drop,
  take-append_left, drop-append_left, arith,
}
use nanotalk.Base.Bits.{bit_or_shift}
use nanotalk.Common.{Bytes}
use nanotalk.Rtp.{write_le, packet_index, make_nonce}

-- The 48-bit counter and the sequence number make up one index.
pub packet_index_lem :
    (roc seq : ℕ) → roc < 2 ^ 48 → seq < 2 ^ 16 → packet_index roc seq ≡ roc * 2 ^ 16 + seq
packet_index_lem roc seq h k =
    let fits : roc * 2 ^ 16 % 2 ^ 64 ≡ roc * 2 ^ 16 = omega arith in
    rw fits (bit_or_shift 16 roc seq k)

length-write_le : (n x : ℕ) → length (write_le n x) ≡ n
unfolding write_le
length-write_le zero x = refl
length-write_le (suc n) x = ap suc (length-write_le n (x / 256))

head_eq : {x y : ℕ} {xs ys : Bytes} → x ∷ xs ≡ y ∷ ys → x ≡ y
head_eq e = cc

tail_eq : {x y : ℕ} {xs ys : Bytes} → x ∷ xs ≡ y ∷ ys → xs ≡ ys
tail_eq e = cc

write_le-injective : (n x y : ℕ) → x < 256 ^ n → y < 256 ^ n → write_le n x ≡ write_le n y → x ≡ y
unfolding write_le
write_le-injective zero x y h k e = omega arith
write_le-injective (suc n) x y h k e = omega (
  arith,
  head_eq e,
  write_le-injective n (x / 256) (y / 256) (omega (arith, pow-suc 256 n))
      (omega (arith, pow-suc 256 n)) (tail_eq e),
)

-- Equal nonces come of equal counters, sequence numbers and stream identifiers, if these fit their
-- 48, 16 and 32 bits. So packets under one key that differ in one of them get different nonces.
pub make_nonce-injective :
    (roc seq ssrc roc' seq' ssrc' : ℕ)
    → roc < 2 ^ 48
    → seq < 2 ^ 16
    → ssrc < 2 ^ 32
    → roc' < 2 ^ 48
    → seq' < 2 ^ 16
    → ssrc' < 2 ^ 32
    → make_nonce roc seq ssrc ≡ make_nonce roc' seq' ssrc'
    → (roc ≡ roc') × (seq ≡ seq') × (ssrc ≡ ssrc')
unfolding make_nonce
make_nonce-injective roc seq ssrc roc' seq' ssrc' h k l h' k' l' e = (
  omega (arith, index, packet_index_lem roc seq h k, packet_index_lem roc' seq' h' k'),
  omega (arith, index, packet_index_lem roc seq h k, packet_index_lem roc' seq' h' k'),
  write_le-injective 4 ssrc ssrc' (omega arith) (omega arith) (
      sym (drop-append_left 8 low (write_le 4 ssrc) (length-write_le 8 (packet_index roc seq)))
      ∙ ap (drop 8) e
      ∙ drop-append_left 8 low' (write_le 4 ssrc') (length-write_le 8 (packet_index roc' seq'))),
)
  where
    low : Bytes
    low = write_le 8 (packet_index roc seq)

    low' : Bytes
    low' = write_le 8 (packet_index roc' seq')

    index : packet_index roc seq ≡ packet_index roc' seq'
    index =
        write_le-injective 8 (packet_index roc seq) (packet_index roc' seq')
          (omega (arith, packet_index_lem roc seq h k))
          (omega (arith, packet_index_lem roc' seq' h' k'))
          (sym (take-append_left 8 low (write_le 4 ssrc) (length-write_le 8 (packet_index roc seq)))
            ∙ ap (take 8) e
            ∙ take-append_left 8 low' (write_le 4 ssrc')
                (length-write_le 8 (packet_index roc' seq')))
