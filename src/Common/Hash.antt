-- ===== src/Common/Hash.antt =====
-- `dht_key_hash` and `dht_id_hash` of src/dht-common.c, by which hash tables find keys and identifiers.
-- The hash of an address is libsodium's.
use native.Mathlib.Nat.{pow-suc}
use nanotalk.Base.{
  ℕ, zero, suc, ◌+◌, ◌-◌, ◌*◌, ◌%◌, ◌^◌, ◌≡◌, refl, sym, ap, ◌∙◌, bit_or, [], ◌∷◌, get_or, length,
  arith,
}
use nanotalk.Base.Bits.{bit_or_shift}
use nanotalk.Common.{Bytes, DhtKey, DhtId, DhtAddress, IsByte, IsArray, Sodium, key_size, id_size}
use nanotalk.Common.Order.{value}

-- The last four bytes, the first of them the highest.
abbrev pub last_word : ℕ → Bytes → ℕ
last_word size m =
    bit_or
      (bit_or (bit_or (get_or m (size - 4) 0 * 2 ^ 24) (get_or m (size - 3) 0 * 2 ^ 16))
        (get_or m (size - 2) 0 * 2 ^ 8))
      (get_or m (size - 1) 0)

unfoldable pub key_hash : DhtKey → ℕ
key_hash key = last_word key_size key

unfoldable pub id_hash : DhtId → ℕ
id_hash id = last_word id_size id

-- A `guint` in the byte order of the machine; here the lowest byte first.
unfoldable pub address_hash : Sodium → DhtAddress → ℕ
address_hash s addr =
    let hash = s.generichash 4 addr [] in
    get_or hash 0 0 + get_or hash 1 0 * 2 ^ 8 + get_or hash 2 0 * 2 ^ 16 + get_or hash 3 0 * 2 ^ 24

word_lem :
    (a b c d : ℕ)
    → IsByte a
    → IsByte b
    → IsByte c
    → IsByte d
    → bit_or (bit_or (bit_or (a * 2 ^ 24) (b * 2 ^ 16)) (c * 2 ^ 8)) d
      ≡ a * 2 ^ 24 + b * 2 ^ 16 + c * 2 ^ 8 + d
word_lem a b c d ha hb hc hd =
    ap (λ w. bit_or (bit_or w (c * 2 ^ 8)) d) (high ∙ pair)
    ∙ ap (λ w. bit_or w d) (middle ∙ triple)
    ∙ bit_or_shift 8 ((a * 2 ^ 8 + b) * 2 ^ 8 + c) d hd
    ∙ omega arith
  where
    high : bit_or (a * 2 ^ 24) (b * 2 ^ 16) ≡ a * 2 ^ 24 + b * 2 ^ 16
    high = bit_or_shift 24 a (b * 2 ^ 16) (omega (arith, hb))

    pair : a * 2 ^ 24 + b * 2 ^ 16 ≡ (a * 2 ^ 8 + b) * 2 ^ 16
    pair = omega arith

    middle : bit_or ((a * 2 ^ 8 + b) * 2 ^ 16) (c * 2 ^ 8) ≡ (a * 2 ^ 8 + b) * 2 ^ 16 + c * 2 ^ 8
    middle = bit_or_shift 16 (a * 2 ^ 8 + b) (c * 2 ^ 8) (omega (arith, hc))

    triple : (a * 2 ^ 8 + b) * 2 ^ 16 + c * 2 ^ 8 ≡ ((a * 2 ^ 8 + b) * 2 ^ 8 + c) * 2 ^ 8
    triple = omega arith

-- A byte further in front changes nothing.
shifted : (n a : ℕ) (m : Bytes) → last_word (4 + suc n) (a ∷ m) ≡ last_word (4 + n) m
shifted n a m =
    let e4 : 4 + suc n - 4 ≡ suc (4 + n - 4) = omega arith in
    let e3 : 4 + suc n - 3 ≡ suc (4 + n - 3) = omega arith in
    let e2 : 4 + suc n - 2 ≡ suc (4 + n - 2) = omega arith in
    let e1 : 4 + suc n - 1 ≡ suc (4 + n - 1) = omega arith in rw (e4, e3, e2, e1) refl

high_byte : (a k v : ℕ) → (a * 256 ^ suc (suc (suc (suc k))) + v) % 2 ^ 32 ≡ v % 2 ^ 32
high_byte a k v = rw factor (omega arith)
  where
    factor : a * 256 ^ suc (suc (suc (suc k))) ≡ 2 ^ 32 * (a * 256 ^ k)
    factor =
        rw
          (
            pow-suc 256 (suc (suc (suc k))),
            pow-suc 256 (suc (suc k)),
            pow-suc 256 (suc k),
            pow-suc 256 k,
          )
          (grind arith)

word_value : (n : ℕ) (m : Bytes) → IsArray (4 + n) m → last_word (4 + n) m ≡ value m % 2 ^ 32
word_value n [] h = absurd (omega (arith, h.0))
word_value n (a ∷ []) h = absurd (omega (arith, h.0))
word_value n (a ∷ b ∷ []) h = absurd (omega (arith, h.0))
word_value n (a ∷ b ∷ c ∷ []) h = absurd (omega (arith, h.0))
word_value zero (a ∷ b ∷ c ∷ d ∷ []) h =
    word_lem a b c d h.1.0 h.1.1.0 h.1.1.1.0 h.1.1.1.1.0
    ∙ omega (arith, h.1.0, h.1.1.0, h.1.1.1.0, h.1.1.1.1.0)
word_value zero (a ∷ b ∷ c ∷ d ∷ e ∷ m) h = absurd (omega (arith, h.0))
word_value (suc n) (a ∷ b ∷ c ∷ d ∷ []) h = absurd (omega (arith, h.0))
word_value (suc n) (a ∷ b ∷ c ∷ d ∷ e ∷ m) h =
    let rest = word_value n (b ∷ c ∷ d ∷ e ∷ m) (omega (arith, h.0), h.1.1) in
    shifted n a (b ∷ c ∷ d ∷ e ∷ m)
    ∙ rest
    ∙ sym (high_byte a (length m) (value (b ∷ c ∷ d ∷ e ∷ m)))

pub id_hash-value : (id : DhtId) → IsArray id_size id → id_hash id ≡ value id % 2 ^ 32
unfolding id_hash
id_hash-value id h = word_value 16 id h

pub key_hash-value : (key : DhtKey) → IsArray key_size key → key_hash key ≡ value key % 2 ^ 32
unfolding key_hash
key_hash-value key h = word_value 28 key h
