-- ===== src/Common/Bits.antt =====
-- The bits of an identifier: `^` acts on each bit, and the first bit that differs decides `memcmp`.
use native.Mathlib.Nat.{le-div_iff_mul-le, lt-div-mul-add, one-le-pow}
use nanotalk.Base.Bits.{bit_xor_digit, bit_xor_lt, bit_and_pow, div_two_pow_suc_right}
use nanotalk.Base.{
  ℕ, ◌+◌, ◌-◌, ◌*◌, ◌/◌, ◌%◌, ◌^◌, ◌≤◌, ◌<◌, zero, suc, Ordering, bit_and, bit_xor, ◌≡◌, refl, ap,
  sym, dec_lt, ◌∙◌, Bool, true, false, not, xor, [], ◌∷◌, ◌==◌, length, replicate, get_or, All,
  arith,
}
use nanotalk.Common.{DhtId, IsByte, IsArray, id_xor, id_compare, bit}

-- Digit `7 - j` of a byte, counted from the most significant one.
abbrev digit : ℕ → ℕ → ℕ
digit b j = b / 2 ^ (7 - j) % 2

byte_test : ℕ → ℕ → Bool
byte_test b j = not (bit_and b (0x80 / 2 ^ j) == 0)

byte_test-digit : (b j : ℕ) → j < 8 → byte_test b j ≡ (digit b j == 1)
unfolding byte_test
byte_test-digit b zero h = ground (arith, bit_and_pow 7 b)
byte_test-digit b (suc zero) h = ground (arith, bit_and_pow 6 b)
byte_test-digit b (suc (suc zero)) h = ground (arith, bit_and_pow 5 b)
byte_test-digit b (suc (suc (suc zero))) h = ground (arith, bit_and_pow 4 b)
byte_test-digit b (suc (suc (suc (suc zero)))) h = ground (arith, bit_and_pow 3 b)
byte_test-digit b (suc (suc (suc (suc (suc zero))))) h = ground (arith, bit_and_pow 2 b)
byte_test-digit b (suc (suc (suc (suc (suc (suc zero)))))) h = ground (arith, bit_and_pow 1 b)
byte_test-digit b (suc (suc (suc (suc (suc (suc (suc zero))))))) h = ground (arith, bit_and_pow 0 b)
byte_test-digit b (suc (suc (suc (suc (suc (suc (suc (suc j)))))))) h = absurd (omega arith)

byte_test-xor :
    (a b j : ℕ) → j < 8 → byte_test (bit_xor a b) j ≡ xor (byte_test a j) (byte_test b j)
byte_test-xor a b j h =
    rw (byte_test-digit (bit_xor a b) j h, byte_test-digit a j h, byte_test-digit b j h)
      (ground (arith, bit_xor_digit (7 - j) a b))

bit-byte_test : (m : DhtId) (n : ℕ) → bit m n ≡ byte_test (get_or m (n / 8) 0) (n % 8)
unfolding bit byte_test
bit-byte_test m n = refl

get_or-id_xor :
    (a b : DhtId) (i : ℕ)
    → length a ≡ length b
    → get_or (id_xor a b) i 0 ≡ bit_xor (get_or a i 0) (get_or b i 0)
unfolding id_xor
get_or-id_xor [] [] i e = refl
get_or-id_xor [] (y ∷ b) i e = absurd (omega arith)
get_or-id_xor (x ∷ a) [] i e = absurd (omega arith)
get_or-id_xor (x ∷ a) (y ∷ b) zero e = refl
get_or-id_xor (x ∷ a) (y ∷ b) (suc i) e = get_or-id_xor a b i (omega arith)

-- `dht_id_xor` acts on each bit; a bit past the end reads as 0.
pub bit-id_xor :
    (a b : DhtId) (n : ℕ) → length a ≡ length b → bit (id_xor a b) n ≡ xor (bit a n) (bit b n)
bit-id_xor a b n e =
    rw (bit-byte_test (id_xor a b) n, bit-byte_test a n, bit-byte_test b n)
      (ap (λ d. byte_test d (n % 8)) (get_or-id_xor a b (n / 8) e)
        ∙ byte_test-xor (get_or a (n / 8) 0) (get_or b (n / 8) 0) (n % 8) (omega arith))

get_or_past : (m : DhtId) (i : ℕ) → length m ≤ i → get_or m i 0 ≡ 0
get_or_past [] i h = refl
get_or_past (x ∷ m) zero h = absurd (omega arith)
get_or_past (x ∷ m) (suc i) h = get_or_past m i (omega arith)

pub bit_past : (m : DhtId) (n : ℕ) → 8 * length m ≤ n → bit m n ≡ false
bit_past m n h =
    rw (bit-byte_test m n, get_or_past m (n / 8) (omega arith))
      (byte_test-digit 0 (n % 8) (omega arith) ∙ ground arith)

not-not : (b : Bool) → not (not b) ≡ b
not-not true = refl
not-not false = refl

masked : (x j : ℕ) → (bit_and x (0x80 / 2 ^ j) == 0) ≡ not (byte_test x j)
unfolding byte_test
masked x j = sym (not-not (bit_and x (0x80 / 2 ^ j) == 0))

xor_comm : (a b : Bool) → xor a b ≡ xor b a
xor_comm true true = refl
xor_comm true false = refl
xor_comm false true = refl
xor_comm false false = refl

-- The test of the bucket split, which XORs one byte of each identifier.
pub bit_of_bytes :
    (a b : DhtId) (n : ℕ)
    → (bit_and (bit_xor (get_or b (n / 8) 0) (get_or a (n / 8) 0)) (0x80 / 2 ^ (n % 8)) == 0)
      ≡ not (xor (bit a n) (bit b n))
bit_of_bytes a b n =
    rw (bit-byte_test a n, bit-byte_test b n)
      (masked (bit_xor y x) (n % 8)
        ∙ ap not (
            byte_test-xor y x (n % 8) (omega arith)
            ∙ xor_comm (byte_test y (n % 8)) (byte_test x (n % 8))))
  where
    x : ℕ
    x = get_or a (n / 8) 0

    y : ℕ
    y = get_or b (n / 8) 0

digit_eq : (x y j : ℕ) → j < 8 → byte_test x j ≡ byte_test y j → digit x j ≡ digit y j
digit_eq x y j h e = ground (arith, byte_test-digit x j h, byte_test-digit y j h)

digit_lt :
    (x y j : ℕ) → j < 8 → byte_test x j ≡ false → byte_test y j ≡ true → digit x j < digit y j
digit_lt x y j h p q = ground (arith, byte_test-digit x j h, byte_test-digit y j h)

abbrev SameDigits : ℕ → ℕ → ℕ → Type 0
SameDigits x y n = (i : ℕ) → i < n → digit x i ≡ digit y i

byte_eq : (x y : ℕ) → IsByte x → IsByte y → SameDigits x y 8 → x ≡ y
byte_eq x y hx hy e = omega (
  arith,
  e 0 (omega arith),
  e 1 (omega arith),
  e 2 (omega arith),
  e 3 (omega arith),
  e 4 (omega arith),
  e 5 (omega arith),
  e 6 (omega arith),
  e 7 (omega arith),
)

high_step :
    (x y m : ℕ)
    → x / 2 ^ suc m ≡ y / 2 ^ suc m
    → x / 2 ^ m % 2 ≡ y / 2 ^ m % 2
    → x / 2 ^ m ≡ y / 2 ^ m
high_step x y m e d = omega (arith, div_two_pow_suc_right m x, div_two_pow_suc_right m y)

-- Where the first `n` digits agree, so do the numbers that they make up.
byte_high :
    (x y n : ℕ) → IsByte x → IsByte y → n ≤ 8 → SameDigits x y n → x / 2 ^ (8 - n) ≡ y / 2 ^ (8 - n)
byte_high x y zero hx hy h e = omega arith
byte_high x y (suc n) hx hy h e = rw same (
    high_step x y (7 - n)
      (rw (← above) (byte_high x y n hx hy (omega arith) (λ i p. e i (omega arith))))
      (e n (omega arith)))
  where
    above : 8 - n ≡ suc (7 - n)
    above = omega arith

    same : 8 - suc n ≡ 7 - n
    same = omega arith

div_lt : (c a b : ℕ) → 0 < c → a / c < b / c → a < b
div_lt c a b pos q = omega (
  arith,
  (le-div_iff_mul-le {k = c} {x = suc (a / c)} {y = b} pos).0 q,
  lt-div-mul-add {a = a} {b = c} pos,
)

byte_lt :
    (x y j : ℕ) → IsByte x → IsByte y → j < 8 → SameDigits x y j → digit x j < digit y j → x < y
byte_lt x y j hx hy h e d = div_lt (2 ^ (7 - j)) x y (one-le-pow (7 - j) 2 (omega arith)) quotients
  where
    above : 8 - j ≡ suc (7 - j)
    above = omega arith

    halves : x / 2 ^ (7 - j) / 2 ≡ y / 2 ^ (7 - j) / 2
    halves =
        rw (← div_two_pow_suc_right (7 - j) x, ← div_two_pow_suc_right (7 - j) y, ← above)
          (byte_high x y j hx hy (omega arith) e)

    quotients : x / 2 ^ (7 - j) < y / 2 ^ (7 - j)
    quotients = omega (arith, halves)

bit_low : (x : ℕ) (m : DhtId) (n : ℕ) → n < 8 → bit (x ∷ m) n ≡ byte_test x n
bit_low x m n h =
    rw (bit-byte_test (x ∷ m) n)
      (let q : n / 8 ≡ 0 = omega arith in let r : n % 8 ≡ n = omega arith in rw (q, r))

pub bit_high : (x : ℕ) (m : DhtId) (n : ℕ) → bit (x ∷ m) (8 + n) ≡ bit m n
bit_high x m n =
    rw (bit-byte_test (x ∷ m) (8 + n), bit-byte_test m n)
      (let q : (8 + n) / 8 ≡ suc (n / 8) = omega arith in
        let r : (8 + n) % 8 ≡ n % 8 = omega arith in rw (q, r))

-- Two arrays agree in the bits below `n`.
abbrev pub SameBits : DhtId → DhtId → ℕ → Type 0
SameBits a b n = (i : ℕ) → i < n → bit a i ≡ bit b i

head_digits :
    (x y : ℕ) (a b : DhtId) (n : ℕ) → n ≤ 8 → SameBits (x ∷ a) (y ∷ b) n → SameDigits x y n
head_digits x y a b n h e i p =
    digit_eq x y i (omega arith)
      (sym (bit_low x a i (omega arith)) ∙ e i p ∙ bit_low y b i (omega arith))

pub id_compare_head : (x y : ℕ) (a b : DhtId) → x < y → id_compare (x ∷ a) (y ∷ b) ≡ Ordering.lt
unfolding id_compare
id_compare_head x y a b h = ground arith

pub id_compare_tail : (x y : ℕ) (a b : DhtId) → x ≡ y → id_compare (x ∷ a) (y ∷ b) ≡ id_compare a b
unfolding id_compare
id_compare_tail x y a b h = ground arith

-- The first bit in which two identifiers differ decides `memcmp`.
pub id_compare_of_bit :
    (a b : DhtId) (n : ℕ)
    → All IsByte a
    → All IsByte b
    → length a ≡ length b
    → n < 8 * length a
    → SameBits a b n
    → bit a n ≡ false
    → bit b n ≡ true
    → id_compare a b ≡ Ordering.lt
id_compare_of_bit [] b n ha hb e h s p q = absurd (omega arith)
id_compare_of_bit (x ∷ a) [] n ha hb e h s p q = absurd (omega arith)
id_compare_of_bit (x ∷ a) (y ∷ b) n ha hb e h s p q = elim (dec_lt n 8) [
  | yes low ↦ id_compare_head x y a b (
      byte_lt x y n ha.0 hb.0 low (head_digits x y a b n (omega arith) s)
        (digit_lt x y n low (sym (bit_low x a n low) ∙ p) (sym (bit_low y b n low) ∙ q)))
  | no high ↦
      let m : ℕ = n - 8 in
      let back : 8 + m ≡ n = omega arith in
      id_compare_tail x y a b
        (byte_eq x y ha.0 hb.0 (head_digits x y a b 8 (omega arith) (λ i r. s i (omega arith))))
      ∙ id_compare_of_bit a b m ha.1 hb.1 (omega arith) (omega arith)
          (λ i r. sym (bit_high x a i) ∙ s (8 + i) (omega arith) ∙ bit_high y b i)
          (sym (bit_high x a m) ∙ ap (bit (x ∷ a)) back ∙ p)
          (sym (bit_high y b m) ∙ ap (bit (y ∷ b)) back ∙ q)
]

bit_xor-IsByte : (x y : ℕ) → IsByte x → IsByte y → IsByte (bit_xor x y)
bit_xor-IsByte x y hx hy = bit_xor_lt 8 x y hx hy

pub IsArray-id_xor : (n : ℕ) (a b : DhtId) → IsArray n a → IsArray n b → IsArray n (id_xor a b)
unfolding id_xor
IsArray-id_xor n [] [] ha hb = ha
IsArray-id_xor n [] (y ∷ b) ha hb = absurd (omega arith)
IsArray-id_xor n (x ∷ a) [] ha hb = absurd (omega arith)
IsArray-id_xor n (x ∷ a) (y ∷ b) ha hb =
    let rest = IsArray-id_xor (length a) a b (refl, ha.1.1) (omega (arith, ha.0, hb.0), hb.1.1) in
    (omega (arith, ha.0, rest.0), (bit_xor-IsByte x y ha.1.0 hb.1.0, rest.1))

pub IsArray-replicate : (n x : ℕ) → IsByte x → IsArray n (replicate n x)
IsArray-replicate zero x h = (refl, tt)
IsArray-replicate (suc n) x h =
    let rest = IsArray-replicate n x h in (omega (arith, rest.0), (h, rest.1))
