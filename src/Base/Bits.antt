-- ===== src/Base/Bits.antt =====
-- `^`, `|` and `&` on numbers of any width: one equation for the lowest digit of each, and what
-- follows for the digits above it.
use Prim.Native.Nat.{ℕ, zero, suc, ◌+◌, ◌*◌, ◌/◌, ◌%◌, ◌^◌, ◌≤◌, ◌<◌, min, max}
use Prim.Native.Nat.{bit_and, bit_or, bit_xor, digits, bitwise, differ}
use Prim.Native.Nat.{bit_and-bitwise, bit_or-bitwise, bit_xor-bitwise}
use mathlib.Core.Path.{◌≡◌, refl, sym, ap, ◌∙◌}
use native.Mathlib.Nat.{le_refl, pow-suc, div-div-eq-div-mul}
use native.Mathlib.Omega.{arith}

-- The count that `digits` runs on does not matter, if it is as large as the first operand.
module _ (rest : ℕ → ℕ) (op : ℕ → ℕ → ℕ) where
  run_out : (count y : ℕ) → digits rest op count 0 y ≡ rest y
  run_out zero y = refl
  run_out (suc count) y = refl

  any_count :
      (x y count other : ℕ)
      → x ≤ count
      → x ≤ other
      → digits rest op count x y ≡ digits rest op other x y
  any_count zero y count other h k = run_out count y ∙ sym (run_out other y)
  any_count (suc x) y zero other h k = absurd (omega (arith, h))
  any_count (suc x) y (suc count) zero h k = absurd (omega (arith, k))
  any_count (suc x) y (suc count) (suc other) h k =
      ap (λ d. d * 2 + op (suc x % 2) (y % 2))
        (any_count (suc x / 2) (y / 2) count other (omega (arith, h)) (omega (arith, k)))

  -- The lowest digit apart from the others.
  lowest :
      (x y : ℕ)
      → 0 < x
      → bitwise rest op x y ≡ op (x % 2) (y % 2) + 2 * bitwise rest op (x / 2) (y / 2)
  lowest zero y h = absurd (omega (arith, h))
  lowest (suc x) y h =
      let e = any_count (suc x / 2) (y / 2) x (suc x / 2) (omega arith) (omega arith) in
      omega (arith, e)

pub bit_or_low : (x y : ℕ) → bit_or x y ≡ max (x % 2) (y % 2) + 2 * bit_or (x / 2) (y / 2)
bit_or_low zero y = simp bit_or-bitwise (omega arith)
bit_or_low (suc x) y = simp bit_or-bitwise (lowest (λ d. d) max (suc x) y (omega arith))

pub bit_and_low : (x y : ℕ) → bit_and x y ≡ min (x % 2) (y % 2) + 2 * bit_and (x / 2) (y / 2)
bit_and_low zero y = simp bit_and-bitwise (omega arith)
bit_and_low (suc x) y = simp bit_and-bitwise (lowest (λ d. 0) min (suc x) y (omega arith))

differ_parity : (a b : ℕ) → a < 2 → b < 2 → differ a b ≡ (a + b) % 2
differ_parity zero zero h k = refl
differ_parity zero (suc zero) h k = refl
differ_parity (suc zero) zero h k = refl
differ_parity (suc zero) (suc zero) h k = refl
differ_parity (suc (suc a)) b h k = absurd (omega arith)
differ_parity a (suc (suc b)) h k = absurd (omega arith)

pub bit_xor_low : (x y : ℕ) → bit_xor x y ≡ (x + y) % 2 + 2 * bit_xor (x / 2) (y / 2)
bit_xor_low zero y = simp bit_xor-bitwise (omega arith)
bit_xor_low (suc x) y = simp bit_xor-bitwise (
    omega (
      arith,
      lowest (λ d. d) differ (suc x) y (omega arith),
      differ_parity (suc x % 2) (y % 2) (omega arith) (omega arith),
    ))

pub two_pow_suc : (k : ℕ) → 2 ^ suc k ≡ 2 * 2 ^ k
two_pow_suc k = omega (arith, pow-suc 2 k)

div_two_pow_suc : (k a : ℕ) → a / 2 ^ suc k ≡ a / 2 / 2 ^ k
div_two_pow_suc k a = rw (two_pow_suc k, div-div-eq-div-mul a 2 (2 ^ k))

pub div_two_pow_suc_right : (k a : ℕ) → a / 2 ^ suc k ≡ a / 2 ^ k / 2
div_two_pow_suc_right k a = rw (pow-suc 2 k, div-div-eq-div-mul a (2 ^ k) 2)

-- One binary digit: `x >> k & 1`.
pub bit_xor_digit : (k a b : ℕ) → bit_xor a b / 2 ^ k % 2 ≡ (a / 2 ^ k + b / 2 ^ k) % 2
bit_xor_digit zero a b = omega (arith, bit_xor_low a b)
bit_xor_digit (suc k) a b =
    rw (div_two_pow_suc k (bit_xor a b), div_two_pow_suc k a, div_two_pow_suc k b, halved)
      (bit_xor_digit k (a / 2) (b / 2))
  where
    halved : bit_xor a b / 2 ≡ bit_xor (a / 2) (b / 2)
    halved = omega (arith, bit_xor_low a b)

mul_two_pow_suc : (q k : ℕ) → q * 2 ^ suc k ≡ 2 * (q * 2 ^ k)
mul_two_pow_suc q k = omega (arith, ap (λ (t : ℕ). q * t) (two_pow_suc k))

-- Induction on the binary digits.
by_halves {ℓ} :
    (P : ℕ → Type ℓ) → P 0 → ((x : ℕ) → P (suc x / 2) → P (suc x)) → (bound x : ℕ) → x ≤ bound → P x
by_halves P base step bound zero h = base
by_halves P base step zero (suc x) h = absurd (omega (arith, h))
by_halves P base step (suc bound) (suc x) h =
    step x (by_halves P base step bound (suc x / 2) (omega (arith, h)))

bit_or-zero : (x : ℕ) → bit_or x 0 ≡ x
bit_or-zero x =
    by_halves (λ y. bit_or y 0 ≡ y) refl (λ y e. omega (arith, e, bit_or_low (suc y) 0)) x x
      (le_refl x)

pub bit_and-zero : (x : ℕ) → bit_and x 0 ≡ 0
bit_and-zero x =
    by_halves (λ y. bit_and y 0 ≡ 0) refl (λ y e. omega (arith, e, bit_and_low (suc y) 0)) x x
      (le_refl x)

-- `q << k | r` is a sum where `r` fits `k` bits.
pub bit_or_shift : (k q r : ℕ) → r < 2 ^ k → bit_or (q * 2 ^ k) r ≡ q * 2 ^ k + r
bit_or_shift zero q r h = ground (arith, bit_or-zero q)
bit_or_shift (suc k) q r h = ground (
  arith,
  bit_or_low (q * 2 ^ suc k) r,
  mul_two_pow_suc q k,
  two_pow_suc k,
  bit_or_shift k q (r / 2),
)

-- `x & 1 << k` picks the digit `k`.
pub bit_and_pow : (k a : ℕ) → bit_and a (2 ^ k) ≡ 2 ^ k * (a / 2 ^ k % 2)
bit_and_pow zero a = omega (arith, bit_and_low a 1, bit_and-zero (a / 2))
bit_and_pow (suc k) a = rw (div_two_pow_suc k a) (
    omega (
      arith,
      bit_and_low a (2 ^ suc k),
      ap (bit_and (a / 2)) halved,
      bit_and_pow k (a / 2),
      mul_two_pow_suc (a / 2 / 2 ^ k % 2) k,
      two_pow_suc k,
    ))
  where
    halved : 2 ^ suc k / 2 ≡ 2 ^ k
    halved = omega (arith, two_pow_suc k)

-- `^` stays within the width of its arguments.
pub bit_xor_lt : (k a b : ℕ) → a < 2 ^ k → b < 2 ^ k → bit_xor a b < 2 ^ k
bit_xor_lt zero zero zero p q = omega arith
bit_xor_lt zero zero (suc b) p q = absurd (omega arith)
bit_xor_lt zero (suc a) b p q = absurd (omega arith)
bit_xor_lt (suc k) a b p q = omega (
  arith,
  bit_xor_low a b,
  two_pow_suc k,
  bit_xor_lt k (a / 2) (b / 2) (omega (arith, two_pow_suc k)) (omega (arith, two_pow_suc k)),
)

pub bit_or_lt : (k a b : ℕ) → a < 2 ^ k → b < 2 ^ k → bit_or a b < 2 ^ k
bit_or_lt zero zero zero p q = omega arith
bit_or_lt zero zero (suc b) p q = absurd (omega arith)
bit_or_lt zero (suc a) b p q = absurd (omega arith)
bit_or_lt (suc k) a b p q = omega (
  arith,
  bit_or_low a b,
  two_pow_suc k,
  bit_or_lt k (a / 2) (b / 2) (omega (arith, two_pow_suc k)) (omega (arith, two_pow_suc k)),
)

-- `&` stays within the width of its first argument.
pub bit_and_lt : (k a b : ℕ) → a < 2 ^ k → bit_and a b < 2 ^ k
bit_and_lt zero zero b p = simp bit_and-bitwise (omega arith)
bit_and_lt zero (suc a) b p = absurd (omega arith)
bit_and_lt (suc k) a b p = omega (
  arith,
  bit_and_low a b,
  two_pow_suc k,
  bit_and_lt k (a / 2) (b / 2) (omega (arith, two_pow_suc k)),
)
