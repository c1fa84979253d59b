-- ===== src/Tests.antt =====
-- Concrete inputs, and a stand-in for libsodium that satisfies its laws: a cipher that swaps the
-- bytes 0 and 1, a hash and a tag that cut off their padded input, and a commutative exchange.
mod Table
mod Wire
mod Handshake
mod Transport
mod Calls
mod Window
mod Conversation
mod Life
use nanotalk.Base.{
  ℕ, zero, suc, ◌+◌, ◌≡◌, refl, ap, ap₂, [], ◌∷◌, ◌++◌, some, length, take, replicate, length-take,
  length-append, arith,
}
use nanotalk.Common.{Bytes, Sodium, IsSodium}

abbrev swap : ℕ → ℕ
swap zero = 1
swap (suc zero) = 0
swap (suc (suc n)) = suc (suc n)

swap-swap : (n : ℕ) → swap (swap n) ≡ n
swap-swap zero = refl
swap-swap (suc zero) = refl
swap-swap (suc (suc n)) = refl

abbrev cipher : Bytes → Bytes
cipher [] = []
cipher (x ∷ xs) = swap x ∷ cipher xs

cipher-cipher : (xs : Bytes) → cipher (cipher xs) ≡ xs
cipher-cipher [] = refl
cipher-cipher (x ∷ xs) = ap₂ (λ y ys. y ∷ ys) (swap-swap x) (cipher-cipher xs)

length-cipher : (xs : Bytes) → length (cipher xs) ≡ length xs
length-cipher [] = refl
length-cipher (x ∷ xs) = ap suc (length-cipher xs)

abbrev add : Bytes → Bytes → Bytes
add [] ys = ys
add (x ∷ xs) [] = x ∷ xs
add (x ∷ xs) (y ∷ ys) = (x + y) ∷ add xs ys

add_comm : (xs ys : Bytes) → add xs ys ≡ add ys xs
add_comm [] [] = refl
add_comm [] (y ∷ ys) = refl
add_comm (x ∷ xs) [] = refl
add_comm (x ∷ xs) (y ∷ ys) =
    ap₂ (λ z zs. z ∷ zs) (let e : x + y ≡ y + x = omega arith in e) (add_comm xs ys)

length-replicate : (n x : ℕ) → length (replicate n x) ≡ n
length-replicate zero x = refl
length-replicate (suc n) x = ap suc (length-replicate n x)

-- The first `n` bytes, filled up with zeros.
abbrev pad : ℕ → Bytes → Bytes
pad n m = take n (m ++ replicate n 0)

length-pad : (n : ℕ) (m : Bytes) → length (pad n m) ≡ n
length-pad n m = omega (
  arith,
  length-take n (m ++ replicate n 0),
  length-append m (replicate n 0),
  length-replicate n 0,
)

abbrev pub toy : Sodium
toy = record {
  stream_xor_ic = λ m nonce ic key. cipher m;
  stream = λ n nonce key. pad n (nonce ++ key);
  onetimeauth = λ m key. pad 16 (m ++ key);
  scalarmult_base = λ k. k;
  scalarmult = λ a b. some (add a b);
  generichash = λ n m key. pad n (m ++ key);
}

pub toy-IsSodium : IsSodium toy
toy-IsSodium = record {
  xor_twice = λ m nonce ic key. cipher-cipher m;
  xor_length = λ m nonce ic key. length-cipher m;
  auth_length = λ m key. length-pad 16 (m ++ key);
  hash_length = λ n m key. length-pad n (m ++ key);
  exchange = λ a b. ap some (add_comm a b);
}
