-- ===== src/Common.antt =====
-- src/dht-common.h and src/dht-common.c: keys, identifiers and addresses as byte arrays, and the
-- calls of libsodium behind them. libsodium itself is the parameter `Sodium`.
pub mod Bits
pub mod Text
pub mod Address
pub mod Order
pub mod Hash
use nanotalk.Base.{
  ℕ, ◌+◌, ◌*◌, ◌/◌, ◌%◌, ◌^◌, compare, Ordering, bit_and, bit_or, bit_xor, ◌≡◌, ◌<◌, Bool, not,
  Option, List, [], ◌∷◌, ◌++◌, ◌==◌, length, get_or, take, drop, All, bytes_eq,
}

abbrev pub Bytes : Type 0
Bytes = List ℕ

abbrev pub IsByte : ℕ → Type 0
IsByte b = b < 256

abbrev pub key_size : ℕ
key_size = 32

abbrev pub id_size : ℕ
id_size = 20

abbrev pub address_size : ℕ
address_size = 6

-- `DhtKey`, `DhtId` and `DhtAddress`: the bytes of the one field `data`.
abbrev pub DhtKey : Type 0
DhtKey = Bytes

abbrev pub DhtId : Type 0
DhtId = Bytes

abbrev pub DhtAddress : Type 0
DhtAddress = Bytes

-- A well-formed array of a fixed size.
abbrev pub IsArray : ℕ → Bytes → Type 0
IsArray n bs = (length bs ≡ n) × All IsByte bs

-- The libsodium functions that the program calls, each as a function of its inputs. `none` of
-- `scalarmult` is its non-zero return. Arguments follow C's order, outputs left out.
pub record Sodium : Type 0 where
  pub stream_xor_ic : Bytes → Bytes → ℕ → Bytes → Bytes
  pub stream : ℕ → Bytes → Bytes → Bytes
  pub onetimeauth : Bytes → Bytes → Bytes
  pub scalarmult_base : Bytes → Bytes
  pub scalarmult : Bytes → Bytes → Option Bytes
  pub generichash : ℕ → Bytes → Bytes → Bytes

-- What libsodium documents of them and the program relies on: a stream cipher is its own inverse
-- and keeps the length, a Poly1305 tag has 16 bytes, a hash has the length asked for, and both
-- sides of a Diffie-Hellman exchange compute one secret.
pub record IsSodium (s : Sodium) : Type 0 where
  pub xor_twice :
      (m nonce : Bytes) (ic : ℕ) (key : Bytes)
      → s.stream_xor_ic (s.stream_xor_ic m nonce ic key) nonce ic key ≡ m
  pub xor_length :
      (m nonce : Bytes) (ic : ℕ) (key : Bytes) → length (s.stream_xor_ic m nonce ic key) ≡ length m
  pub auth_length : (m key : Bytes) → length (s.onetimeauth m key) ≡ 16
  pub hash_length : (n : ℕ) (m key : Bytes) → length (s.generichash n m key) ≡ n
  pub exchange :
      (a b : Bytes) → s.scalarmult a (s.scalarmult_base b) ≡ s.scalarmult b (s.scalarmult_base a)

module _ (s : Sodium) where
  unfoldable pub stream_xor : Bytes → Bytes → DhtKey → Bytes
  stream_xor input nonce key = s.stream_xor_ic input nonce 1 key

  -- The 64-byte block keys the authenticator.
  unfoldable pub stream_auth : Bytes → Bytes → DhtKey → Bytes
  stream_auth m nonce key = let block = s.stream 64 nonce key in s.onetimeauth m block

  unfoldable pub stream_verify : Bytes → Bytes → Bytes → DhtKey → Bool
  stream_verify mac m nonce key =
      let block = s.stream 64 nonce key in
      let computed_mac = s.onetimeauth m block in bytes_eq mac computed_mac

  unfoldable pub key_make_public : DhtKey → DhtKey
  key_make_public privkey = s.scalarmult_base privkey

  unfoldable pub key_make_shared : DhtKey → DhtKey → Option DhtKey
  key_make_shared privkey pubkey = s.scalarmult privkey pubkey

  -- A keyed hash over both nonces, cut into the key and the tag.
  unfoldable pub key_derive : DhtKey → DhtKey → DhtKey → DhtKey × DhtKey
  key_derive shared tx_nonce rx_nonce =
      let result = s.generichash (2 * key_size) (tx_nonce ++ rx_nonce) shared in
      (take key_size result, drop key_size result)

  unfoldable pub id_from_pubkey : DhtKey → DhtId
  id_from_pubkey pubkey = s.generichash id_size pubkey []

unfoldable pub id_xor : DhtId → DhtId → DhtId
id_xor [] b = []
id_xor (x ∷ a) [] = []
id_xor (x ∷ a) (y ∷ b) = bit_xor x y ∷ id_xor a b

-- `memcmp(a, b, DHT_ID_SIZE)`.
unfoldable pub id_compare : DhtId → DhtId → Ordering
id_compare [] b = Ordering.eq
id_compare (x ∷ a) [] = Ordering.eq
id_compare (x ∷ a) (y ∷ b) =
    let rest = id_compare a b in
    elim (compare x y) [ Ordering.lt ↦ Ordering.lt | Ordering.gt ↦ Ordering.gt | _ ↦ rest ]

abbrev pub id_equal : DhtId → DhtId → Bool
id_equal = bytes_eq

abbrev pub key_equal : DhtKey → DhtKey → Bool
key_equal = bytes_eq

abbrev pub address_equal : DhtAddress → DhtAddress → Bool
address_equal = bytes_eq

-- A `GInetSocketAddress`: the host's bytes and the port.
pub record SocketAddress : Type 0 where
  pub ip : Bytes
  pub port : ℕ

unfoldable pub address_serialize : SocketAddress → DhtAddress
address_serialize sockaddr = (sockaddr.port / 2 ^ 8) ∷ bit_and sockaddr.port 0xff ∷ sockaddr.ip

-- The shift is in `guint16`.
unfoldable pub address_deserialize : DhtAddress → SocketAddress
address_deserialize addr = record {
  ip = drop 2 addr;
  port = bit_or (get_or addr 0 0 * 2 ^ 8 % 2 ^ 16) (get_or addr 1 0);
}

-- `data[n / 8] & (0x80 >> n % 8)`, the bit test of the bucket walks.
unfoldable pub bit : DhtId → ℕ → Bool
bit m n = not (bit_and (get_or m (n / 8) 0) (0x80 / 2 ^ (n % 8)) == 0)
