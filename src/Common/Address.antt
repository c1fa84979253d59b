-- ===== src/Common/Address.antt =====
-- `dht_address_serialize` and `dht_address_deserialize`: the six bytes of an address.
use nanotalk.Base.{ℕ, ◌*◌, ◌/◌, ◌%◌, ◌^◌, bit_and, ◌<◌, ◌≡◌, ap, arith}
use nanotalk.Base.Bits.{bit_or_shift, bit_and_low, bit_and-zero}
use nanotalk.Common.{SocketAddress, address_serialize, address_deserialize}

-- The lowest binary digits, up to eight.
low_1 : (a : ℕ) → bit_and a 1 ≡ a % 2
low_1 a = omega (arith, bit_and_low a 1, bit_and-zero (a / 2))

low_2 : (a : ℕ) → bit_and a 3 ≡ a % 4
low_2 a = omega (arith, bit_and_low a 3, low_1 (a / 2))

low_3 : (a : ℕ) → bit_and a 7 ≡ a % 8
low_3 a = omega (arith, bit_and_low a 7, low_2 (a / 2))

low_4 : (a : ℕ) → bit_and a 15 ≡ a % 16
low_4 a = omega (arith, bit_and_low a 15, low_3 (a / 2))

low_5 : (a : ℕ) → bit_and a 31 ≡ a % 32
low_5 a = omega (arith, bit_and_low a 31, low_4 (a / 2))

low_6 : (a : ℕ) → bit_and a 63 ≡ a % 64
low_6 a = omega (arith, bit_and_low a 63, low_5 (a / 2))

low_7 : (a : ℕ) → bit_and a 127 ≡ a % 128
low_7 a = omega (arith, bit_and_low a 127, low_6 (a / 2))

low_8 : (a : ℕ) → bit_and a 255 ≡ a % 256
low_8 a = omega (arith, bit_and_low a 255, low_7 (a / 2))

-- An address is read back as it was written, whatever the host, if the port is a `guint16`.
pub address_deserialize-serialize :
    (a : SocketAddress) → a.port < 2 ^ 16 → address_deserialize (address_serialize a) ≡ a
unfolding address_deserialize address_serialize
address_deserialize-serialize a h =
    ap (λ (port : ℕ). record a { port = port })
      (rw (high, low_8 a.port, bit_or_shift 8 (a.port / 256) (a.port % 256) (omega arith))
        (omega arith))
  where
    high : a.port / 256 * 256 % 65536 ≡ a.port / 256 * 256
    high = omega (arith, h)
