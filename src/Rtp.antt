-- ===== src/Rtp.antt =====
-- The encrypted RTP transport: what src/rtp-sink.c and src/rtp-src.c share on the wire.
pub mod Sink
pub mod Source
pub mod Rollover
pub mod Nonce
pub mod Delivery
pub mod Channel
pub mod Authentic
pub mod Control
use nanotalk.Base.{ℕ, zero, suc, ◌+◌, ◌*◌, ◌/◌, ◌%◌, ◌^◌, bit_or, [], ◌∷◌, ◌++◌, get_or}
use nanotalk.Common.{Bytes}

-- Bytes that a read past the end of a buffer would meet do not occur: each read is behind a test
-- of the length.
abbrev pub byte : Bytes → ℕ → ℕ
byte bs i = get_or bs i 0

-- `GST_READ_UINT16_BE(packet + 2)` and `GST_READ_UINT32_BE(packet + 8)`.
unfoldable pub read_seq : Bytes → ℕ
read_seq packet = byte packet 2 * 2 ^ 8 + byte packet 3

unfoldable pub read_ssrc : Bytes → ℕ
read_ssrc packet =
    byte packet 8 * 2 ^ 24 + byte packet 9 * 2 ^ 16 + byte packet 10 * 2 ^ 8 + byte packet 11

-- `GST_WRITE_UINT64_LE` and `GST_WRITE_UINT32_LE`: the lowest byte first.
unfoldable pub write_le : ℕ → ℕ → Bytes
write_le zero x = []
write_le (suc n) x = x % 256 ∷ write_le n (x / 256)

-- `roc << 16 | (guint64)seq`, in 64 bits.
abbrev pub packet_index : ℕ → ℕ → ℕ
packet_index roc seq = bit_or (roc * 2 ^ 16 % 2 ^ 64) seq

-- The nonce that both ends compute for a packet.
unfoldable pub make_nonce : ℕ → ℕ → ℕ → Bytes
make_nonce roc seq ssrc = write_le 8 (packet_index roc seq) ++ write_le 4 ssrc

-- The RTP header has 12 bytes, the authentication tag 16.
abbrev pub header_size : ℕ
header_size = 12

abbrev pub mac_size : ℕ
mac_size = 16

-- `GstFlowReturn`, as far as the program returns it.
pub data Flow : Type 0 where
  flow_ok flow_error flow_flushing : Flow
