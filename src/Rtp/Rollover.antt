-- ===== src/Rtp/Rollover.antt =====
-- The roll-over counter of `rtp_src_create`: the extended index of a packet, from its 16-bit sequence
-- number and the last index.
use nanotalk.Base.{ℕ, ◌+◌, ◌/◌, ◌%◌, ◌^◌, ◌≤◌, ◌<◌, ◌≡◌, arith}
use nanotalk.Rtp.Source.{guess_roc}

-- The receiver guesses the counter with which a packet was sent, from the packet's 16-bit sequence
-- number and the last index, if the two indices are less than `0x8000` apart.
pub guess_roc_lem :
    (last index : ℕ)
    → last < index + 0x8000
    → index < last + 0x8000
    → index < 2 ^ 64
    → guess_roc (last % 2 ^ 16) (last / 2 ^ 16) (index % 2 ^ 16) ≡ index / 2 ^ 16
unfolding guess_roc
guess_roc_lem last index h k r = ground arith

-- A guess moves a counter of at most `2 ^ 48` by at most one, and keeps it at most `2 ^ 48`.
pub guess_roc_bounds :
    (seq_last roc seq : ℕ)
    → roc ≤ 2 ^ 48
    → (guess_roc seq_last roc seq ≤ 2 ^ 48)
      × (guess_roc seq_last roc seq ≤ roc + 1)
      × (roc ≤ guess_roc seq_last roc seq + 1)
unfolding guess_roc
guess_roc_bounds seq_last roc seq h = ground arith

-- A stream with no state is taken to be at counter 0, whatever its sequence number.
pub guess_roc_first : (seq : ℕ) → guess_roc 0 0 seq ≡ 0
unfolding guess_roc
guess_roc_first seq = ground arith
