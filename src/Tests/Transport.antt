-- ===== src/Tests/Transport.antt =====
-- The RTP transport at concrete inputs.
use nanotalk.Base.{ℕ, ◌+◌, ◌*◌, ◌^◌, ◌≤◌, ◌≡◌, refl, Bool, true, false, some, List, [], ◌∷◌, arith}
use nanotalk.Common.{Bytes, DhtKey}
use nanotalk.Tests.{toy, toy-IsSodium}
use nanotalk.Rtp.{flow_ok, make_nonce, read_seq, read_ssrc}
use nanotalk.Rtp.Sink.{new_sink, seal}
use nanotalk.Rtp.Source.{
  Received, datagram, create, guess_roc, new_src, process, returned, store_stream, stream_roc,
  lookup_stream,
}
use nanotalk.Rtp.Rollover.{guess_roc_lem, guess_roc_bounds}
use nanotalk.Rtp.Nonce.{make_nonce-injective}
use nanotalk.Rtp.Delivery.{IsRtp, process-seal}
use nanotalk.Rtp.Authentic.{IsGuarded, create-IsGuarded}
use nanotalk.Rtp.Channel.{transmit, transmit_arrives}

abbrev key : DhtKey
key = 1 ∷ 2 ∷ 3 ∷ []

-- A packet with the last sequence number before a roll-over, and two after it.
abbrev pub packet : ℕ → ℕ → Bytes
packet high low = 0x80 ∷ 96 ∷ high ∷ low ∷ 0 ∷ 0 ∷ 0 ∷ 0 ∷ 0 ∷ 0 ∷ 0 ∷ 9 ∷ 1 ∷ 5 ∷ []

pub packet-IsRtp : (high low : ℕ) → IsRtp (packet high low)
packet-IsRtp high low = record { long = omega arith; version = refl; short = omega arith }

abbrev pub run : List (Bool × Bytes)
run = (true, packet 255 255) ∷ (false, packet 0 0) ∷ (true, packet 0 1) ∷ []

transmit_arrives_example :
    transmit toy (new_sink key) (new_src key) run ≡ packet 255 255 ∷ packet 0 1 ∷ []
unfolding read_seq read_ssrc
transmit_arrives_example =
    transmit_arrives toy key 9 65535 run toy-IsSodium (omega arith)
      (
        packet-IsRtp 255 255,
        refl,
        refl,
        omega arith,
        (packet-IsRtp 0 0, refl, refl, (packet-IsRtp 0 1, refl, refl, omega arith, tt)),
      )
      (omega arith)

make_nonce-injective_example : (◌≡◌ {A = ℕ} 1 1) × (◌≡◌ {A = ℕ} 2 2) × (◌≡◌ {A = ℕ} 3 3)
make_nonce-injective_example =
    make_nonce-injective 1 2 3 1 2 3 (omega arith) (omega arith) (omega arith) (omega arith)
      (omega arith) (omega arith) refl

guess_roc_lem_example : guess_roc 65530 2 3 ≡ 3
guess_roc_lem_example =
    guess_roc_lem (2 * 65536 + 65530) (3 * 65536 + 3) (omega arith) (omega arith) (omega arith)

guess_roc_bounds_example :
    (guess_roc 65530 2 3 ≤ 2 ^ 48) × (guess_roc 65530 2 3 ≤ 3) × (2 ≤ guess_roc 65530 2 3 + 1)
guess_roc_bounds_example = guess_roc_bounds 65530 2 3 (omega arith)

process-seal_example :
    process toy true true (new_src key) (seal toy key (make_nonce 0 1 9) (packet 0 1)) ≡ (
      record (new_src key) { streams = (9, record { roc = 0; seq_last = 1 }) ∷ [] },
      returned flow_ok (some (packet 0 1)),
    )
unfolding new_src store_stream read_seq read_ssrc guess_roc stream_roc lookup_stream
process-seal_example =
    process-seal toy toy-IsSodium key (make_nonce 0 1 9) (packet 0 1) (packet-IsRtp 0 1)
      (new_src key) refl refl refl

-- A datagram with a wrong tag, and one that was sealed.
abbrev deliveries : List Received
deliveries =
    datagram (seal toy (9 ∷ []) (make_nonce 0 1 9) (packet 0 1)) true true
    ∷ datagram (seal toy key (make_nonce 0 1 9) (packet 0 1)) true true
    ∷ []

create-IsGuarded_example :
    IsGuarded toy deliveries (new_src key) (create toy (new_src key) deliveries)
create-IsGuarded_example = create-IsGuarded toy (new_src key) deliveries
