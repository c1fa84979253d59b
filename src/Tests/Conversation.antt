-- ===== src/Tests/Conversation.antt =====
-- A call between two programs at a concrete input.
use nanotalk.Base.{refl, some, none, [], ◌∷◌, replicate, bytes_eq, List, Bool, true, arith}
use nanotalk.Common.{Bytes, DhtKey, key_make_public, key_make_shared, id_from_pubkey}
use nanotalk.Client.{connected, send_from, complete, new_connection, find_connection}
use nanotalk.Client.Connection.Handshake.{Emits}
use nanotalk.Client.Receive.{receive}
use nanotalk.Session.{Session}
use nanotalk.Rtp.{read_seq, read_ssrc}
use nanotalk.Rtp.Channel.{IsRun}
use nanotalk.Conversation.{call_delivers, Current, Hears, connected_window, answered_window}
use nanotalk.Tests.{toy, toy-IsSodium}
use nanotalk.Tests.Handshake.{at, pending, caller, callee, random, asked, waiting_callee}
use nanotalk.Tests.Transport.{packet, packet-IsRtp, run}
use nanotalk.Tests.Window.{base64, window}

abbrev answers : List (Bool × Bytes)
answers = (true, packet 1 1) ∷ (true, packet 1 2) ∷ []

run-IsRun : IsRun 9 none 65535 run
unfolding read_seq read_ssrc
run-IsRun = (
  packet-IsRtp 255 255,
  refl,
  refl,
  omega arith,
  (packet-IsRtp 0 0, refl, refl, (packet-IsRtp 0 1, refl, refl, omega arith, tt)),
)

answers-IsRun : IsRun 9 none 257 answers
unfolding read_seq read_ssrc
answers-IsRun =
    (packet-IsRtp 1 1, refl, refl, omega arith, (packet-IsRtp 1 2, refl, refl, omega arith, tt))

call_delivers_example :
    (response confirm : Bytes) × (enc dec : DhtKey) × (xa xb : Session) × Emits
      (send_from (some 40) (some (at 5001)) response)
      asked.1
    × Emits
        (send_from (some 30) (some (at 5002)) confirm)
        ((receive random toy 9 (at 5002) response (some 30) caller).1)
    × Emits
        (complete 1 (connected (some 30) enc dec))
        ((receive random toy 9 (at 5002) response (some 30) caller).1)
    × Emits
        (new_connection (replicate 20 1) (some 40) dec enc)
        ((receive random toy 9 (at 5003) confirm none waiting_callee).1)
    × Current (connected_window 1 (some 30) enc dec window) xa
    × Current (answered_window base64 (replicate 20 1) dec enc [] window) xb
    × Hears toy xa xb run
    × Hears toy xb xa answers
unfolding key_make_public key_make_shared id_from_pubkey find_connection bytes_eq
call_delivers_example =
    call_delivers toy toy-IsSodium random 9 (at 5001) (at 5002) (at 5003) caller callee
      waiting_callee pending 1 30 40 (replicate 32 3) base64 window window [] 9 65535 9 257 run
      answers (refl, refl) (refl, refl) refl refl refl refl refl (refl, refl, refl) refl refl refl
      refl refl (omega arith) run-IsRun (omega arith) (omega arith) answers-IsRun (omega arith)
