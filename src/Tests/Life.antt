-- ===== src/Tests/Life.antt =====
-- The whole life of a client at concrete inputs.
use nanotalk.Base.{◌+◌, ◌++◌, ◌≡◌, refl, List, [], ◌∷◌, replicate, All, none, compare, arith}
use nanotalk.Common.{Bytes, DhtKey, IsArray, id_size, id_compare, id_from_pubkey, key_make_public}
use nanotalk.Common.Bits.{IsArray-replicate}
use nanotalk.Common.Order.{value, id_compare-value}
use nanotalk.Bucket.{init_table}
use nanotalk.Bucket.Update.{IsTable}
use nanotalk.Client.{DhtLookup, new_client}
use nanotalk.Client.Run.{Event, booted, called, received, query_expired, run, finalize}
use nanotalk.Client.Sound.Handlers.{IsInput}
use nanotalk.Client.Sound.Life.{InSequence, run-IsTable, run-InSequence}
use nanotalk.Client.Timers.{same_source, removed, added}
use nanotalk.Client.Timers.Life.{fired, timers_end}
use nanotalk.Tests.{toy}
use nanotalk.Tests.Handshake.{at, random}

abbrev key : DhtKey
key = replicate 32 3

-- A request for nodes.
abbrev asking : Bytes
asking = 0xc0 ∷ replicate 40 7

-- A client boots, calls, is asked, and gets no answer.
abbrev events : List Event
events =
    booted (at 5001)
    ∷ called 5 (replicate 20 9) 1
    ∷ received 6 (at 5002) asking none
    ∷ query_expired 7 (replicate 20 3) (127 ∷ 0 ∷ 0 ∷ 1 ∷ 0x13 ∷ 0x89 ∷ [])
    ∷ []

events-IsInput : All IsInput events
events-IsInput = (
  tt,
  (
    IsArray-replicate 20 9 (omega arith),
    (((omega arith, (IsArray-replicate 40 7 (omega arith)).1), omega arith), (tt, tt)),
  ),
)

key-IsArray : IsArray id_size (new_client toy key).id
unfolding new_client init_table key_make_public id_from_pubkey
key-IsArray = IsArray-replicate 20 3 (omega arith)

run-IsTable_example : IsTable (run toy random events (new_client toy key)).0.table
run-IsTable_example = run-IsTable toy random key events key-IsArray (omega arith) events-IsInput

run-InSequence_example :
    All
      (λ (l : DhtLookup). InSequence l.queries)
      (run toy random events (new_client toy key)).0.lookup_table
run-InSequence_example =
    run-InSequence toy random key events key-IsArray (omega arith) events-IsInput

id_compare-value_example :
    id_compare (1 ∷ 200 ∷ []) (2 ∷ 3 ∷ []) ≡ compare (value (1 ∷ 200 ∷ [])) (value (2 ∷ 3 ∷ []))
id_compare-value_example =
    id_compare-value 2 (1 ∷ 200 ∷ []) (2 ∷ 3 ∷ []) (refl, (omega arith, (omega arith, tt)))
      (refl, (omega arith, (omega arith, tt)))

-- The first timer of the client is that of its first request.
timers_end_example :
    removed 1 (
        (run toy random events (new_client toy key)).1
        ++ finalize 3 70 71 (run toy random events (new_client toy key)).0)
      + fired toy random 1 events (new_client toy key)
    ≡ added 1 (run toy random events (new_client toy key)).1 + (same_source 1 70 + same_source 1 71)
timers_end_example = timers_end 1 toy random key events 3 70 71 (omega arith)
