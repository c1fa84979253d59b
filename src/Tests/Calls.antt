-- ===== src/Tests/Calls.antt =====
-- The client's calls, and a session, at concrete inputs.
use nanotalk.Base.{
  ℕ, ◌+◌, ◌≡◌, refl, true, false, some, List, [], ◌∷◌, ◌++◌, replicate, count, All, bytes_eq, arith,
}
use nanotalk.Common.{
  DhtKey, Bytes, SocketAddress, address_serialize, id_from_pubkey, key_make_public, id_xor,
}
use nanotalk.Bucket.{init_table}
use nanotalk.Client.{DhtQuery, DhtLookup, new_client, find_lookup, store_lookup, drop_lookup}
use nanotalk.Client.Run.{
  Event, booted, called, listening, connection_expired, query_expired, handle, run, finalize,
  started,
}
use nanotalk.Client.Tally.{held, ended}
use nanotalk.Client.Results.{calls}
use nanotalk.Client.Results.Calls.{run_conserves, run-finalize}
use nanotalk.Client.Lookup.{
  bootstrap, lookup_update, update_scanned, lookup_dispatch, dispatch_loop, dispatch_query,
  scan_nodes, add_query, find_query, insert_query, new_query,
}
use nanotalk.Client.Pending.{IsPending}
use nanotalk.Client.Pending.Life.{AllDue, run-IsPending}
use nanotalk.Rtp.{flow_ok}
use nanotalk.Rtp.Source.{RtpSrc, Received, new_src, returned, receive}
use nanotalk.Session.{Session, new_session, launch, accept, destroy, video_src}
use nanotalk.Session.Callbacks.{error, bus_watch}
use nanotalk.Session.Steps.{
  Steps, Waits, CallSteps, IsRinging, Shows, Phase, ringing, answer, message, here, later, movers,
}
use nanotalk.Session.Answer.{accept-accept}
use nanotalk.Session.Refine.{launch-IsRinging, session_refines, waits_for_user}
use nanotalk.Session.Sources.{destroyed_sources}
use nanotalk.Tests.{toy}

abbrev random : ℕ → DhtKey
random n = replicate 32 7

abbrev key : DhtKey
key = replicate 32 3

-- A node is asked for its neighbours, a call is started twice for one peer, and another one for the own
-- identifier.
abbrev life : List Event
life =
    listening true
    ∷ booted (record { ip = 127 ∷ 0 ∷ 0 ∷ 1 ∷ []; port = 5004 })
    ∷ called 0 (replicate 20 9) 4
    ∷ called 1 (replicate 20 3) 5
    ∷ connection_expired (replicate 32 7)
    ∷ []

run_conserves_example :
    held (calls 4) (run toy random life (new_client toy key)).0
      + ended (calls 4) (run toy random life (new_client toy key)).1
    ≡ started 4 life
run_conserves_example = run_conserves 4 toy random key life

run-finalize_example :
    ended (calls 5) (
      (run toy random life (new_client toy key)).1
      ++ finalize 3 1 2 (run toy random life (new_client toy key)).0)
    ≡ started 5 life
run-finalize_example = run-finalize 5 toy random key life 3 1 2

life_starts : started 5 life ≡ 1
unfolding started
life_starts = refl

-- A call that rings here, is disturbed by an error that does not concern it, and is answered.
abbrev rung : Session
rung = launch true (new_session key key true 1)

abbrev run_rung : Steps toy rung (accept rung)
run_rung = later here (answer rung)

session_refines_example :
    (p : Phase) × CallSteps (movers run_rung) (ringing true) p × Shows p (accept rung)
session_refines_example =
    session_refines toy key key true true 1 (accept rung) (omega arith) run_rung

abbrev disturbed : Session
disturbed = (bus_watch (error video_src) rung).0

abbrev run_disturbed : Waits toy rung disturbed
run_disturbed = later here (message rung (error video_src))

rung-IsRinging : IsRinging true rung
unfolding new_session new_src
rung-IsRinging =
    launch-IsRinging true (new_session key key true 1) refl refl refl refl (omega arith)

waits_for_user_example :
    IsRinging true disturbed
    × ((r : Received) (src : RtpSrc) (m : Bytes)
        → ¬ (receive toy disturbed.src r ≡ (src, returned flow_ok (some m))))
waits_for_user_example = waits_for_user toy run_disturbed rung-IsRinging

destroyed_sources_example : count 3 (destroy (accept rung)).sources ≡ count 3 (accept rung).idles
destroyed_sources_example =
    destroyed_sources toy key key true true 1 (accept rung) (omega arith) run_rung 3

-- A node is asked for its neighbours, and does not answer in time.
abbrev node : SocketAddress
node = record { ip = 127 ∷ 0 ∷ 0 ∷ 1 ∷ []; port = 5004 }

abbrev unanswered : List Event
unanswered =
    booted node ∷ query_expired 1 (replicate 20 3) (address_serialize node) ∷ booted node ∷ []

abbrev query : DhtQuery
query = record {
  metric = replicate 20 3;
  addr = address_serialize node;
  timeout_source = 1;
  is_finished = false;
  is_alive = false;
}

abbrev waiting_lookup : DhtLookup
waiting_lookup = record { id = replicate 20 3; queries = query ∷ []; num_sources = 1; results = [] }

unanswered_due : AllDue toy random unanswered (new_client toy key)
unfolding AllDue handle bootstrap new_client find_lookup store_lookup init_table id_from_pubkey
    key_make_public lookup_update update_scanned lookup_dispatch dispatch_loop dispatch_query
    scan_nodes add_query find_query insert_query new_query id_xor bytes_eq drop_lookup
    address_serialize
unanswered_due = (tt, ((waiting_lookup, refl, (query, refl, omega arith)), (tt, tt)))

run-IsPending_example :
    All IsPending (run toy random unanswered (new_client toy key)).0.lookup_table
run-IsPending_example = run-IsPending toy random key unanswered unanswered_due

accept-accept_example : accept (accept rung) ≡ accept rung
accept-accept_example = accept-accept rung
