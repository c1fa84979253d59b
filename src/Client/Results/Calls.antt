-- ===== src/Client/Results/Calls.antt =====
-- The asynchronous calls of a client over its whole life.
use nanotalk.Base.{ℕ, ◌+◌, ◌≡◌, refl, List, [], ◌∷◌, ◌++◌, arith}
use nanotalk.Common.{DhtKey, Sodium}
use nanotalk.Client.{
  DhtLookup, DhtConnection, Client, Effect, close, remove_source, new_client, set_listen,
  destroy_lookup, destroy_connection,
}
use nanotalk.Client.Run.{
  Event, booted, called, refreshed, query_expired, connection_expired, received, listening, handle,
  run, destroy_lookups, destroy_connections, finalize, started,
}
use nanotalk.Client.Tally.{in_lookups, in_connections, held, ended, ended-append, whereabouts}
use nanotalk.Client.Results.{destroy_lookup-ended, destroy_connection-ended, calls}
use nanotalk.Client.Results.Handlers.{
  bootstrap-count, lookup_async-count, refresh-count, query_timeout-count, connection_timeout-count,
}
use nanotalk.Client.Results.Datagrams.{receive-count}

module _ (r : ℕ) where
  destroy_lookups-ended :
      (ls : List DhtLookup) → ended (calls r) (destroy_lookups ls) ≡ in_lookups (calls r) ls
  unfolding ended in_lookups destroy_lookups
  destroy_lookups-ended [] = refl
  destroy_lookups-ended (l ∷ ls) = omega (
    arith,
    ended-append (calls r) (destroy_lookup l) (destroy_lookups ls),
    destroy_lookup-ended r l,
    destroy_lookups-ended ls,
  )

  destroy_connections-ended :
      (xs : List DhtConnection)
      → ended (calls r) (destroy_connections xs) ≡ in_connections (calls r) xs
  unfolding ended in_connections destroy_connections
  destroy_connections-ended [] = refl
  destroy_connections-ended (x ∷ xs) = omega (
    arith,
    ended-append (calls r) (destroy_connection x) (destroy_connections xs),
    destroy_connection-ended r x,
    destroy_connections-ended xs,
  )

  finalize-ended :
      (socket a b : ℕ) (c : Client) → ended (calls r) (finalize socket a b c) ≡ held (calls r) c
  finalize-ended socket a b c =
      let own : List Effect = close socket ∷ remove_source a ∷ remove_source b ∷ [] in
      let silent : ended (calls r) own ≡ 0 = unfold ended in refl in
      unfold finalize in
      omega (
        arith,
        ended-append (calls r) (destroy_lookups c.lookup_table)
            (destroy_connections c.connection_table ++ own),
        ended-append (calls r) (destroy_connections c.connection_table) own,
        destroy_lookups-ended c.lookup_table,
        destroy_connections-ended c.connection_table,
        silent,
      )

module _ (r : ℕ) (s : Sodium) (randombytes : ℕ → DhtKey) where
  handle-count :
      (e : Event) (es : List Event) (c : Client)
      → whereabouts (calls r) (handle s randombytes e c) + started r es
        ≡ held (calls r) c + started r (e ∷ es)
  unfolding handle started
  handle-count (booted address) es c = omega (arith, bootstrap-count r randombytes address c)
  handle-count (called now id result) es c =
      omega (arith, lookup_async-count r randombytes now id result c)
  handle-count (refreshed now nbits random) es c =
      omega (arith, refresh-count r randombytes now nbits random c)
  handle-count (query_expired now id addr) es c = omega (arith, query_timeout-count r now id addr c)
  handle-count (connection_expired nonce) es c = omega (arith, connection_timeout-count r nonce c)
  handle-count (received now sockaddr buffer socket) es c =
      omega (arith, receive-count r s randombytes now sockaddr buffer socket c)
  handle-count (listening listen) es c = unfold set_listen ended in omega arith

  run-count :
      (es : List Event) (c : Client)
      → whereabouts (calls r) (run s randombytes es c) ≡ held (calls r) c + started r es
  unfolding run ended started
  run-count [] c = omega arith
  run-count (e ∷ es) c =
      let p = handle s randombytes e c in
      let p' = run s randombytes es p.0 in
      omega (arith, handle-count e es c, run-count es p.0, ended-append (calls r) p.1 p'.1)

-- Whatever a client has been through since `dht_client_new` (calls, time-outs, refreshes, arbitrary
-- datagrams), a call of `dht_client_lookup_async` is pending in one of its lookups or connections, or has
-- been completed, exactly as often as it was started: none is lost, and none is completed twice.
pub run_conserves :
    (r : ℕ) (s : Sodium) (randombytes : ℕ → DhtKey) (key : DhtKey) (es : List Event)
    → let (c, effects) = run s randombytes es (new_client s key) in
      held (calls r) c + ended (calls r) effects ≡ started r es
run_conserves r s randombytes key es =
    let none_held : held (calls r) (new_client s key) ≡ 0 =
      unfold new_client in_lookups in_connections in refl in
    omega (arith, run-count r s randombytes es (new_client s key), none_held)

-- By the time that a client has been destroyed, each call of `dht_client_lookup_async` has been
-- completed exactly as often as it was started.
pub run-finalize :
    (r : ℕ) (s : Sodium) (randombytes : ℕ → DhtKey) (key : DhtKey) (es : List Event)
    (socket a b : ℕ)
    → let (c, effects) = run s randombytes es (new_client s key) in
      ended (calls r) (effects ++ finalize socket a b c) ≡ started r es
run-finalize r s randombytes key es socket a b =
    let p = run s randombytes es (new_client s key) in
    omega (
      arith,
      ended-append (calls r) p.1 (finalize socket a b p.0),
      finalize-ended r socket a b p.0,
      run_conserves r s randombytes key es,
    )
