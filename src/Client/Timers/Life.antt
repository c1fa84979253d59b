-- ===== src/Client/Timers/Life.antt =====
-- The timers of a client over its whole life.
use nanotalk.Base.{ℕ, ◌+◌, ◌<◌, ◌≡◌, refl, List, [], ◌∷◌, ◌++◌, arith}
use nanotalk.Common.{DhtKey, Sodium}
use nanotalk.Client.{
  DhtLookup, DhtConnection, Client, Effect, close, remove_source, new_client, set_listen,
  destroy_lookup, destroy_connection,
}
use nanotalk.Client.Run.{
  Event, booted, called, refreshed, query_expired, connection_expired, received, listening, handle,
  run, destroy_lookups, destroy_connections, finalize,
}
use nanotalk.Client.Tally.{in_lookups, in_connections, held, ended, ended-append}
use nanotalk.Client.Timers.{
  same_source, timers, additions, removed, added, Balanced, timers-IsTally,
}
use nanotalk.Client.Timers.Handlers.{
  query_source, connection_source, bootstrap-Balanced, lookup_async-Balanced, refresh-Balanced,
  query_timeout-Balanced, connection_timeout-Balanced,
}
use nanotalk.Client.Timers.Receive.{receive-Balanced}

-- How often a source fires with an event: the main loop then removes it itself.
abbrev pub fires : ℕ → Event → Client → ℕ
fires n (query_expired now id addr) c = query_source n id addr c
fires n (connection_expired nonce) c = connection_source n nonce c
fires n (booted address) c = 0
fires n (called now id result) c = 0
fires n (refreshed now nbits random) c = 0
fires n (received now sockaddr buffer socket) c = 0
fires n (listening listen) c = 0

-- How often it fires in a run.
unfoldable pub fired : Sodium → (ℕ → DhtKey) → ℕ → List Event → Client → ℕ
fired s randombytes n [] c = 0
fired s randombytes n (e ∷ es) c =
    fires n e c + fired s randombytes n es (handle s randombytes e c).0

module _ (n : ℕ) (positive : 0 < n) where
  destroy_lookups-removed :
      (ls : List DhtLookup) → removed n (destroy_lookups ls) ≡ in_lookups (timers n) ls
  unfolding ended in_lookups destroy_lookups
  destroy_lookups-removed [] = refl
  destroy_lookups-removed (l ∷ ls) =
      let own = timers-IsTally n positive in
      omega (
        arith,
        ended-append (timers n) (destroy_lookup l) (destroy_lookups ls),
        own.lookup_out l,
        destroy_lookups-removed ls,
      )

  destroy_connections-removed :
      (xs : List DhtConnection) → removed n (destroy_connections xs) ≡ in_connections (timers n) xs
  unfolding ended in_connections destroy_connections
  destroy_connections-removed [] = refl
  destroy_connections-removed (x ∷ xs) =
      let own = timers-IsTally n positive in
      omega (
        arith,
        ended-append (timers n) (destroy_connection x) (destroy_connections xs),
        own.connection_out x,
        destroy_connections-removed xs,
      )

  finalize-removed :
      (socket a b : ℕ) (c : Client)
      → removed n (finalize socket a b c) ≡ held (timers n) c + (same_source n a + same_source n b)
  finalize-removed socket a b c =
      let own : List Effect = close socket ∷ remove_source a ∷ remove_source b ∷ [] in
      let both : removed n own ≡ same_source n a + same_source n b = unfold ended in omega arith in
      unfold finalize in
      omega (
        arith,
        ended-append (timers n) (destroy_lookups c.lookup_table)
            (destroy_connections c.connection_table ++ own),
        ended-append (timers n) (destroy_connections c.connection_table) own,
        destroy_lookups-removed c.lookup_table,
        destroy_connections-removed c.connection_table,
        both,
      )

  module _ (s : Sodium) (randombytes : ℕ → DhtKey) where
    handle-Balanced :
        (e : Event) (c : Client) → Balanced n (fires n e c) c (handle s randombytes e c)
    unfolding handle
    handle-Balanced (booted address) c = bootstrap-Balanced n positive randombytes address c
    handle-Balanced (called now id result) c =
        lookup_async-Balanced n positive randombytes now id result c
    handle-Balanced (refreshed now nbits random) c =
        refresh-Balanced n positive randombytes now nbits random c
    handle-Balanced (query_expired now id addr) c = query_timeout-Balanced n positive now id addr c
    handle-Balanced (connection_expired nonce) c = connection_timeout-Balanced n positive nonce c
    handle-Balanced (received now sockaddr buffer socket) c =
        receive-Balanced n positive s randombytes now sockaddr buffer socket c
    handle-Balanced (listening listen) c = unfold set_listen ended in omega arith

    -- At any time of a client's life.
    run-Balanced :
        (es : List Event) (c : Client)
        → Balanced n (fired s randombytes n es c) c (run s randombytes es c)
    unfolding run ended fired
    run-Balanced [] c = omega arith
    run-Balanced (e ∷ es) c =
        let p = handle s randombytes e c in
        let p' = run s randombytes es p.0 in
        omega (
          arith,
          handle-Balanced e c,
          run-Balanced es p.0,
          ended-append (timers n) p.1 p'.1,
          ended-append (additions n) p.1 p'.1,
        )

-- No timer of a query or of a connection is left in the main loop, or removed from it twice: by the
-- time that a client has been destroyed, whatever it has been through since `dht_client_new`, each
-- source number above 0 has been removed, by the client or because its timer fired, exactly as
-- often as the client has added it, and once more for each of the two sources `a` and `b` of the client
-- itself that it is.
pub timers_end :
    (n : ℕ) (s : Sodium) (randombytes : ℕ → DhtKey) (key : DhtKey) (es : List Event)
    (socket a b : ℕ)
    → 0 < n
    → let (c, effects) = run s randombytes es (new_client s key) in
      removed n (effects ++ finalize socket a b c) + fired s randombytes n es (new_client s key)
      ≡ added n effects + (same_source n a + same_source n b)
timers_end n s randombytes key es socket a b positive =
    let p = run s randombytes es (new_client s key) in
    let none_held : held (timers n) (new_client s key) ≡ 0 =
      unfold new_client in_lookups in_connections in refl in
    omega (
      arith,
      ended-append (timers n) p.1 (finalize socket a b p.0),
      finalize-removed n positive socket a b p.0,
      run-Balanced n positive s randombytes es (new_client s key),
      none_held,
    )
