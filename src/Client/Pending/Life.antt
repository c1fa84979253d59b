-- ===== src/Client/Pending/Life.antt =====
-- The pending lookups of a client over its whole life.
use nanotalk.Base.{
  ℕ, ◌<◌, ◌≡◌, refl, sym, ap, ◌∙◌, subst, inl, inr, true, false, some, List, [], ◌∷◌, All,
  Bool-cases, Option-cases, arith,
}
use nanotalk.Common.{
  DhtId, DhtKey, DhtAddress, SocketAddress, Sodium, id_equal, id_xor, address_serialize,
}
use nanotalk.Bucket.{dec_uint, update}
use nanotalk.Search.{MsgNode, search_nodes}
use nanotalk.Client.{
  DhtQuery, DhtLookup, Client, new_client, set_listen, find_lookup, store_lookup, remove_lookup,
  replace_lookup,
}
use nanotalk.Client.Tables.{
  find_lookup-All, remove_lookup-All, store_lookup-All, remove-store_lookup,
}
use nanotalk.Client.Lookup.{
  lookup_update, start_lookup, bootstrap, lookup_async, refresh, refresh_id, query_timeout,
  empty_lookup, zero_id, find_query, modify_query,
}
use nanotalk.Client.Connection.{connection_timeout}
use nanotalk.Client.Run.{
  Event, booted, called, refreshed, query_expired, connection_expired, received, listening, handle,
  run,
}
use nanotalk.Client.Sources.Loop.{waiting}
use nanotalk.Client.Pending.{IsPending, IsGoing}
use nanotalk.Client.Pending.Queries.{waiting-modify_query}
use nanotalk.Client.Pending.Dispatch.{but, lookup_dispatch-IsGoing, lookup_update-IsGoing}
use nanotalk.Client.Pending.Datagrams.{receive-IsGoing}
use nanotalk.Client.Pending.Handlers.{Keeps-IsGoing, connection_timeout-Keeps}

-- A timer of a query runs out only if the query waits.
abbrev pub IsDue : Event → Client → Type 0
IsDue (query_expired now id addr) c =
    (l : DhtLookup) × (find_lookup id c.lookup_table ≡ some l)
    × ((q : DhtQuery) × (find_query addr l.queries ≡ some q) × (0 < q.timeout_source))
IsDue (booted address) c = Unit
IsDue (called now id result) c = Unit
IsDue (refreshed now nbits random) c = Unit
IsDue (connection_expired nonce) c = Unit
IsDue (received now sockaddr buffer socket) c = Unit
IsDue (listening listen) c = Unit

query_timeout-IsGoing :
    (now : ℕ) (id : DhtId) (addr : DhtAddress) (c : Client)
    → IsGoing c
    → IsDue (query_expired now id addr) c
    → IsGoing (query_timeout now id addr c).0
query_timeout-IsGoing now id addr c h (l, e, (q, e', due)) =
    let done = λ (x : DhtQuery). record x { is_finished = true; timeout_source = 0 } in
    let l' : DhtLookup = record l {
      queries = modify_query done addr l.queries;
      num_sources = dec_uint l.num_sources;
    } in
    let c1 : Client = record c { table = update now (id_xor q.metric l.id) q.addr false c.table } in
    let p = find_lookup-All IsPending id l c.lookup_table h.0 e in
    let fewer = waiting-modify_query done addr q l.queries (λ x. refl) e' in
    unfold query_timeout in
    rw (query_timeout, e, e')
      (lookup_dispatch-IsGoing l' c1 (ground (arith, fewer, p, due)) (but l.id c h))

module _ (s : Sodium) (randombytes : ℕ → DhtKey) where
  -- A lookup that has no query yet.
  start-IsGoing :
      (nodes : List MsgNode) (id : DhtId) (rs : List ℕ) (c c1 : Client)
      → IsGoing c
      → c1.lookup_table ≡ store_lookup (empty_lookup id rs) c.lookup_table
      → c1.next_source ≡ c.next_source
      → IsGoing (lookup_update randombytes (empty_lookup id rs) nodes c1).0
  start-IsGoing nodes id rs c c1 h e next =
      let l = empty_lookup id rs in
      lookup_update-IsGoing randombytes l nodes c1 (unfold waiting in (refl, omega arith)) (
        subst (All IsPending) (sym (ap (remove_lookup id) e ∙ remove-store_lookup l c.lookup_table))
            (remove_lookup-All IsPending id c.lookup_table h.0),
        omega (arith, next, h.1),
      )

  bootstrap-IsGoing :
      (address : SocketAddress) (c : Client)
      → IsGoing c
      → IsGoing (bootstrap randombytes address c).0
  bootstrap-IsGoing address c h =
      let nodes : List MsgNode = record { id = zero_id; addr = address_serialize address } ∷ [] in
      elim (Option-cases (find_lookup c.id c.lookup_table)) [
        | inl e ↦
            let l = empty_lookup c.id [] in
            unfold bootstrap in
            rw (bootstrap, e)
              (start-IsGoing nodes c.id [] c
                (record c { lookup_table = store_lookup l c.lookup_table }) h refl refl)
        | inr (l, e) ↦
            unfold bootstrap in
            rw (bootstrap, e)
              (lookup_update-IsGoing randombytes l nodes c
                (find_lookup-All IsPending c.id l c.lookup_table h.0 e).0 (but l.id c h))
      ]

  start_lookup-IsGoing :
      (now : ℕ) (id : DhtId) (rs : List ℕ) (c c1 : Client)
      → IsGoing c
      → c1.lookup_table ≡ store_lookup (empty_lookup id rs) c.lookup_table
      → c1.next_source ≡ c.next_source
      → IsGoing (start_lookup randombytes now (empty_lookup id rs) c1).0
  unfolding start_lookup
  start_lookup-IsGoing now id rs c c1 h e next =
      let t = search_nodes now id c1.table in
      start-IsGoing t.1 id rs c (record c1 { table = t.0 }) h e next

  lookup_async-IsGoing :
      (now : ℕ) (id : DhtId) (result : ℕ) (c : Client)
      → IsGoing c
      → IsGoing (lookup_async randombytes now id result c).0
  lookup_async-IsGoing now id result c h = elim (Bool-cases (id_equal id c.id)) [
    | inl e ↦ unfold lookup_async in rw (lookup_async, e) h
    | inr own ↦ elim (Option-cases (find_lookup id c.lookup_table)) [
      | inl e ↦
          let l = empty_lookup id (result ∷ []) in
          unfold lookup_async in
          rw (lookup_async, own, e)
            (start_lookup-IsGoing now id (result ∷ []) c
              (record c { lookup_table = store_lookup l c.lookup_table }) h refl refl)
      | inr (l, e) ↦
          let p = find_lookup-All IsPending id l c.lookup_table h.0 e in
          let l' : DhtLookup = record l { results = result ∷ l.results } in
          unfold lookup_async in
          rw (lookup_async, own, e)
            (store_lookup-All IsPending l' c.lookup_table p (but l.id c h).0, h.1)
    ]
  ]

  handle-IsGoing :
      (e : Event) (c : Client) → IsGoing c → IsDue e c → IsGoing (handle s randombytes e c).0
  unfolding handle
  handle-IsGoing (booted address) c h d = bootstrap-IsGoing address c h
  handle-IsGoing (called now id result) c h d = lookup_async-IsGoing now id result c h
  handle-IsGoing (refreshed now nbits random) c h d =
      let id = refresh_id nbits c.id random in
      unfold refresh replace_lookup in
      start_lookup-IsGoing now id [] c
        (record c { lookup_table = store_lookup (empty_lookup id []) c.lookup_table }) h refl refl
  handle-IsGoing (query_expired now id addr) c h d = query_timeout-IsGoing now id addr c h d
  handle-IsGoing (connection_expired nonce) c h d =
      Keeps-IsGoing c (connection_timeout nonce c) (connection_timeout-Keeps nonce c) h
  handle-IsGoing (received now sockaddr buffer socket) c h d =
      receive-IsGoing s randombytes now sockaddr buffer socket c h
  handle-IsGoing (listening listen) c h d = unfold set_listen in h

-- Each event of a run is due when it comes.
unfoldable pub AllDue : Sodium → (ℕ → DhtKey) → List Event → Client → Type 0
AllDue s randombytes [] c = Unit
AllDue s randombytes (e ∷ es) c = IsDue e c × AllDue s randombytes es (handle s randombytes e c).0

run-IsGoing :
    (s : Sodium) (randombytes : ℕ → DhtKey) (es : List Event) (c : Client)
    → AllDue s randombytes es c
    → IsGoing c
    → IsGoing (run s randombytes es c).0
unfolding run AllDue
run-IsGoing s randombytes [] c due h = h
run-IsGoing s randombytes (e ∷ es) c (d, due) h =
    run-IsGoing s randombytes es (handle s randombytes e c).0 due
      (handle-IsGoing s randombytes e c h d)

-- No lookup gets stuck: whatever a client has been through since `dht_client_new`, if the timer of a
-- query runs out only while the query waits, then each lookup in its table counts its waiting
-- requests, the queries with a timer, exactly, and has one to three of them.
pub run-IsPending :
    (s : Sodium) (randombytes : ℕ → DhtKey) (key : DhtKey) (es : List Event)
    → AllDue s randombytes es (new_client s key)
    → All IsPending (run s randombytes es (new_client s key)).0.lookup_table
run-IsPending s randombytes key es due =
    let fresh : IsGoing (new_client s key) = unfold new_client in (tt, omega arith) in
    (run-IsGoing s randombytes es (new_client s key) due fresh).0
