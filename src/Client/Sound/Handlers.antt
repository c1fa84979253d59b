-- ===== src/Client/Sound/Handlers.antt =====
-- Each event keeps a client sound.
use nanotalk.Base.{
  ℕ, suc, ◌-◌, ◌*◌, ◌^◌, ◌≤◌, ◌<◌, refl, sym, subst, inl, inr, List, [], ◌∷◌, length, All, bit_and,
  leb, ltb, Bool-cases, Option-cases, if_both, arith, false, true,
}
use nanotalk.Base.Bits.{bit_or_lt, bit_and_lt}
use nanotalk.Common.{
  Bytes, DhtId, DhtKey, DhtAddress, SocketAddress, Sodium, IsArray, IsByte, id_size, id_equal,
  id_xor, address_serialize,
}
use nanotalk.Common.Bits.{IsArray-replicate, IsArray-id_xor}
use nanotalk.Bucket.{dec_uint, update}
use nanotalk.Search.{MsgNode, search_nodes}
use nanotalk.Search.Members.{Named}
use nanotalk.Message.{msg_mtu}
use nanotalk.Client.{
  DhtQuery, DhtLookup, Client, set_listen, find_lookup, store_lookup, replace_lookup,
}
use nanotalk.Client.Tables.{find_lookup-All}
use nanotalk.Client.Lookup.{
  lookup_update, start_lookup, bootstrap, lookup_async, refresh, refresh_id, query_timeout,
  empty_lookup, zero_id, find_query, modify_query,
}
use nanotalk.Client.Connection.{connection_timeout}
use nanotalk.Client.Run.{
  Event, booted, called, refreshed, query_expired, connection_expired, received, listening, handle,
}
use nanotalk.Client.Sound.{IsOrdered, IsCounted, IsSound, most_events}
use nanotalk.Client.Sound.Counters.{
  update-IsCounted, search_nodes-IsCounted, search_nodes-IsArray, IsCounted-suc,
}
use nanotalk.Client.Sound.Queries.{find_query-All, modify_query-IsSorted}
use nanotalk.Client.Sound.Dispatch.{store-Orders, lookup_dispatch-Orders, lookup_update-Orders}
use nanotalk.Client.Sound.Datagrams.{Leaves-IsSound, connection_timeout-Leaves, receive-IsSound}

-- The identifiers and the random bytes of an event are arrays of their size, and a datagram fits
-- its buffer.
abbrev pub IsInput : Event → Type 0
IsInput (called now id result) = IsArray id_size id
IsInput (refreshed now nbits random) = IsArray id_size random
IsInput (received now sockaddr buffer socket) = All IsByte buffer × (length buffer ≤ msg_mtu)
IsInput (booted address) = Unit
IsInput (query_expired now id addr) = Unit
IsInput (connection_expired nonce) = Unit
IsInput (listening listen) = Unit

refresh_id-IsArray :
    (n nbits : ℕ) (own random : Bytes)
    → IsArray n own
    → IsArray n random
    → IsArray n (refresh_id nbits own random)
unfolding refresh_id
refresh_id-IsArray n nbits [] random h k = h
refresh_id-IsArray n nbits (x ∷ own) [] h k = absurd (omega (arith, h.0, k.0))
refresh_id-IsArray n nbits (x ∷ own) (r ∷ random) h k =
    let rest =
      refresh_id-IsArray (length own) (nbits - 8) own random (refl, h.1.1)
        (omega (arith, h.0, k.0), k.1.1) in
    (
      omega (arith, h.0, rest.0),
      (
        if_both IsByte (leb 8 nbits) _ _ h.1.0 (
            if_both IsByte (ltb 0 nbits) _ _
              (bit_or_lt 8 (bit_and x (0xff * 2 ^ (8 - nbits))) r
                (bit_and_lt 8 x (0xff * 2 ^ (8 - nbits)) h.1.0) k.1.0)
              k.1.0),
        rest.1,
      ),
    )

empty_lookup-IsOrdered :
    (id : DhtId) (results : List ℕ) → IsArray id_size id → IsOrdered (empty_lookup id results)
empty_lookup-IsOrdered id results size = (size, (tt, tt))

zero_id-IsArray : IsArray id_size zero_id
zero_id-IsArray = IsArray-replicate id_size 0 (omega arith)

query_timeout-IsSound :
    (n now : ℕ) (id : DhtId) (addr : DhtAddress) (c : Client)
    → n < most_events
    → IsSound n c
    → IsSound (suc n) (query_timeout now id addr c).0
query_timeout-IsSound n now id addr c room h =
    let same : IsSound (suc n) c = (IsCounted-suc n c.table h.0, h.1) in
    elim (Option-cases (find_lookup id c.lookup_table)) [
      | inl e ↦ unfold query_timeout in rw (query_timeout, e) same
      | inr (l, e) ↦ elim (Option-cases (find_query addr l.queries)) [
        | inl e' ↦ unfold query_timeout in rw (query_timeout, e, e') same
        | inr (q, e') ↦
            let one = find_lookup-All IsOrdered id l c.lookup_table h.1 e in
            let metric = find_query-All (λ k. IsArray id_size k.0) addr q l.queries one.1.0 e' in
            let table = update now (id_xor q.metric l.id) q.addr false c.table in
            let done = λ (r : DhtQuery). record r { is_finished = true; timeout_source = 0 } in
            let l' : DhtLookup = record l {
              queries = modify_query done addr l.queries;
              num_sources = dec_uint l.num_sources;
            } in
            let updated =
              update-IsCounted n now (id_xor q.metric l.id) q.addr false c.table room
                (IsArray-id_xor id_size q.metric l.id metric one.0) h.0 in
            let kept =
              lookup_dispatch-Orders l' (record c { table = table })
                (one.0, modify_query-IsSorted done addr l.queries (λ r. refl) one.1) h.1 in
            unfold query_timeout in
            rw (query_timeout, e, e') (subst (IsCounted (suc n)) (sym kept.0) updated, kept.1)
      ]
    ]

module _ (s : Sodium) (randombytes : ℕ → DhtKey) where
  lookup_update-IsSound :
      (n : ℕ) (l : DhtLookup) (nodes : List MsgNode) (c : Client)
      → IsOrdered l
      → Named (IsArray id_size) nodes
      → IsSound n c
      → IsSound n (lookup_update randombytes l nodes c).0
  lookup_update-IsSound n l nodes c one named h =
      let kept = lookup_update-Orders randombytes l nodes c one named h.1 in
      (subst (IsCounted n) (sym kept.0) h.0, kept.1)

  start_lookup-IsSound :
      (n now : ℕ) (l : DhtLookup) (c : Client)
      → n ≤ most_events
      → IsOrdered l
      → IsSound n c
      → IsSound n (start_lookup randombytes now l c).0
  unfolding start_lookup
  start_lookup-IsSound n now l c room one h =
      let t = search_nodes now l.id c.table in
      lookup_update-IsSound n l t.1 (record c { table = t.0 }) one
        (search_nodes-IsArray now l.id c.table h.0.table)
        (search_nodes-IsCounted n now l.id c.table room h.0, h.1)

  bootstrap-IsSound :
      (n : ℕ) (address : SocketAddress) (c : Client)
      → IsSound n c
      → IsSound n (bootstrap randombytes address c).0
  bootstrap-IsSound n address c h =
      let node : MsgNode = record { id = zero_id; addr = address_serialize address } in
      let named : Named (IsArray id_size) (node ∷ []) = (zero_id-IsArray, tt) in
      elim (Option-cases (find_lookup c.id c.lookup_table)) [
        | inl e ↦
            let l = empty_lookup c.id [] in
            let fresh = empty_lookup-IsOrdered c.id [] h.0.table.own in
            unfold bootstrap in
            rw (bootstrap, e)
              (lookup_update-IsSound n l (node ∷ [])
                (record c { lookup_table = store_lookup l c.lookup_table }) fresh named
                (h.0, store-Orders l c.lookup_table fresh h.1))
        | inr (l, e) ↦
            unfold bootstrap in
            rw (bootstrap, e)
              (lookup_update-IsSound n l (node ∷ []) c
                (find_lookup-All IsOrdered c.id l c.lookup_table h.1 e) named h)
      ]

  lookup_async-IsSound :
      (n now : ℕ) (id : DhtId) (result : ℕ) (c : Client)
      → n ≤ most_events
      → IsArray id_size id
      → IsSound n c
      → IsSound n (lookup_async randombytes now id result c).0
  lookup_async-IsSound n now id result c room size h = elim (Bool-cases (id_equal id c.id)) [
    | inl e ↦ unfold lookup_async in rw (lookup_async, e) h
    | inr own ↦ elim (Option-cases (find_lookup id c.lookup_table)) [
      | inl e ↦
          let l = empty_lookup id (result ∷ []) in
          let fresh = empty_lookup-IsOrdered id (result ∷ []) size in
          unfold lookup_async in
          rw (lookup_async, own, e)
            (start_lookup-IsSound n now l
              (record c { lookup_table = store_lookup l c.lookup_table }) room fresh
              (h.0, store-Orders l c.lookup_table fresh h.1))
      | inr (l, e) ↦
          let one = find_lookup-All IsOrdered id l c.lookup_table h.1 e in
          let l' : DhtLookup = record l { results = result ∷ l.results } in
          unfold lookup_async in
          rw (lookup_async, own, e) (h.0, store-Orders l' c.lookup_table one h.1)
    ]
  ]

  refresh-IsSound :
      (n now nbits : ℕ) (random : Bytes) (c : Client)
      → n ≤ most_events
      → IsArray id_size random
      → IsSound n c
      → IsSound n (refresh randombytes now nbits random c).0
  unfolding refresh replace_lookup
  refresh-IsSound n now nbits random c room size h =
      let id = refresh_id nbits c.id random in
      let l = empty_lookup id [] in
      let fresh =
        empty_lookup-IsOrdered id []
          (refresh_id-IsArray id_size nbits c.id random h.0.table.own size) in
      start_lookup-IsSound n now l (record c { lookup_table = store_lookup l c.lookup_table }) room
        fresh (h.0, store-Orders l c.lookup_table fresh h.1)

  pub handle-IsSound :
      (n : ℕ) (e : Event) (c : Client)
      → n < most_events
      → IsInput e
      → IsSound n c
      → IsSound (suc n) (handle s randombytes e c).0
  unfolding handle
  handle-IsSound n (booted address) c room i h =
      let after = bootstrap-IsSound n address c h in
      (IsCounted-suc n (bootstrap randombytes address c).0.table after.0, after.1)
  handle-IsSound n (called now id result) c room i h =
      let after = lookup_async-IsSound n now id result c (omega (arith, room)) i h in
      (IsCounted-suc n (lookup_async randombytes now id result c).0.table after.0, after.1)
  handle-IsSound n (refreshed now nbits random) c room i h =
      let after = refresh-IsSound n now nbits random c (omega (arith, room)) i h in
      (IsCounted-suc n (refresh randombytes now nbits random c).0.table after.0, after.1)
  handle-IsSound n (query_expired now id addr) c room i h =
      query_timeout-IsSound n now id addr c room h
  handle-IsSound n (connection_expired nonce) c room i h =
      Leaves-IsSound n c (connection_timeout nonce c) (connection_timeout-Leaves nonce c) h
  handle-IsSound n (received now sockaddr buffer socket) c room i h =
      receive-IsSound s randombytes n now sockaddr buffer socket c room i.0 i.1 h
  handle-IsSound n (listening listen) c room i h =
      unfold set_listen in (IsCounted-suc n c.table h.0, h.1)
