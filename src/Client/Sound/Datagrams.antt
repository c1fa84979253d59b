-- ===== src/Client/Sound/Datagrams.antt =====
-- The handlers of datagrams keep a client sound.
use nanotalk.Base.{
  ℕ, suc, ◌≤◌, ◌<◌, ◌≡◌, refl, sym, ap, ◌∙◌, subst, inl, inr, true, ◌==◌, Option, some, List,
  length, get_or, All, Bool-cases, Option-cases, if_both, if_cases, arith,
}
use nanotalk.Common.{
  Bytes, DhtId, DhtKey, DhtAddress, SocketAddress, Sodium, IsArray, IsByte, id_size, id_equal,
  id_xor, address_serialize,
}
use nanotalk.Common.Bits.{IsArray-id_xor}
use nanotalk.Bucket.{update}
use nanotalk.Search.Members.{Named}
use nanotalk.Message.{
  MsgLookup, read_lookup, read_connection1, read_connection2, read_connection3, response_count,
  response_size, msg_lookup_req, msg_lookup_res, msg_connection_req, msg_connection_res,
  lookup_size, connection1_size, connection2_size, connection3_size, msg_mtu, MsgConnection1,
  MsgConnection2, MsgConnection3,
}
use nanotalk.Message.Layout.{response_count_iff}
use nanotalk.Message.Sizes.{read_lookup-IsArray}
use nanotalk.Client.{
  Client, Effect, DhtQuery, DhtLookup, find_lookup, drop_connection, replace_connection,
}
use nanotalk.Client.Tables.{find_lookup-All}
use nanotalk.Client.Lookup.{find_query}
use nanotalk.Client.Connection.{
  accept_request, connection_request, finish_response, verify_response, connection_response,
  connection_confirm, connection_timeout,
}
use nanotalk.Client.Receive.{lookup_request, lookup_response, answer_query, receive}
use nanotalk.Client.Sound.{IsOrdered, IsCounted, IsSound, most_events}
use nanotalk.Client.Sound.Counters.{update-IsCounted, search_nodes-IsCounted, IsCounted-suc}
use nanotalk.Client.Pending.Queries.{find_query-addr}
use nanotalk.Client.Sound.Queries.{settle_query-IsSorted}
use nanotalk.Client.Sound.Dispatch.{lookup_update-Orders}

-- A handler of connections leaves the routing table and the lookups alone.
abbrev Leaves : Client → Client × List Effect → Type 0
Leaves c p = (p.0.table ≡ c.table) × (p.0.lookup_table ≡ c.lookup_table)

pub Leaves-IsSound :
    (n : ℕ) (c : Client) (p : Client × List Effect) → Leaves c p → IsSound n c → IsSound (suc n) p.0
Leaves-IsSound n c p k h = (
  subst (IsCounted (suc n)) (sym k.0) (IsCounted-suc n c.table h.0),
  subst (All IsOrdered) (sym k.1) h.1,
)

connection_confirm-Leaves :
    (sockaddr : SocketAddress) (msg : MsgConnection3) (c : Client)
    → Leaves c (connection_confirm sockaddr msg c)
unfolding connection_confirm
connection_confirm-Leaves sockaddr msg c = ground arith

pub connection_timeout-Leaves :
    (nonce : DhtKey) (c : Client) → Leaves c (connection_timeout nonce c)
unfolding connection_timeout drop_connection
connection_timeout-Leaves nonce c = ground arith

-- `update`, `search_nodes` and a reply: no lookup is touched.
lookup_request-IsSound :
    (n now : ℕ) (sockaddr : SocketAddress) (msg : MsgLookup) (c : Client)
    → n < most_events
    → IsArray id_size msg.srcid
    → IsSound n c
    → IsSound (suc n) (lookup_request now sockaddr msg c).0
unfolding lookup_request
lookup_request-IsSound n now sockaddr msg c room size h =
    let updated =
      update-IsCounted n now msg.srcid (address_serialize sockaddr) true c.table room size h.0 in
    let table = update now msg.srcid (address_serialize sockaddr) true c.table in
    if_both (λ (p : Client × List Effect). IsSound (suc n) p.0) (id_equal msg.srcid c.id) _ _
      (IsCounted-suc n c.table h.0, h.1)
      (search_nodes-IsCounted (suc n) now msg.dstid table room updated, h.1)

module _ (s : Sodium) (randombytes : ℕ → DhtKey) where
  connection_response-Leaves :
      (sockaddr : SocketAddress) (msg : MsgConnection2) (socket : Option ℕ) (c : Client)
      → Leaves c (connection_response s sockaddr msg socket c)
  unfolding connection_response verify_response finish_response
  connection_response-Leaves sockaddr msg socket c = ground arith

  connection_request-Leaves :
      (sockaddr : SocketAddress) (msg : MsgConnection1) (socket : Option ℕ) (c : Client)
      → Leaves c (connection_request s randombytes sockaddr msg socket c)
  unfolding connection_request accept_request replace_connection
  connection_request-Leaves sockaddr msg socket c = ground arith

  -- What an answer makes of its lookup.
  answer_query-IsOrdered :
      (srcid : DhtId) (addr : DhtAddress) (q : DhtQuery) (l : DhtLookup)
      → IsArray id_size srcid
      → find_query addr l.queries ≡ some q
      → IsOrdered l
      → IsOrdered (answer_query srcid q l)
  unfolding answer_query
  answer_query-IsOrdered srcid addr q l size e h = (
    h.0,
    settle_query-IsSorted (id_xor srcid l.id)
        (record q { is_finished = true; is_alive = true; timeout_source = 0 }) q l.queries
        (IsArray-id_xor id_size srcid l.id size h.0) refl
        (ap (λ a. find_query a l.queries) (find_query-addr addr q l.queries e) ∙ e) h.1,
  )

  lookup_response-IsSound :
      (n now : ℕ) (sockaddr : SocketAddress) (msg : MsgLookup) (c : Client)
      → n < most_events
      → IsArray id_size msg.srcid
      → Named (IsArray id_size) msg.nodes
      → IsSound n c
      → IsSound (suc n) (lookup_response randombytes now sockaddr msg c).0
  lookup_response-IsSound n now sockaddr msg c room size named h =
      let addr = address_serialize sockaddr in
      let c1 : Client = record c { table = update now msg.srcid addr true c.table } in
      let updated = update-IsCounted n now msg.srcid addr true c.table room size h.0 in
      elim (Bool-cases (id_equal msg.srcid c.id)) [
        | inl e ↦
            unfold lookup_response in rw (lookup_response, e) (IsCounted-suc n c.table h.0, h.1)
        | inr own ↦ elim (Option-cases (find_lookup msg.dstid c.lookup_table)) [
          | inl e ↦ unfold lookup_response in rw (lookup_response, own, e) (updated, h.1)
          | inr (l, e) ↦ elim (Option-cases (find_query addr l.queries)) [
            | inl e' ↦ unfold lookup_response in rw (lookup_response, own, e, e') (updated, h.1)
            | inr (q, e') ↦
                let one = find_lookup-All IsOrdered msg.dstid l c.lookup_table h.1 e in
                let l' = answer_query msg.srcid q l in
                let kept =
                  lookup_update-Orders randombytes l' msg.nodes c1
                    (answer_query-IsOrdered msg.srcid addr q l size e' one) named h.1 in
                unfold lookup_response in
                rw (lookup_response, own, e, e')
                  (subst (IsCounted (suc n)) (sym kept.0) updated, kept.1)
          ]
        ]
      ]

  pub receive-IsSound :
      (n now : ℕ) (sockaddr : SocketAddress) (buffer : Bytes) (socket : Option ℕ) (c : Client)
      → n < most_events
      → All IsByte buffer
      → length buffer ≤ msg_mtu
      → IsSound n c
      → IsSound (suc n) (receive randombytes s now sockaddr buffer socket c).0
  receive-IsSound n now sockaddr buffer socket c room bytes mtu h =
      let len = length buffer in
      let code = get_or buffer 0 0 in
      let count = response_count len in
      let P = λ (p : Client × List Effect). IsSound (suc n) p.0 in
      let same : IsSound (suc n) c = (IsCounted-suc n c.table h.0, h.1) in
      let request = read_lookup code 0 buffer in
      let response = read_lookup code count buffer in
      unfold receive in
      if_both P (code == msg_lookup_req) _ _
        (if_cases P (len == lookup_size) _ _
          (λ e.
            lookup_request-IsSound n now sockaddr request c room
              (read_lookup-IsArray code 0 buffer bytes (ground (arith, e))).0 h)
          (λ e. same))
        (if_both P (code == msg_lookup_res) _ _
          (if_cases P (len == response_size count) _ _
            (λ e.
              let fits = (response_count_iff len mtu).0 (ground (arith, e)) in
              let parts = read_lookup-IsArray code count buffer bytes (omega (arith, fits)) in
              lookup_response-IsSound n now sockaddr response c room parts.0 parts.2 h)
            (λ e. same))
          (if_both P (code == msg_connection_req) _ _
            (if_both P (len == connection1_size) _ _
              (Leaves-IsSound n c
                (connection_request s randombytes sockaddr (read_connection1 buffer) socket c)
                (connection_request-Leaves sockaddr (read_connection1 buffer) socket c) h)
              same)
            (if_both P (code == msg_connection_res) _ _
              (if_both P (len == connection2_size) _ _
                (Leaves-IsSound n c
                  (connection_response s sockaddr (read_connection2 buffer) socket c)
                  (connection_response-Leaves sockaddr (read_connection2 buffer) socket c) h)
                (if_both P (len == connection3_size) _ _
                  (Leaves-IsSound n c (connection_confirm sockaddr (read_connection3 buffer) c)
                    (connection_confirm-Leaves sockaddr (read_connection3 buffer) c) h)
                  same))
              same)))
