-- ===== src/Client/Pending/Handlers.antt =====
-- The handlers leave a client with pending lookups.
use nanotalk.Base.{ℕ, ◌≤◌, ◌≡◌, sym, subst, Option, List, All, arith}
use nanotalk.Common.{DhtKey, SocketAddress, Sodium}
use nanotalk.Message.{MsgLookup, MsgConnection1, MsgConnection2, MsgConnection3}
use nanotalk.Client.{Client, Effect, drop_connection, replace_connection}
use nanotalk.Client.Connection.{
  accept_request, connection_request, finish_response, verify_response, connection_response,
  connection_confirm, connection_timeout,
}
use nanotalk.Client.Receive.{lookup_request}
use nanotalk.Client.Pending.{IsPending, IsGoing}

-- A handler of connections leaves the lookups alone.
abbrev pub Keeps : Client → Client × List Effect → Type 0
Keeps c p = (p.0.lookup_table ≡ c.lookup_table) × (c.next_source ≤ p.0.next_source)

pub Keeps-IsGoing : (c : Client) (p : Client × List Effect) → Keeps c p → IsGoing c → IsGoing p.0
Keeps-IsGoing c p k h = (subst (All IsPending) (sym k.0) h.0, omega (arith, k.1, h.1))

pub connection_confirm-Keeps :
    (sockaddr : SocketAddress) (msg : MsgConnection3) (c : Client)
    → Keeps c (connection_confirm sockaddr msg c)
unfolding connection_confirm
connection_confirm-Keeps sockaddr msg c = ground arith

pub connection_timeout-Keeps : (nonce : DhtKey) (c : Client) → Keeps c (connection_timeout nonce c)
unfolding connection_timeout drop_connection
connection_timeout-Keeps nonce c = ground arith

pub lookup_request-Keeps :
    (now : ℕ) (sockaddr : SocketAddress) (msg : MsgLookup) (c : Client)
    → Keeps c (lookup_request now sockaddr msg c)
unfolding lookup_request
lookup_request-Keeps now sockaddr msg c = ground arith

module _ (s : Sodium) where
  pub connection_response-Keeps :
      (sockaddr : SocketAddress) (msg : MsgConnection2) (socket : Option ℕ) (c : Client)
      → Keeps c (connection_response s sockaddr msg socket c)
  unfolding connection_response verify_response finish_response
  connection_response-Keeps sockaddr msg socket c = ground arith

  pub connection_request-Keeps :
      (randombytes : ℕ → DhtKey) (sockaddr : SocketAddress) (msg : MsgConnection1)
      (socket : Option ℕ) (c : Client)
      → Keeps c (connection_request s randombytes sockaddr msg socket c)
  unfolding connection_request accept_request replace_connection
  connection_request-Keeps randombytes sockaddr msg socket c = ground arith
