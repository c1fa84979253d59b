-- ===== src/Message.antt =====
-- The messages of src/dht-client.c as bytes: packed structures of `guint8` arrays, so each field
-- stands at a fixed place.
pub mod Layout
pub mod Sizes
use nanotalk.Base.{ℕ, zero, suc, ◌+◌, ◌-◌, ◌*◌, ◌/◌, ◌%◌, ◌^◌, List, [], ◌∷◌, ◌++◌, take, drop}
use nanotalk.Common.{Bytes, DhtId, DhtKey, key_size, id_size, address_size}
use nanotalk.Search.{MsgNode}

abbrev pub msg_lookup_req : ℕ
msg_lookup_req = 0xc0

abbrev pub msg_lookup_res : ℕ
msg_lookup_res = 0xc1

abbrev pub msg_connection_req : ℕ
msg_connection_req = 0xc2

abbrev pub msg_connection_res : ℕ
msg_connection_res = 0xc3

-- `sizeof` of `MsgNode`, `MsgLookup`, `MsgConnection1`, `MsgConnection2`, `MsgConnection3`.
abbrev pub node_size : ℕ
node_size = 26

abbrev pub lookup_size : ℕ
lookup_size = 41

abbrev pub connection1_size : ℕ
connection1_size = 65

abbrev pub connection2_size : ℕ
connection2_size = 129

abbrev pub connection3_size : ℕ
connection3_size = 65

-- `MSG_MTU`.
abbrev pub msg_mtu : ℕ
msg_mtu = 1500

-- The `n` bytes from `offset` on.
abbrev pub field : ℕ → ℕ → Bytes → Bytes
field offset n buffer = take n (drop offset buffer)

unfoldable pub node_bytes : List MsgNode → Bytes
node_bytes [] = []
node_bytes (node ∷ nodes) = node.id ++ (node.addr ++ node_bytes nodes)

unfoldable pub read_nodes : ℕ → Bytes → List MsgNode
read_nodes zero bs = []
read_nodes (suc count) bs =
    record { id = field 0 id_size bs; addr = field id_size address_size bs }
    ∷ read_nodes count (drop node_size bs)

-- `struct _msg_lookup` with its nodes.
pub record MsgLookup : Type 0 where
  pub type : ℕ
  pub srcid : DhtId
  pub dstid : DhtId
  pub nodes : List MsgNode

unfoldable pub lookup_bytes : MsgLookup → Bytes
lookup_bytes m = m.type ∷ (m.srcid ++ (m.dstid ++ node_bytes m.nodes))

-- `(MsgLookup*)buffer`, with `count` nodes.
unfoldable pub read_lookup : ℕ → ℕ → Bytes → MsgLookup
read_lookup type count buffer = record {
  type = type;
  srcid = field 1 id_size buffer;
  dstid = field (1 + id_size) id_size buffer;
  nodes = read_nodes count (drop lookup_size buffer);
}

-- `(len - sizeof(MsgLookup)) / sizeof(MsgNode)`: a `size_t` cut down to `guint`.
unfoldable pub response_count : ℕ → ℕ
response_count len = (len + 2 ^ 64 - lookup_size) % 2 ^ 64 / node_size % 2 ^ 32

-- `sizeof(MsgLookup) + sizeof(MsgNode) * count`, in `size_t`.
unfoldable pub response_size : ℕ → ℕ
response_size count = (lookup_size + node_size * count) % 2 ^ 64

pub record MsgConnection1 : Type 0 where
  pub pubkey : DhtKey
  pub nonce : DhtKey

unfoldable pub connection1_bytes : MsgConnection1 → Bytes
connection1_bytes m = msg_connection_req ∷ (m.pubkey ++ m.nonce)

unfoldable pub read_connection1 : Bytes → MsgConnection1
read_connection1 buffer = record {
  pubkey = field 1 key_size buffer;
  nonce = field (1 + key_size) key_size buffer;
}

pub record MsgConnection2 : Type 0 where
  pub pubkey : DhtKey
  pub nonce : DhtKey
  pub peer_nonce : DhtKey
  pub auth_tag : DhtKey

unfoldable pub connection2_bytes : MsgConnection2 → Bytes
connection2_bytes m = msg_connection_res ∷ (m.pubkey ++ (m.nonce ++ (m.peer_nonce ++ m.auth_tag)))

unfoldable pub read_connection2 : Bytes → MsgConnection2
read_connection2 buffer = record {
  pubkey = field 1 key_size buffer;
  nonce = field (1 + key_size) key_size buffer;
  peer_nonce = field (1 + 2 * key_size) key_size buffer;
  auth_tag = field (1 + 3 * key_size) key_size buffer;
}

pub record MsgConnection3 : Type 0 where
  pub peer_nonce : DhtKey
  pub auth_tag : DhtKey

unfoldable pub connection3_bytes : MsgConnection3 → Bytes
connection3_bytes m = msg_connection_res ∷ (m.peer_nonce ++ m.auth_tag)

unfoldable pub read_connection3 : Bytes → MsgConnection3
read_connection3 buffer = record {
  peer_nonce = field 1 key_size buffer;
  auth_tag = field (1 + key_size) key_size buffer;
}
