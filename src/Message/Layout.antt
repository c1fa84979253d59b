-- ===== src/Message/Layout.antt =====
-- The messages as they are written and read, and the length test of a lookup response.
use nanotalk.Base.{
  ℕ, zero, suc, ◌+◌, ◌*◌, ◌≤◌, ◌≡◌, refl, ap, List, [], ◌∷◌, ◌++◌, length, take, drop, All,
  take-append_left, take_all, length-append, arith,
}
use nanotalk.Common.{Bytes, DhtKey, key_size, id_size, address_size}
use nanotalk.Search.{MsgNode}
use nanotalk.Message.{
  MsgLookup, MsgConnection1, MsgConnection2, MsgConnection3, node_size, lookup_size, msg_mtu,
  node_bytes, read_nodes, lookup_bytes, read_lookup, response_count, response_size,
  connection1_bytes, read_connection1, connection2_bytes, read_connection2, connection3_bytes,
  read_connection3,
}

-- For a length within the MTU, the length test of a lookup response accepts exactly the datagrams in
-- which whole nodes follow the header, and then it counts the nodes. So it refuses a datagram shorter
-- than the header, though the difference of the lengths wraps round.
pub response_count_iff :
    (len : ℕ)
    → len ≤ msg_mtu
    → (len ≡ response_size (response_count len)
        → len ≡ lookup_size + node_size * response_count len)
      × ((k : ℕ)
          → len ≡ lookup_size + node_size * k
          → (response_count len ≡ k) × (len ≡ response_size (response_count len)))
unfolding response_count response_size
response_count_iff len h = (λ e. omega arith, λ k e. (omega arith, omega arith))

abbrev pub IsNode : MsgNode → Type 0
IsNode node = (length node.id ≡ id_size) × (length node.addr ≡ address_size)

-- A field right at the offset, and the bytes behind a field.
field_here : (xs ys : Bytes) (n : ℕ) → length xs ≡ n → take n (xs ++ ys) ≡ xs
field_here xs ys n e = take-append_left n xs ys e

drop_past : (xs ys : Bytes) (n k : ℕ) → length xs ≡ n → drop (n + k) (xs ++ ys) ≡ drop k ys
drop_past [] ys zero k e = ap (λ i. drop i ys) (let z : 0 + k ≡ k = omega arith in z)
drop_past [] ys (suc n) k e = absurd (omega arith)
drop_past (x ∷ xs) ys zero k e = absurd (omega arith)
drop_past (x ∷ xs) ys (suc n) k e =
    let z : suc n + k ≡ suc (n + k) = omega arith in rw z (drop_past xs ys n k (omega arith))

read-node_bytes :
    (nodes : List MsgNode) → All IsNode nodes → read_nodes (length nodes) (node_bytes nodes) ≡ nodes
unfolding read_nodes node_bytes
read-node_bytes [] h = refl
read-node_bytes (node ∷ nodes) h = rw (
  field_here node.id (node.addr ++ node_bytes nodes) 20 h.0.0,
  drop_past node.id (node.addr ++ node_bytes nodes) 20 0 h.0.0,
  drop_past node.id (node.addr ++ node_bytes nodes) 20 6 h.0.0,
  field_here node.addr (node_bytes nodes) 6 h.0.1,
  drop_past node.addr (node_bytes nodes) 6 0 h.0.1,
  read-node_bytes nodes h.1,
)

pub length-node_bytes :
    (nodes : List MsgNode) → All IsNode nodes → length (node_bytes nodes) ≡ node_size * length nodes
unfolding node_bytes
length-node_bytes [] h = refl
length-node_bytes (node ∷ nodes) h = omega (
  arith,
  length-append node.id (node.addr ++ node_bytes nodes),
  length-append node.addr (node_bytes nodes),
  length-node_bytes nodes h.1,
  h.0,
)

-- A lookup message is read back as it was written, and its datagram has the size of the header and
-- of its nodes, if its identifiers and addresses have their sizes.
pub read_lookup-bytes :
    (m : MsgLookup)
    → length m.srcid ≡ id_size
    → length m.dstid ≡ id_size
    → All IsNode m.nodes
    → (read_lookup m.type (length m.nodes) (lookup_bytes m) ≡ m)
      × (length (lookup_bytes m) ≡ lookup_size + node_size * length m.nodes)
unfolding read_lookup lookup_bytes
read_lookup-bytes m hs hd hn = (
  rw (
    field_here m.srcid (m.dstid ++ node_bytes m.nodes) 20 hs,
    drop_past m.srcid (m.dstid ++ node_bytes m.nodes) 20 0 hs,
    drop_past m.srcid (m.dstid ++ node_bytes m.nodes) 20 20 hs,
    field_here m.dstid (node_bytes m.nodes) 20 hd,
    drop_past m.dstid (node_bytes m.nodes) 20 0 hd,
    read-node_bytes m.nodes hn,
  ),
  omega (
    arith,
    hs,
    hd,
    length-append m.srcid (m.dstid ++ node_bytes m.nodes),
    length-append m.dstid (node_bytes m.nodes),
    length-node_bytes m.nodes hn,
  ),
)

abbrev IsKey : DhtKey → Type 0
IsKey k = length k ≡ key_size

pub read_connection1-bytes :
    (m : MsgConnection1)
    → IsKey m.pubkey
    → IsKey m.nonce
    → read_connection1 (connection1_bytes m) ≡ m
unfolding read_connection1 connection1_bytes
read_connection1-bytes m hp hn = rw (
  field_here m.pubkey m.nonce 32 hp,
  drop_past m.pubkey m.nonce 32 0 hp,
  take_all 32 m.nonce (omega (arith, hn)),
)

-- The answer of a handshake is read back as it was written, if its four keys have 32 bytes.
pub read_connection2-bytes :
    (m : MsgConnection2)
    → IsKey m.pubkey
    → IsKey m.nonce
    → IsKey m.peer_nonce
    → IsKey m.auth_tag
    → read_connection2 (connection2_bytes m) ≡ m
unfolding read_connection2 connection2_bytes
read_connection2-bytes m hp hn hq ht = rw (
  field_here m.pubkey rest1 32 hp,
  drop_past m.pubkey rest1 32 0 hp,
  drop_past m.pubkey rest1 32 32 hp,
  drop_past m.pubkey rest1 32 64 hp,
  field_here m.nonce rest2 32 hn,
  drop_past m.nonce rest2 32 0 hn,
  drop_past m.nonce rest2 32 32 hn,
  field_here m.peer_nonce m.auth_tag 32 hq,
  drop_past m.peer_nonce m.auth_tag 32 0 hq,
  take_all 32 m.auth_tag (omega (arith, ht)),
)
  where
    rest2 : Bytes
    rest2 = m.peer_nonce ++ m.auth_tag

    rest1 : Bytes
    rest1 = m.nonce ++ rest2

pub read_connection3-bytes :
    (m : MsgConnection3)
    → IsKey m.peer_nonce
    → IsKey m.auth_tag
    → read_connection3 (connection3_bytes m) ≡ m
unfolding read_connection3 connection3_bytes
read_connection3-bytes m hq ht = rw (
  field_here m.peer_nonce m.auth_tag 32 hq,
  drop_past m.peer_nonce m.auth_tag 32 0 hq,
  take_all 32 m.auth_tag (omega (arith, ht)),
)
