-- ===== src/Tests/Wire.antt =====
-- Messages and addresses at concrete inputs.
use nanotalk.Base.{ℕ, ◌+◌, ◌*◌, ◌≡◌, refl, [], ◌∷◌, length, replicate, arith}
use nanotalk.Common.{SocketAddress, address_serialize, address_deserialize}
use nanotalk.Common.Address.{address_deserialize-serialize}
use nanotalk.Message.{
  MsgLookup, MsgConnection2, lookup_size, node_size, lookup_bytes, read_lookup, response_count,
  response_size, connection2_bytes, read_connection2,
}
use nanotalk.Message.Layout.{response_count_iff, read_lookup-bytes, read_connection2-bytes}

abbrev local : SocketAddress
local = record { ip = 127 ∷ 0 ∷ 0 ∷ 1 ∷ []; port = 5004 }

address_deserialize-serialize_example : address_deserialize (address_serialize local) ≡ local
address_deserialize-serialize_example = address_deserialize-serialize local (omega arith)

abbrev message : MsgLookup
message = record {
  type = 0xc1;
  srcid = replicate 20 1;
  dstid = replicate 20 2;
  nodes = record { id = replicate 20 3; addr = replicate 6 4 } ∷ [];
}

read_lookup-bytes_example :
    (read_lookup 0xc1 1 (lookup_bytes message) ≡ message) × (length (lookup_bytes message) ≡ 67)
read_lookup-bytes_example = read_lookup-bytes message refl refl ((refl, refl), tt)

response_count_iff_example :
    (67 ≡ response_size (response_count 67) → 67 ≡ lookup_size + node_size * response_count 67)
    × ((k : ℕ)
        → 67 ≡ lookup_size + node_size * k
        → (response_count 67 ≡ k) × (67 ≡ response_size (response_count 67)))
response_count_iff_example = response_count_iff 67 (omega arith)

abbrev response : MsgConnection2
response = record {
  pubkey = replicate 32 1;
  nonce = replicate 32 2;
  peer_nonce = replicate 32 3;
  auth_tag = replicate 32 4;
}

read_connection2-bytes_example : read_connection2 (connection2_bytes response) ≡ response
read_connection2-bytes_example = read_connection2-bytes response refl refl refl refl
