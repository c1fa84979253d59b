-- ===== src/Message/Sizes.antt =====
-- The identifiers in a datagram are arrays of their size.
use nanotalk.Base.{
  ℕ, zero, suc, ◌+◌, ◌*◌, ◌≤◌, drop, length, All, All-take, All-drop, length-take, length-drop,
  arith,
}
use nanotalk.Common.{Bytes, IsByte, IsArray, id_size}
use nanotalk.Search.Members.{Named}
use nanotalk.Message.{field, node_size, lookup_size, read_nodes, read_lookup}

pub field-IsArray :
    (offset n : ℕ) (buffer : Bytes)
    → All IsByte buffer
    → offset + n ≤ length buffer
    → IsArray n (field offset n buffer)
field-IsArray offset n buffer h room = (
  omega (arith, length-take n (drop offset buffer), length-drop offset buffer, room),
  All-take IsByte n (drop offset buffer) (All-drop IsByte offset buffer h),
)

read_nodes-Named :
    (count : ℕ) (bs : Bytes)
    → All IsByte bs
    → node_size * count ≤ length bs
    → Named (IsArray id_size) (read_nodes count bs)
unfolding read_nodes
read_nodes-Named zero bs h room = tt
read_nodes-Named (suc count) bs h room = (
  field-IsArray 0 id_size bs h (omega (arith, room)),
  read_nodes-Named count (drop node_size bs) (All-drop IsByte node_size bs h)
      (omega (arith, length-drop node_size bs, room)),
)

-- A datagram that is long enough for its nodes.
pub read_lookup-IsArray :
    (type count : ℕ) (buffer : Bytes)
    → All IsByte buffer
    → lookup_size + node_size * count ≤ length buffer
    → let m = read_lookup type count buffer in
      IsArray id_size m.srcid × IsArray id_size m.dstid × Named (IsArray id_size) m.nodes
unfolding read_lookup
read_lookup-IsArray type count buffer h room = (
  field-IsArray 1 id_size buffer h (omega (arith, room)),
  field-IsArray 21 id_size buffer h (omega (arith, room)),
  read_nodes-Named count (drop lookup_size buffer) (All-drop IsByte lookup_size buffer h)
      (omega (arith, length-drop lookup_size buffer, room)),
)
