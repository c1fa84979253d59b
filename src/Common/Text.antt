-- ===== src/Common/Text.antt =====
-- The text of an identifier: `dht_id_from_string` and `dht_id_to_string` of src/dht-common.c. A text is
-- the list of its bytes; GLib's base64 is a parameter.
use nanotalk.Base.{
  ℕ, ◌-◌, ◌≡◌, false, not, ◌||◌, Option, none, some, ◌==◌, if◌then◌else◌, length, get_or, All,
}
use nanotalk.Common.{Bytes, DhtId, id_size}

-- `g_base64_encode`, and `g_base64_decode_step` from its initial state.
pub record Base64 : Type 0 where
  pub encode : Bytes → Bytes
  pub decode : Bytes → Bytes

-- What GLib documents of them, for identifiers: 20 bytes are 28 characters, of which the last is a `=`
-- and none ends a line, and decoding gives them back.
pub record IsBase64 (b : Base64) : Type 0 where
  pub encode_length : (id : DhtId) → length id ≡ id_size → length (b.encode id) ≡ 28
  pub encode_padding : (id : DhtId) → length id ≡ id_size → get_or (b.encode id) 27 0 ≡ 61
  pub encode_line : (id : DhtId) → length id ≡ id_size → All (λ c. (c == 10) ≡ false) (b.encode id)
  pub decode_encode : (id : DhtId) → length id ≡ id_size → b.decode (b.encode id) ≡ id

-- `((4 * DHT_ID_SIZE / 3) + 3) & ~3`.
abbrev pub id_text_size : ℕ
id_text_size = 28

module _ (b : Base64) where
  -- `dht_id_from_string`.
  unfoldable pub id_from_string : Bytes → Option DhtId
  id_from_string str =
      let len = length str in
      if not (len == id_text_size) || not (get_or str (len - 1) 0 == 61)
      then none
      else let id = b.decode str in if length id == id_size then some id else none

  -- `dht_id_to_string`.
  unfoldable pub id_to_string : DhtId → Bytes
  id_to_string id = b.encode id

  -- With base64 as GLib documents it, an identifier of 20 bytes is read back from its text.
  pub id_from_string-id_to_string :
      IsBase64 b → (id : DhtId) → length id ≡ id_size → id_from_string (id_to_string id) ≡ some id
  unfolding id_from_string id_to_string
  id_from_string-id_to_string h id e =
      rw (h.encode_length id e, h.encode_padding id e, h.decode_encode id e, e)
