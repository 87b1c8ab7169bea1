-- ===== src/Kv/Codec.antt =====
-- What protobuf makes of a message is a parameter; the size in front of its bytes is the program's
-- (kv/net/messaging/include/message.hpp).
use cs.Prelude.{◌<◌, ◌^◌, ◌≡◌, length}
use cs.Prelude.Eq.{Bytes}
use cs.Prelude.BigEndian.{from_bytes}
use cs.Kv.Header.{header_length, new_message, set_body_size, decode_header, decode-set_body_size}

-- `SerializeToOstream`, `SerializeToArray` and `ParseFromArray`: what was serialized parses to the same message.
pub record Codec (M : Type 0) : Type 0 where
  pub serialize : M → Bytes
  pub parse : Bytes → M
  pub parse-serialize : (m : M) → parse (serialize m) ≡ m

module _ {M : Type 0} ⦃codec : Codec M⦄ where
  -- `ByteSizeLong` is a `size_t`.
  abbrev pub Fits : M → Type 0
  Fits m = length (codec.serialize m) < 2 ^ 64

  -- `set_body_size` for the message, in a `Message` of its own.
  unfoldable pub header_of : M → Bytes
  unfolding set_body_size
  header_of m = (set_body_size (length (codec.serialize m)) new_message).header

  pub length-header_of : (m : M) → Fits m → length (header_of m) ≡ header_length
  unfolding header_of
  length-header_of m fits =
      (decode-set_body_size (length (codec.serialize m)) new_message new_message fits).0

  pub size-header_of : (m : M) → Fits m → from_bytes 0 (header_of m) ≡ length (codec.serialize m)
  unfolding header_of decode_header
  size-header_of m fits =
      (decode-set_body_size (length (codec.serialize m)) new_message new_message fits).1
