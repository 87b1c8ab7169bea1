-- ===== src/Kv/Header.antt =====
-- kv/net/messaging/include/message.hpp: the size in front of a message.
use cs.Prelude.{ℕ, ◌<◌, ◌^◌, ◌≡◌, List, replicate, length, arith}
use cs.Prelude.BigEndian.{to_bytes, from_bytes, length-to_bytes, from_bytes-to_bytes}

abbrev pub header_length : ℕ
header_length = 8

-- The fields of `Message`.
pub record Message : Type 0 where
  pub size : ℕ
  pub header : List ℕ

abbrev pub new_message : Message
new_message = record { size = 0; header = replicate header_length 0 }

unfoldable pub encode_header : Message → Message
encode_header m = record m { header = to_bytes header_length m.size }

unfoldable pub decode_header : Message → Message
decode_header m = record m { size = from_bytes 0 m.header }

unfoldable pub set_body_size : ℕ → Message → Message
unfolding encode_header
set_body_size new_size m = encode_header (record m { size = new_size })

-- A 64-bit size comes back from the eight bytes of the header that it was written into, whatever
-- the receiving message held before.
pub decode-set_body_size :
    (size : ℕ) (m received : Message)
    → size < 2 ^ 64
    → (length (set_body_size size m).header ≡ header_length)
      × ((decode_header (record received { header = (set_body_size size m).header })).size ≡ size)
unfolding set_body_size decode_header
decode-set_body_size size m received small =
    (length-to_bytes header_length size, from_bytes-to_bytes header_length size (omega arith))
