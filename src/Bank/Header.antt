-- ===== src/Bank/Header.antt =====
-- bank/include/message.hpp, bank/src/message.cpp and bank/src/common.cpp: the size in front of a
-- message.
use cs.Prelude.{ℕ, ◌<◌, ◌^◌, ◌≡◌, List, length, arith}
use cs.Prelude.BigEndian.{to_bytes, from_bytes, length-to_bytes, from_bytes-to_bytes}

abbrev pub header_length : ℕ
header_length = 8

-- `BranchNetMsg` without its message, which nothing reads.
pub record BranchNetMsg : Type 0 where
  pub body_size : ℕ
  pub header : List ℕ

unfoldable pub encode_header : BranchNetMsg → BranchNetMsg
encode_header m = record m { header = to_bytes header_length m.body_size }

unfoldable pub decode_header : BranchNetMsg → BranchNetMsg
decode_header m = record m { body_size = from_bytes 0 m.header }

-- A 64-bit size comes back from the header that it was encoded into, in any message that holds
-- the header.
pub decode_header-encode_header :
    (m received : BranchNetMsg)
    → m.body_size < 2 ^ 64
    → (length (encode_header m).header ≡ header_length)
      × ((decode_header (record received { header = (encode_header m).header })).body_size
          ≡ m.body_size)
unfolding encode_header decode_header
decode_header-encode_header m received small = (
  length-to_bytes header_length m.body_size,
  from_bytes-to_bytes header_length m.body_size (omega arith),
)
