-- ===== src/Kv/Log.antt =====
-- kv/server/include/log.hpp: a file of records, each behind its size. What protobuf makes of a
-- record is a parameter.
pub mod Replay
use cs.Prelude.{
  ℕ, zero, suc, ◌<◌, ◌^◌, ◌≡◌, List, [], ◌∷◌, ◌++◌, length, take, drop, replicate, ltb,
  if◌then◌else◌,
}
use cs.Prelude.Eq.{Bytes}
use cs.Kv.Header.{header_length, decode_header}
use cs.Kv.Codec.{Codec, header_of}

-- The buffer after a read of `size` bytes, of which `body` has those that there are: it is
-- allocated anew, with zeros, only where it is too small.
unfoldable pub fill : Bytes → ℕ → Bytes → Bytes
fill buffer size body =
    take size body
    ++ drop (length (take size body))
        (if ltb (length buffer) size then replicate size 0 else buffer)

module _ {M : Type 0} ⦃codec : Codec M⦄ where
  -- The record that `write_update` appends.
  unfoldable pub frame : M → Bytes
  unfolding header_of
  frame m = header_of m ++ codec.serialize m

  unfoldable pub write_update : Bytes → M → Bytes
  unfolding frame
  write_update file m = file ++ frame m

  -- The loop of `replay_log` on what is left of the file: the messages that the handler is given.
  -- A round is made while the stream is good, and ends the loop where the header's read meets the
  -- end of the file.
  unfoldable pub replay_loop : ℕ → Bytes → Bytes → List M
  unfolding decode_header fill
  replay_loop zero rest buffer = []
  replay_loop (suc fuel) rest buffer =
      let size = (decode_header (record { size = 0; header = take header_length rest })).size in
      let body = drop header_length rest in
      let filled = fill buffer size body in
      let later = replay_loop fuel (drop size body) filled in
      if ltb (length rest) header_length
      then []
      else codec.parse (take size filled) ∷ (if ltb (length body) size then [] else later)

  unfoldable pub replay_log : Bytes → List M
  unfolding replay_loop
  replay_log file = replay_loop (suc (length file)) file (replicate 32 0)
