-- ===== src/Kv/Log/Replay.antt =====
-- What a replay makes of a log that was written record by record (kv/server/include/log.hpp).
use cs.Prelude.{
  ℕ, suc, ◌+◌, ◌-◌, ◌≤◌, ◌<◌, ◌≡◌, sym, ap, subst, ◌∙◌, List, [], ◌∷◌, ◌++◌, length, take, drop,
  replicate, ltb, if◌then◌else◌, All, arith, append_assoc, append-nil, length-append, take-append,
  drop-append, false,
}
use cs.Prelude.Eq.{Bytes}
use cs.Prelude.BigEndian.{from_bytes}
use cs.Kv.Header.{header_length}
use cs.Kv.Codec.{Codec, Fits, header_of, length-header_of, size-header_of}
use cs.Kv.Log.{fill, frame, write_update, replay_loop, replay_log}

take-fill :
    (buffer bytes rest : Bytes)
    → take (length bytes) (fill buffer (length bytes) (bytes ++ rest)) ≡ bytes
unfolding fill
take-fill buffer bytes rest = rw (take-append bytes rest) (take-append bytes _)

module _ {M : Type 0} ⦃codec : Codec M⦄ where
  -- The log after these records.
  unfoldable pub written : Bytes → List M → Bytes
  written file [] = file
  written file (m ∷ ms) = written (write_update file m) ms

  frames : List M → Bytes
  frames [] = []
  frames (m ∷ ms) = frame m ++ frames ms

  written-eq-frames : (file : Bytes) (ms : List M) → written file ms ≡ file ++ frames ms
  unfolding written frames write_update
  written-eq-frames file [] = sym (append-nil file)
  written-eq-frames file (m ∷ ms) =
      written-eq-frames (write_update file m) ms ∙ append_assoc file (frame m) (frames ms)

  -- A round on what begins with a header.
  replay_header :
      (fuel : ℕ) (header body buffer : Bytes)
      → length header ≡ header_length
      → replay_loop (suc fuel) (header ++ body) buffer
        ≡ codec.parse (take (from_bytes 0 header) (fill buffer (from_bytes 0 header) body))
          ∷ (if ltb (length body) (from_bytes 0 header)
              then []
              else replay_loop fuel
                  (drop (from_bytes 0 header) body)
                  (fill buffer (from_bytes 0 header) body))
  unfolding replay_loop
  replay_header fuel header body buffer eight =
      let front : take header_length (header ++ body) ≡ header =
        subst (λ n. take n (header ++ body) ≡ header) eight (take-append header body) in
      let back : drop header_length (header ++ body) ≡ body =
        subst (λ n. drop n (header ++ body) ≡ body) eight (drop-append header body) in
      let long : ltb (length (header ++ body)) header_length ≡ false =
        ground (arith, length-append header body, eight) in
      rw (replay_loop, front, back, long)

  -- A round on a whole record.
  replay_frame :
      (fuel : ℕ) (m : M) (rest buffer : Bytes)
      → Fits m
      → (buffer' : Bytes) × (replay_loop (suc fuel) (frame m ++ rest) buffer
          ≡ m ∷ replay_loop fuel rest buffer')
  unfolding frame
  replay_frame fuel m rest buffer fits =
      let body = codec.serialize m ++ rest in
      let size = size-header_of m fits in
      let whole : ltb (length body) (length (codec.serialize m)) ≡ false =
        ground (arith, length-append (codec.serialize m) rest) in
      (
        fill buffer (length (codec.serialize m)) body,
        unfold header_of in
            ap (λ file. replay_loop (suc fuel) file buffer)
              (append_assoc (header_of m) (codec.serialize m) rest)
            ∙ replay_header fuel (header_of m) body buffer (length-header_of m fits)
            ∙ rw (
              size,
              whole,
              take-fill buffer (codec.serialize m) rest,
              drop-append (codec.serialize m) rest,
              codec.parse-serialize m,
            ),
      )

  replay_frames :
      (ms : List M) (fuel : ℕ) (tail buffer : Bytes)
      → All Fits ms
      → (buffer' : Bytes) × (replay_loop (length ms + fuel) (frames ms ++ tail) buffer
          ≡ ms ++ replay_loop fuel tail buffer')
  unfolding frames
  replay_frames [] fuel tail buffer fits =
      (buffer, ap (λ n. replay_loop n tail buffer) (omega arith))
  replay_frames (m ∷ ms) fuel tail buffer fits =
      let (buffer₁, first) = replay_frame (length ms + fuel) m (frames ms ++ tail) buffer fits.0 in
      let (buffer', later) = replay_frames ms fuel tail buffer₁ fits.1 in
      (
        buffer',
        ap (λ file. replay_loop (suc (length ms) + fuel) file buffer)
              (append_assoc (frame m) (frames ms) tail)
            ∙ ap (λ n. replay_loop n (frame m ++ (frames ms ++ tail)) buffer) (omega arith)
            ∙ first
            ∙ ap (◌∷◌ m) later,
      )

  length-frame : (m : M) → Fits m → 1 ≤ length (frame m)
  unfolding frame
  length-frame m fits =
      unfold header_of in
      omega (arith, length-append (header_of m) (codec.serialize m), length-header_of m fits)

  length-frames : (ms : List M) → All Fits ms → length ms ≤ length (frames ms)
  unfolding frames
  length-frames [] fits = omega arith
  length-frames (m ∷ ms) fits =
      omega
        (arith, length-frames ms fits.1, length-append (frame m) (frames ms), length-frame m fits.0)

  -- The fuel of `replay_log` is more than the number of records.
  replay_written :
      (ms : List M) (tail : Bytes)
      → All Fits ms
      → (fuel : ℕ) × (buffer : Bytes) × (replay_log (written [] ms ++ tail)
          ≡ ms ++ replay_loop (suc fuel) tail buffer)
  unfolding replay_log
  replay_written ms tail fits =
      let file = frames ms ++ tail in
      let fuel = length file - length ms in
      let enough : suc (length file) ≡ length ms + suc fuel =
        omega (arith, length-frames ms fits, length-append (frames ms) tail) in
      let (buffer, done) = replay_frames ms (suc fuel) tail (replicate 32 0) fits in
      (
        fuel,
        buffer,
        ap (λ (f : Bytes). replay_loop (suc (length (f ++ tail))) (f ++ tail) (replicate 32 0))
              (written-eq-frames [] ms)
            ∙ ap (λ n. replay_loop n file (replicate 32 0)) enough
            ∙ done,
      )

  replay_short :
      (fuel : ℕ) (tail buffer : Bytes)
      → length tail < header_length
      → replay_loop {M = M} (suc fuel) tail buffer ≡ []
  unfolding replay_loop
  replay_short fuel tail buffer short = ground arith

  -- A replay gives the handler the records that were written, in their order and unchanged, also
  -- where the file ends in a header that was not written whole.
  pub replay-written :
      (ms : List M) (torn : Bytes)
      → All Fits ms
      → length torn < header_length
      → replay_log (written [] ms ++ torn) ≡ ms
  replay-written ms torn fits short =
      let (fuel, buffer, done) = replay_written ms torn fits in
      done ∙ ap (◌++◌ ms) (replay_short fuel torn buffer short) ∙ append-nil ms
