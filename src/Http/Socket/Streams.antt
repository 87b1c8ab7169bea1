-- ===== src/Http/Socket/Streams.antt =====
-- How a stream is sent (http/src/socket.cpp).
use mathlib.Core.List.{flatten}
use cs.Prelude.{
  ℕ, zero, suc, ◌≤◌, ◌<◌, ◌≡◌, refl, ap, ◌∙◌, ◌==◌, some, List, [], ◌∷◌, ◌++◌, All, length, take,
  drop, length-take, length-drop, arith, inl, inr, Bool-cases, append-nil,
}
use cs.Prelude.Eq.{Bytes}
use cs.Prelude.Outcome.{ok}
use cs.Http.Socket.{stream_chunks, send_stream}
use cs.Http.Socket.Sends.{take-drop}

take_short : (n : ℕ) (xs : Bytes) → length xs ≤ n → take n xs ≡ xs
take_short zero [] h = refl
take_short zero (x ∷ xs) h = absurd (omega arith)
take_short (suc n) [] h = refl
take_short (suc n) (x ∷ xs) h = ap (◌∷◌ x) (take_short n xs (omega arith))

abbrev pub IsChunk : ℕ → Bytes → Type 0
IsChunk size b = length b ≤ size

stream_chunks-lem :
    (size rounds : ℕ) (input : Bytes)
    → 0 < size
    → length input < rounds
    → (flatten (stream_chunks size rounds input) ≡ input)
      × All (IsChunk size) (stream_chunks size rounds input)
unfolding stream_chunks flatten
stream_chunks-lem size zero input some_size h = absurd (omega arith)
stream_chunks-lem size (suc rounds) input some_size h =
    let taken = length-take size input in
    elim (Bool-cases (length (take size input) == size)) [
      | inl full ↦
          let fewer = length-drop size input in
          let (all, small) =
            stream_chunks-lem size rounds (drop size input) some_size
              (ground (arith, fewer, taken, full, h, some_size)) in
          rw full (
            ap (λ rest. take size input ++ rest) all ∙ take-drop size input,
            (omega (arith, taken), small),
          )
      | inr last ↦
          let whole = take_short size input (ground (arith, taken, last)) in
          rw last (append-nil (take size input) ∙ whole, (omega (arith, taken), tt))
    ]

-- A stream that could be opened is sent whole and in order, in texts of 4 KiB at most.
pub send_stream_complete :
    (input : Bytes)
    → (texts : List Bytes) × (send_stream (some input) ≡ ok texts)
      × (flatten texts ≡ input)
      × All (IsChunk 4096) texts
unfolding send_stream
send_stream_complete input =
    let (all, small) =
      stream_chunks-lem 4096 (suc (length input)) input (omega arith) (omega arith) in
    (stream_chunks 4096 (suc (length input)) input, refl, all, small)
