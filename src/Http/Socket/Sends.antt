-- ===== src/Http/Socket/Sends.antt =====
-- What the loops of http/src/socket.cpp send and receive.
use cs.Prelude.{
  ℕ, zero, suc, ◌+◌, ◌<◌, map, false, ◌-◌, ◌≤◌, ◌≡◌, refl, ap, sym, ◌∙◌, none, Option, List, [],
  ◌∷◌, ◌++◌, length, take, drop, replicate, length-drop, ltb, ◌==◌, append_assoc, append-nil, arith,
  Bool-cases, inl, inr, Option-cases,
}
use cs.Prelude.Eq.{Bytes}
use cs.Prelude.Outcome.{ok, >>=-eq-ok, ok-injective}
use cs.Http.Socket.{
  SysResult, failed, took, Progress, send, send_file, Received, recv, recv_msg_loop, recv_msg,
  Search,
}

pub take-drop : (n : ℕ) (xs : Bytes) → take n xs ++ drop n xs ≡ xs
take-drop zero xs = refl
take-drop (suc n) [] = refl
take-drop (suc n) (x ∷ xs) = ap (◌∷◌ x) (take-drop n xs)

no_length : (xs : Bytes) → length xs ≤ 0 → xs ≡ []
no_length [] h = refl
no_length (x ∷ xs) h = absurd (omega arith)

send_lem :
    (results : List SysResult) (wire buffer : Bytes) (p : Progress)
    → send results wire buffer ≡ ok p
    → (p.wire ++ p.to_send ≡ wire ++ buffer) × (length p.to_send ≤ length buffer - length results)
unfolding send
send_lem [] wire buffer p h = (ground (arith, ok-injective h), ground (arith, ok-injective h))
send_lem (r ∷ results) wire [] p h =
    (ground (arith, ok-injective h), ground (arith, ok-injective h))
send_lem (failed ∷ results) wire (b ∷ buffer) p h = absurd (cc h)
send_lem (took sent ∷ results) wire (b ∷ buffer) p h =
    let text = b ∷ buffer in
    elim (Bool-cases (ltb (length text) sent)) [
      | inl over ↦ absurd (cc (rw (over, send) at h))
      | inr fits ↦ elim (Bool-cases (sent == 0)) [
        | inl nothing ↦ absurd (cc (rw (fits, nothing, send) at h))
        | inr some_sent ↦
            let (whole, fewer) =
              send_lem results (wire ++ take sent text) (drop sent text) p
                (rw (fits, some_sent, send) at h) in
            (
              whole
                  ∙ append_assoc wire (take sent text) (drop sent text)
                  ∙ ap (◌++◌ wire) (take-drop sent text),
              ground (arith, fewer, length-drop sent text, some_sent),
            )
      ]
    ]

-- Unless it throws, the loop of `send` puts the whole text on the wire, in order and with nothing
-- left out or repeated, after at most as many calls as there are bytes.
pub send_complete :
    (results : List SysResult) (text : Bytes) (p : Progress)
    → send results [] text ≡ ok p
    → length text ≤ length results
    → p.wire ≡ text
send_complete results text p h enough =
    let (whole, fewer) = send_lem results [] text p h in
    let done : p.to_send ≡ [] = no_length p.to_send (omega (arith, fewer, enough)) in
    sym (append-nil p.wire) ∙ ap (◌++◌ p.wire) (sym done) ∙ whole

abbrev pub total : List ℕ → ℕ
total [] = 0
total (size ∷ sizes) = size + total sizes

-- The calls that take these sizes leave the rest of the count.
send_file-sizes :
    (sizes : List ℕ) (later : List SysResult) (count : ℕ)
    → total sizes < count
    → send_file (map took sizes ++ later) count ≡ send_file later (count - total sizes)
unfolding send_file
send_file-sizes [] later count h = ap (send_file later) (omega arith)
send_file-sizes (size ∷ sizes) later zero h = absurd (omega arith)
send_file-sizes (size ∷ sizes) later (suc count) h =
    let fits : ltb (suc count) size ≡ false = ground (arith, h) in
    rw (fits, send_file)
      (send_file-sizes sizes later (suc count - size) (omega (arith, h))
        ∙ ap (send_file later) (omega arith))

nothing_more : (calls left : ℕ) → send_file (replicate calls (took 0)) (suc left) ≡ ok (suc left)
unfolding send_file
nothing_more zero left = refl
nothing_more (suc calls) left = ground (arith, nothing_more calls left)

-- A file that is shorter than `count` is sent by `sendfile` in pieces of whatever sizes that come to
-- its whole length, and then `sendfile` returns 0: the loop of `send_file` never ends, but after any
-- number of calls still has to send exactly what the file lacks, which is not nothing.
pub send_file_stuck :
    (file : Bytes) (sizes : List ℕ) (calls count : ℕ)
    → total sizes ≡ length file
    → length file < count
    → (left : ℕ) × (send_file (map took sizes ++ replicate calls (took 0)) count ≡ ok (suc left))
      × (length file + suc left ≡ count)
send_file_stuck file sizes calls count whole short =
    let left = count - length file - 1 in
    let rest : count - total sizes ≡ suc left = omega arith in
    (
      left,
      send_file-sizes sizes (replicate calls (took 0)) count (omega (arith, whole, short))
          ∙ ap (send_file (replicate calls (took 0))) rest
          ∙ nothing_more calls left,
      omega arith,
    )

recv_msg_loop_throws :
    (search : Search) (results : List Received) (ret buf : Bytes) (out : Option (Bytes × Bytes))
    → recv_msg_loop search [] results ret buf ≡ ok out
    → out ≡ none
unfolding recv_msg_loop
recv_msg_loop_throws search [] ret buf out h = elim (Option-cases (search buf)) [
  | inl more ↦ ground (arith, h, more)
  | inr (end_idx, there) ↦ absurd (ground (arith, h, there))
]
recv_msg_loop_throws search (r ∷ results) ret buf out h = elim (Option-cases (search buf)) [
  | inl more ↦
      let (next, got, rest) = >>=-eq-ok (recv r) _ (rw (more, recv_msg_loop) at h) in
      recv_msg_loop_throws search results (ret ++ buf) next out rest
  | inr (end_idx, there) ↦ absurd (ground (arith, h, there))
]

-- On a connection from which no message has been received, `recv_msg` never returns one, whatever
-- is received and whatever the delimiter is: it waits, or it throws.
pub recv_msg_never :
    (search : Search) (results : List Received) (out : Option (Bytes × Bytes))
    → recv_msg search [] results ≡ ok out
    → out ≡ none
unfolding recv_msg
recv_msg_never search results out h = recv_msg_loop_throws search results [] [] out h
