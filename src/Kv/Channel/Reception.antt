-- ===== src/Kv/Channel/Reception.antt =====
-- What the other end of a connection is given (kv/net/channel/include/channel.hpp).
use cs.Prelude.{
  ℕ, zero, suc, ◌+◌, ◌≡◌, refl, ap, sym, ◌∙◌, subst, false, List, [], ◌∷◌, ◌++◌, map, length, take,
  drop, ltb, arith, append_assoc, length-append, take-append, drop-append, ∷-injective, All,
  if◌then◌else◌,
}
use cs.Prelude.Eq.{Bytes}
use cs.Prelude.BigEndian.{from_bytes}
use cs.Prelude.Outcome.{ok, ok-injective}
use cs.Kv.Header.{header_length}
use cs.Kv.Codec.{Codec, Fits, header_of, length-header_of, size-header_of}
use cs.Kv.Channel.{Channel, intended, over_socket, receive}
use cs.Kv.Channel.Delivery.{Action, InOrder, run, messages, buffers, front_of, run-InOrder}

new : InOrder [] over_socket
unfolding over_socket
new = record { busy = refl; order = refl }

-- The write found the header of its buffer as `do_send` had made it.
abbrev pub IsIntact : Bytes × Bytes → Type 0
IsIntact w = w.0 ≡ intended w.1

abbrev pub on_wire : List (Bytes × Bytes) → Bytes
on_wire [] = []
on_wire (w ∷ wire) = w.0 ++ (w.1 ++ on_wire wire)

module _ {M : Type 0} ⦃codec : Codec M⦄ where
  abbrev pub bytes_of : M → Bytes
  bytes_of m = header_of m ++ codec.serialize m

  receive_header :
      (fuel : ℕ) (header body : Bytes)
      → length header ≡ header_length
      → receive {M = M} (suc fuel) (header ++ body) ≡ (
          if ltb (length body) (from_bytes 0 header)
          then []
          else codec.parse (take (from_bytes 0 header) body)
            ∷ receive fuel (drop (from_bytes 0 header) body))
  unfolding receive
  receive_header fuel header body eight =
      let front : take header_length (header ++ body) ≡ header =
        subst (λ n. take n (header ++ body) ≡ header) eight (take-append header body) in
      let back : drop header_length (header ++ body) ≡ body =
        subst (λ n. drop n (header ++ body) ≡ body) eight (drop-append header body) in
      let long : ltb (length (header ++ body)) header_length ≡ false =
        ground (arith, length-append header body, eight) in
      rw (receive, front, back, long)

  receive_one :
      (fuel : ℕ) (m : M) (rest : Bytes)
      → Fits m
      → receive (suc fuel) (bytes_of m ++ rest) ≡ m ∷ receive fuel rest
  receive_one fuel m rest fits =
      let whole : ltb (length (codec.serialize m ++ rest)) (length (codec.serialize m)) ≡ false =
        ground (arith, length-append (codec.serialize m) rest) in
      ap (receive (suc fuel)) (append_assoc (header_of m) (codec.serialize m) rest)
      ∙ receive_header fuel (header_of m) (codec.serialize m ++ rest) (length-header_of m fits)
      ∙ rw (
        size-header_of m fits,
        whole,
        take-append (codec.serialize m) rest,
        drop-append (codec.serialize m) rest,
        codec.parse-serialize m,
      )

  -- The stream of a list of messages.
  abbrev pub stream_of : List M → Bytes
  stream_of [] = []
  stream_of (m ∷ ms) = bytes_of m ++ stream_of ms

  pub receive-All :
      (ms : List M) (fuel : ℕ) → All Fits ms → receive (suc (length ms + fuel)) (stream_of ms) ≡ ms
  receive-All [] fuel fits = unfold receive in refl
  receive-All (m ∷ ms) fuel fits =
      ap (λ n. receive (suc n) (bytes_of m ++ stream_of ms)) (omega arith)
      ∙ receive_one (suc (length ms + fuel)) m (stream_of ms) fits.0
      ∙ ap (◌∷◌ m) (receive-All ms fuel fits.1)

  pub Fits-take : (n : ℕ) (ms : List M) → All Fits ms → All Fits (take n ms)
  Fits-take zero ms h = tt
  Fits-take (suc n) [] h = tt
  Fits-take (suc n) (m ∷ ms) h = (h.0, Fits-take n ms h.1)

  on_wire-stream_of :
      (wire : List (Bytes × Bytes)) (rest : List Bytes) (ms : List M)
      → buffers wire ++ rest ≡ map codec.serialize ms
      → All IsIntact wire
      → on_wire wire ≡ stream_of (take (length wire) ms)
  unfolding header_of
  on_wire-stream_of [] rest ms h intact = refl
  on_wire-stream_of (w ∷ wire) rest [] h intact = absurd (cc h)
  on_wire-stream_of (w ∷ wire) rest (m ∷ ms) h (same, intact) =
      let body : w.1 ≡ codec.serialize m = (∷-injective h).0 in
      let later = on_wire-stream_of wire rest ms (∷-injective h).1 intact in
      rw (same, body, later) (sym (append_assoc (header_of m) (codec.serialize m) _))

  -- Whatever the order of sends and completed writes on a new channel, and whatever the writes find
  -- where their headers were, no step fails; the buffers that are written, followed by those that
  -- are queued, are the messages in the order of sending; and a write is in progress exactly while
  -- something is queued, for the front of the queue.
  pub buffers_in_order :
      (actions : List (Action M))
      → (c : Channel) × (run actions over_socket ≡ ok c)
        × (buffers c.wire ++ c.queue ≡ map codec.serialize (messages actions))
        × (c.writing ≡ front_of c.queue)
  buffers_in_order actions =
      let (c, done, h) = run-InOrder actions [] over_socket (unfold over_socket in new) in
      (c, done, h.order, h.busy)

  -- Where each completed write has found its header as it was made, although the memory of the
  -- header is no longer its own by then, the other end, from the bytes written so far and with
  -- enough rounds, is given the first messages that were sent on a new channel, as many as writes
  -- have completed and in the order of sending.
  pub delivered_if_intact :
      (actions : List (Action M)) (fuel : ℕ) (c : Channel)
      → All Fits (messages actions)
      → run actions over_socket ≡ ok c
      → All IsIntact c.wire
      → receive (suc (length (take (length c.wire) (messages actions)) + fuel)) (on_wire c.wire)
        ≡ take (length c.wire) (messages actions)
  delivered_if_intact actions fuel c fits ran intact =
      let (c', done, h) = run-InOrder actions [] over_socket (unfold over_socket in new) in
      let same : c' ≡ c = ok-injective (sym done ∙ ran) in
      let h' : InOrder (map codec.serialize (messages actions)) c = rw same at h in
      let ms = messages actions in
      ap (receive (suc (length (take (length c.wire) ms) + fuel)))
        (on_wire-stream_of c.wire c.queue ms h'.order intact)
      ∙ receive-All (take (length c.wire) ms) fuel (Fits-take (length c.wire) ms fits)
