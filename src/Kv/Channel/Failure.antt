-- ===== src/Kv/Channel/Failure.antt =====
-- What failures do to a channel (kv/net/channel/include/channel.hpp).
use cs.Prelude.{◌≡◌, refl, true, false, none, some, List, [], ◌∷◌, ◌++◌, arith}
use cs.Prelude.Eq.{Bytes}
use cs.Prelude.Outcome.{Outcome, ok, fault, undefined, ◌>>=◌}
use cs.Kv.Codec.{Codec}
use cs.Kv.Channel.{Channel, written, read_failed, timer_fired, send_msg}

module _ {M : Type 0} ⦃codec : Codec M⦄ where
  unfoldable pub send_all : List M → Channel → Outcome Channel
  send_all [] c = ok c
  send_all (m ∷ ms) c = do c' ← send_msg m c; send_all ms c'

  stalled :
      (ms : List M) (front : Bytes) (queue : List Bytes) (c : Channel)
      → c.queue ≡ front ∷ queue
      → (c' : Channel) × (send_all ms c ≡ ok c')
        × (c'.writing ≡ c.writing)
        × (c'.wire ≡ c.wire)
        × (c'.timer ≡ c.timer)
  unfolding send_all send_msg
  stalled [] front queue c e = (c, refl, refl, refl, refl)
  stalled (m ∷ ms) front queue c e =
      let added = record c { queue = c.queue ++ codec.serialize m ∷ [] } in
      let (c', done, w, v, t) =
        stalled ms front (queue ++ codec.serialize m ∷ []) added (ground (arith, e)) in
      (c', rw (e, send_all, send_msg) (ground (arith, e, done)), w, v, t)

  -- After a failed write on an accepted channel nothing is written any more, whatever is sent: no
  -- write starts and no reconnect is due.
  pub failed_write_stalls :
      (c : Channel) (found bytes front : Bytes) (queue : List Bytes) (ms : List M)
      → c.active ≡ false
      → c.writing ≡ some bytes
      → c.queue ≡ front ∷ queue
      → (c₁ c₂ : Channel) × (written true found c ≡ ok c₁)
        × (send_all ms c₁ ≡ ok c₂)
        × (c₂.writing ≡ none)
        × (c₂.wire ≡ c.wire)
        × (c₂.timer ≡ c.timer)
  unfolding written
  failed_write_stalls c found bytes front queue ms passive busy e =
      let (c₂, done, w, v, t) = stalled ms front queue (record c { writing = none }) e in
      (record c { writing = none }, c₂, ground (arith, busy, passive), done, w, v, t)

-- On a channel that reconnects: after a failed read, if the timer fires while a write is in
-- progress, the write's success pops an empty queue.
pub reconnect_pops_empty :
    (c : Channel) (found bytes : Bytes)
    → c.active ≡ true
    → c.writing ≡ some bytes
    → written false found (timer_fired false (read_failed c)) ≡ fault undefined
unfolding written timer_fired read_failed
reconnect_pops_empty c found bytes active busy = ground arith
