-- ===== src/Kv/Channel/Delivery.antt =====
-- Order and loss of messages on a channel (kv/net/channel/include/channel.hpp).
use cs.Prelude.{
  ◌≡◌, refl, sym, ap, ◌∙◌, subst, false, Option, none, some, List, [], ◌∷◌, ◌++◌, map, arith,
  append-nil, append_assoc,
}
use cs.Prelude.Eq.{Bytes}
use cs.Prelude.Outcome.{Outcome, ok, ◌>>=◌}
use cs.Kv.Codec.{Codec}
use cs.Kv.Channel.{Channel, written, send_msg}

-- What an end of a connection does while nothing fails.
pub data Action (M : Type 0) : Type 0 where
  sends : M → Action M
  completes : Bytes → Action M

abbrev pub front_of : List Bytes → Option Bytes
front_of [] = none
front_of (bytes ∷ queue) = some bytes

-- The buffers of completed writes.
abbrev pub buffers : List (Bytes × Bytes) → List Bytes
buffers wire = map (λ w. w.1) wire

buffers-snoc :
    (wire : List (Bytes × Bytes)) (w : Bytes × Bytes)
    → buffers (wire ++ w ∷ []) ≡ buffers wire ++ w.1 ∷ []
buffers-snoc [] w = refl
buffers-snoc (x ∷ wire) w = ap (◌∷◌ x.1) (buffers-snoc wire w)

-- A write is in progress exactly if something is queued, and it writes the front; what is written
-- and what is queued is what was sent.
pub record InOrder (sent : List Bytes) (c : Channel) : Type 0 where
  pub busy : c.writing ≡ front_of c.queue
  pub order : buffers c.wire ++ c.queue ≡ sent

written-InOrder :
    (found : Bytes) (sent : List Bytes) (c : Channel) (queue : List Bytes)
    → c.queue ≡ queue
    → InOrder sent c
    → (c' : Channel) × (written false found c ≡ ok c') × InOrder sent c'
unfolding written
written-InOrder found sent c [] e h = (c, ground (arith, h.busy, e), h)
written-InOrder found sent c (x ∷ []) e h = (
  record c { queue = []; writing = none; wire = c.wire ++ (found, x) ∷ [] },
  ground (arith, h.busy, e),
  record { busy = refl; order = append-nil _ ∙ buffers-snoc c.wire (found, x) ∙ rw e at h.order },
)
written-InOrder found sent c (x ∷ y ∷ rest) e h = (
  record c { queue = y ∷ rest; writing = some y; wire = c.wire ++ (found, x) ∷ [] },
  ground (arith, h.busy, e),
  record {
    busy = refl;
    order =
        ap (λ l. l ++ y ∷ rest) (buffers-snoc c.wire (found, x))
        ∙ append_assoc (buffers c.wire) (x ∷ []) (y ∷ rest)
        ∙ rw e at h.order;
  },
)

snoc_one :
    (wire xs ys : List Bytes) (b : Bytes) → wire ++ xs ≡ ys → wire ++ (xs ++ b ∷ []) ≡ ys ++ b ∷ []
snoc_one wire xs ys b h = sym (append_assoc wire xs (b ∷ [])) ∙ ap (λ l. l ++ b ∷ []) h

module _ {M : Type 0} ⦃codec : Codec M⦄ where
  send_msg-InOrder :
      (sent : List Bytes) (m : M) (c : Channel) (queue : List Bytes)
      → c.queue ≡ queue
      → InOrder sent c
      → (c' : Channel) × (send_msg m c ≡ ok c') × InOrder (sent ++ codec.serialize m ∷ []) c'
  unfolding send_msg
  send_msg-InOrder sent m c [] e h = (
    record c { queue = codec.serialize m ∷ []; writing = some (codec.serialize m) },
    ground (arith, e),
    record {
      busy = refl;
      order = snoc_one (buffers c.wire) [] sent (codec.serialize m) (rw e at h.order);
    },
  )
  send_msg-InOrder sent m c (x ∷ queue) e h = (
    record c { queue = x ∷ (queue ++ codec.serialize m ∷ []) },
    ground (arith, e),
    record {
      busy = ground (arith, h.busy, e);
      order = snoc_one (buffers c.wire) (x ∷ queue) sent (codec.serialize m) (rw e at h.order);
    },
  )

  unfoldable pub run : List (Action M) → Channel → Outcome Channel
  run [] c = ok c
  run (sends m ∷ actions) c = do c' ← send_msg m c; run actions c'
  run (completes found ∷ actions) c = do c' ← written false found c; run actions c'

  abbrev pub messages : List (Action M) → List M
  messages [] = []
  messages (sends m ∷ actions) = m ∷ messages actions
  messages (completes found ∷ actions) = messages actions

  pub run-InOrder :
      (actions : List (Action M)) (sent : List Bytes) (c : Channel)
      → InOrder sent c
      → (c' : Channel) × (run actions c ≡ ok c')
        × InOrder (sent ++ map codec.serialize (messages actions)) c'
  unfolding run
  run-InOrder [] sent c h = (c, refl, subst (λ s. InOrder s c) (sym (append-nil sent)) h)
  run-InOrder (sends m ∷ actions) sent c h =
      let (c₁, first, h₁) = send_msg-InOrder sent m c c.queue refl h in
      let (c', later, h') = run-InOrder actions (sent ++ codec.serialize m ∷ []) c₁ h₁ in
      (
        c',
        rw (first, run) later,
        subst (λ s. InOrder s c')
            (append_assoc sent (codec.serialize m ∷ []) (map codec.serialize (messages actions)))
            h',
      )
  run-InOrder (completes found ∷ actions) sent c h =
      let (c₁, first, h₁) = written-InOrder found sent c c.queue refl h in
      let (c', later, h') = run-InOrder actions sent c₁ h₁ in (c', rw (first, run) later, h')
