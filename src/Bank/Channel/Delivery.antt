-- ===== src/Bank/Channel/Delivery.antt =====
-- The order of messages on a channel of the bank (bank/src/channel.cpp).
use mathlib.Core.List.{map-append}
use cs.Prelude.{
  ◌≡◌, refl, sym, ap, ◌∙◌, subst, false, Option, none, some, List, [], ◌∷◌, ◌++◌, map, arith,
  append-nil, append_assoc,
}
use cs.Prelude.Eq.{Bytes}
use cs.Prelude.Outcome.{Outcome, ok, ◌>>=◌}
use cs.Kv.Codec.{Codec}
use cs.Bank.Channel.{Channel, encoded, sending_done, send_branch_msg}

-- What an end of a connection does while nothing fails.
pub data Action (M : Type 0) : Type 0 where
  sends : M → Action M
  completes : Action M

abbrev pub front_of : List Bytes → Option Bytes
front_of [] = none
front_of (bytes ∷ queue) = some (encoded bytes)

-- A write is in progress exactly if something is queued, and it writes the front; what is written
-- and what is queued is what was sent.
pub record InOrder (sent : List Bytes) (c : Channel) : Type 0 where
  pub busy : c.writing ≡ front_of c.queue
  pub order : c.wire ++ map encoded c.queue ≡ map encoded sent

sending_done-InOrder :
    (sent : List Bytes) (c : Channel) (queue : List Bytes)
    → c.queue ≡ queue
    → InOrder sent c
    → (c' : Channel) × (sending_done false c ≡ ok c') × InOrder sent c'
unfolding sending_done
sending_done-InOrder sent c [] e h = (c, ground (arith, h.busy, e), h)
sending_done-InOrder sent c (x ∷ []) e h = (
  record c { queue = []; writing = none; wire = c.wire ++ encoded x ∷ [] },
  ground (arith, h.busy, e),
  record { busy = refl; order = append-nil (c.wire ++ encoded x ∷ []) ∙ rw e at h.order },
)
sending_done-InOrder sent c (x ∷ y ∷ rest) e h = (
  record c { queue = y ∷ rest; writing = some (encoded y); wire = c.wire ++ encoded x ∷ [] },
  ground (arith, h.busy, e),
  record {
    busy = refl;
    order = append_assoc c.wire (encoded x ∷ []) (encoded y ∷ map encoded rest) ∙ rw e at h.order;
  },
)

map-append_one :
    (wire xs ys : List Bytes) (b : Bytes)
    → wire ++ map encoded xs ≡ map encoded ys
    → wire ++ map encoded (xs ++ b ∷ []) ≡ map encoded (ys ++ b ∷ [])
map-append_one wire xs ys b h =
    ap (◌++◌ wire) (map-append encoded xs (b ∷ []))
    ∙ sym (append_assoc wire (map encoded xs) (encoded b ∷ []))
    ∙ ap (λ l. l ++ encoded b ∷ []) h
    ∙ sym (map-append encoded ys (b ∷ []))

module _ {M : Type 0} ⦃codec : Codec M⦄ where
  send_branch_msg-InOrder :
      (sent : List Bytes) (m : M) (c : Channel) (queue : List Bytes)
      → c.queue ≡ queue
      → InOrder sent c
      → (c' : Channel) × (send_branch_msg m c ≡ ok c') × InOrder (sent ++ codec.serialize m ∷ []) c'
  unfolding send_branch_msg
  send_branch_msg-InOrder sent m c [] e h = (
    record c { queue = codec.serialize m ∷ []; writing = some (encoded (codec.serialize m)) },
    ground (arith, e),
    record {
      busy = refl;
      order = map-append_one c.wire [] sent (codec.serialize m) (rw e at h.order);
    },
  )
  send_branch_msg-InOrder sent m c (x ∷ queue) e h = (
    record c { queue = x ∷ (queue ++ codec.serialize m ∷ []) },
    ground (arith, e),
    record {
      busy = ground (arith, h.busy, e);
      order = map-append_one c.wire (x ∷ queue) sent (codec.serialize m) (rw e at h.order);
    },
  )

  unfoldable pub run_bank : List (Action M) → Channel → Outcome Channel
  run_bank [] c = ok c
  run_bank (sends m ∷ actions) c = do c' ← send_branch_msg m c; run_bank actions c'
  run_bank (completes ∷ actions) c = do c' ← sending_done false c; run_bank actions c'

  abbrev pub messages : List (Action M) → List M
  messages [] = []
  messages (sends m ∷ actions) = m ∷ messages actions
  messages (completes ∷ actions) = messages actions

  pub run_bank-InOrder :
      (actions : List (Action M)) (sent : List Bytes) (c : Channel)
      → InOrder sent c
      → (c' : Channel) × (run_bank actions c ≡ ok c')
        × InOrder (sent ++ map codec.serialize (messages actions)) c'
  unfolding run_bank
  run_bank-InOrder [] sent c h = (c, refl, subst (λ s. InOrder s c) (sym (append-nil sent)) h)
  run_bank-InOrder (sends m ∷ actions) sent c h =
      let (c₁, first, h₁) = send_branch_msg-InOrder sent m c c.queue refl h in
      let (c', later, h') = run_bank-InOrder actions (sent ++ codec.serialize m ∷ []) c₁ h₁ in
      (
        c',
        rw (first, run_bank) later,
        subst (λ s. InOrder s c')
            (append_assoc sent (codec.serialize m ∷ []) (map codec.serialize (messages actions)))
            h',
      )
  run_bank-InOrder (completes ∷ actions) sent c h =
      let (c₁, first, h₁) = sending_done-InOrder sent c c.queue refl h in
      let (c', later, h') = run_bank-InOrder actions sent c₁ h₁ in
      (c', rw (first, run_bank) later, h')
