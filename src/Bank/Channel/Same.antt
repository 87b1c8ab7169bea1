-- ===== src/Bank/Channel/Same.antt =====
-- What the other end of the bank's channel is given (bank/src/channel.cpp).
use mathlib.Core.List.{flatten}
use cs.Prelude.{
  ℕ, zero, suc, ◌+◌, ◌≡◌, refl, ap, ◌∙◌, List, [], ◌∷◌, ◌++◌, map, take, length, All, ∷-injective,
}
use cs.Prelude.Eq.{Bytes}
use cs.Prelude.Outcome.{ok}
use cs.Kv.Codec.{Codec, Fits, header_of}
use cs.Kv.Channel.{receive}
use cs.Kv.Header.{set_body_size}
use cs.Kv.Channel.Reception.{stream_of, bytes_of, receive-All, Fits-take}
use cs.Bank.Header.{encode_header}
use cs.Bank.Channel.{Channel, new, encoded, read_messages}
use cs.Bank.Channel.Delivery.{Action, InOrder, run_bank, messages, run_bank-InOrder}

new-InOrder : InOrder [] new
unfolding new
new-InOrder = record { busy = refl; order = refl }

module _ {M : Type 0} ⦃codec : Codec M⦄ where
  encoded_all : List M → List Bytes
  encoded_all ms = map encoded (map codec.serialize ms)

  prefix_encoded :
      (wire rest : List Bytes) (ms : List M)
      → wire ++ rest ≡ encoded_all ms
      → wire ≡ encoded_all (take (length wire) ms)
  unfolding encoded_all
  prefix_encoded [] rest ms h = refl
  prefix_encoded (w ∷ wire) rest [] h = absurd (cc h)
  prefix_encoded (w ∷ wire) rest (m ∷ ms) h =
      cc (prefix_encoded wire rest ms (∷-injective h).1, (∷-injective h).0)

  flatten-encoded_all : (ms : List M) → flatten (encoded_all ms) ≡ stream_of ms
  unfolding encoded_all header_of flatten encode_header set_body_size
  flatten-encoded_all [] = refl
  flatten-encoded_all (m ∷ ms) = ap (◌++◌ (bytes_of m)) (flatten-encoded_all ms)

  read_same : (fuel : ℕ) (stream : Bytes) → read_messages {M = M} fuel stream ≡ receive fuel stream
  unfolding read_messages receive
  read_same zero stream = refl
  read_same (suc fuel) stream = rw (read_same fuel) refl

  -- Whatever the order of sends and completed writes on a new channel of the bank, none of them
  -- fails, and the other end, from the bytes written so far and with enough rounds, is given the
  -- first messages that were sent, as many as writes have completed, in their order and unchanged.
  pub branch_msgs_delivered :
      (actions : List (Action M)) (fuel : ℕ)
      → All Fits (messages actions)
      → (c : Channel) × (run_bank actions new ≡ ok c)
        × (read_messages
              (suc (length (take (length c.wire) (messages actions)) + fuel))
              (flatten c.wire)
            ≡ take (length c.wire) (messages actions))
  branch_msgs_delivered actions fuel fits =
      let (c, done, h) = run_bank-InOrder actions [] new new-InOrder in
      let ms = messages actions in
      let sent = take (length c.wire) ms in
      let wire : c.wire ≡ encoded_all sent =
        unfold encoded_all in prefix_encoded c.wire (map encoded c.queue) ms h.order in
      (
        c,
        done,
        read_same _ (flatten c.wire)
            ∙ ap (λ (w : List Bytes). receive (suc (length sent + fuel)) (flatten w)) wire
            ∙ ap (receive (suc (length sent + fuel))) (flatten-encoded_all sent)
            ∙ receive-All sent fuel (Fits-take (length c.wire) ms fits),
      )
