-- ===== src/Kv/Coordinator/Acks.antt =====
-- Replies to a `PutKey` (handle_put and handle_write_complete of kv/server/src/coordinator.cpp).
use cs.Prelude.{
  ℕ, ◌+◌, ◌^◌, ◌<◌, ◌≡◌, refl, ap, ◌∙◌, subst, String, Bool, Option, none, some, List, [], ◌∷◌,
  ◌++◌, ◌&&◌, append-nil, length, arith, ◌==◌, leb, if◌then◌else◌, Bool-cases, inl, inr,
}
use cs.Prelude.Eq.{string_eq}
use cs.Prelude.Dict.{lookup, lookup-put, lookup-emplace, beq_refl}
use cs.Prelude.Outcome.{Outcome, ok, ok-injective, ◌>>=◌, >>=-eq-ok}
use cs.Kv.Messages.{TimeOps, PutKey, ServerMessage, ClientMessage, put_key_resp}
use cs.Kv.Replica.{write}
use cs.Kv.Coordinator.State.{
  Coordinator, PendingWrite, ServerLink, Sent, to_client, to_server, to_all, dec32,
}
use cs.Kv.Coordinator.Client.{Draw, handle_put, queue_hints, start_write}
use cs.Kv.Coordinator.Server.{acknowledge, handle_write_complete}

-- The acknowledgements of one write, from these replicas in this order.
unfoldable pub acks : String → List ℕ → Coordinator → Outcome Coordinator
acks uuid [] s = ok s
acks uuid (from ∷ froms) s = do s' ← handle_write_complete uuid from s; acks uuid froms s'

-- What the clients are sent.
abbrev pub replies : List Sent → List (ℕ × ClientMessage)
replies [] = []
replies (to_server link msg ∷ sent) = replies sent
replies (to_client client msg ∷ sent) = (client, msg) ∷ replies sent

pub replies-append : (xs ys : List Sent) → replies (xs ++ ys) ≡ replies xs ++ replies ys
replies-append [] ys = refl
replies-append (to_server link msg ∷ xs) ys = replies-append xs ys
replies-append (to_client client msg ∷ xs) ys = ap (◌∷◌ (client, msg)) (replies-append xs ys)

replies-to_all :
    (msg : ServerMessage) (channels : List (Option ServerLink)) → replies (to_all msg channels) ≡ []
unfolding to_all
replies-to_all msg [] = refl
replies-to_all msg (none ∷ channels) = replies-to_all msg channels
replies-to_all msg (some link ∷ channels) = replies-to_all msg channels

abbrev reply_of : PendingWrite → ℕ × ClientMessage
reply_of p = (p.requestor, put_key_resp p.stream p.key)

abbrev pub reply_if : Bool → ℕ × ClientMessage → List (ℕ × ClientMessage)
reply_if b reply = if b then reply ∷ [] else []

lookup-acknowledge :
    (uuid : String) (from : ℕ) (p : PendingWrite) (s : Coordinator)
    → lookup uuid (acknowledge uuid from p s).pending_writes
      ≡ some (record p { consistency = dec32 p.consistency })
unfolding acknowledge
lookup-acknowledge uuid from p s = ground (
  arith,
  lookup-put uuid uuid (record p { consistency = dec32 p.consistency }) s.pending_writes,
  beq_refl uuid,
)

replies-acknowledge :
    (uuid : String) (from : ℕ) (p : PendingWrite) (s : Coordinator)
    → replies (acknowledge uuid from p s).sent
      ≡ replies s.sent ++ reply_if (p.consistency == 1) (reply_of p)
unfolding acknowledge
replies-acknowledge uuid from p s = ground (
  arith,
  replies-append s.sent (to_client p.requestor (put_key_resp p.stream p.key) ∷ []),
  append-nil (replies s.sent),
)

-- Acknowledgements never fail, and the one that takes the count from 1 is answered.
acks_reply :
    (uuid : String) (froms : List ℕ) (p : PendingWrite) (s : Coordinator)
    → lookup uuid s.pending_writes ≡ some p
    → p.consistency < 2 ^ 32
    → length froms < 2 ^ 32
    → (s' : Coordinator) × (acks uuid froms s ≡ ok s')
      × (replies s'.sent
          ≡ replies s.sent
            ++ reply_if (leb 1 p.consistency && leb p.consistency (length froms)) (reply_of p))
unfolding acks handle_write_complete
acks_reply uuid [] p s pending small few = (s, refl, ground (arith, append-nil (replies s.sent)))
acks_reply uuid (from ∷ froms) p s pending small few =
    let (s', done, sent) =
      acks_reply uuid froms (record p { consistency = dec32 p.consistency })
        (acknowledge uuid from p s) (lookup-acknowledge uuid from p s) (omega arith)
        (omega arith) in
    (
      s',
      rw (pending, acks) done,
      ground (
        arith,
        sent,
        replies-acknowledge uuid from p s,
        append-nil (replies s.sent),
        append-nil (replies s.sent ++ reply_of p ∷ []),
      ),
    )

abbrev requested : PutKey → ℕ → PendingWrite
requested msg from = record {
  stream = msg.stream;
  key = msg.key;
  consistency = dec32 msg.consistency;
  requestor = from;
}

queue_hints_keeps :
    (key : ℕ) (s : Coordinator)
    → ((queue_hints key s).sent ≡ s.sent) × ((queue_hints key s).pending_writes ≡ s.pending_writes)
unfolding queue_hints
queue_hints_keeps key s = ground arith

lookup-start_write :
    (draw : Draw) (msg : PutKey) (from : ℕ) (s : Coordinator)
    → lookup draw.uuid s.pending_writes ≡ none
    → lookup draw.uuid (start_write draw msg from s).pending_writes ≡ some (requested msg from)
unfolding start_write
lookup-start_write draw msg from s fresh = ground (
  arith,
  lookup-emplace draw.uuid draw.uuid (requested msg from) s.pending_writes,
  beq_refl draw.uuid,
)

replies-start_write :
    (draw : Draw) (msg : PutKey) (from : ℕ) (s : Coordinator)
    → replies (start_write draw msg from s).sent
      ≡ replies s.sent ++ reply_if (msg.consistency == 1) (from, put_key_resp msg.stream msg.key)
unfolding start_write
replies-start_write draw msg from s = elim (Bool-cases (msg.consistency == 1)) [
  | inl one ↦ rw one (
      replies-append (s.sent ++ to_client from (put_key_resp msg.stream msg.key) ∷ []) _
      ∙ rw replies-to_all (
          append-nil _
          ∙ replies-append s.sent (to_client from (put_key_resp msg.stream msg.key) ∷ [])))
  | inr more ↦ rw more (replies-append s.sent _ ∙ rw replies-to_all refl)
]

module _ ⦃tm : TimeOps⦄ where
  -- A put that is taken with a new uuid and with a consistency of k is answered exactly once if
  -- at least k - 1 replicas acknowledge it, and never if there are fewer or k is 0, whichever
  -- replicas acknowledge it and however many (below 2^32 - 1) do.
  pub put_answered_once :
      (draw : Draw) (msg : PutKey) (from : ℕ) (s s' : Coordinator) (froms : List ℕ)
      → handle_put draw msg from s ≡ ok s'
      → lookup draw.uuid s.pending_writes ≡ none
      → msg.consistency < 2 ^ 32
      → length froms + 1 < 2 ^ 32
      → (t : Coordinator) × (acks draw.uuid froms s' ≡ ok t)
        × (replies t.sent
            ≡ replies s.sent
              ++ reply_if
                  (leb 1 msg.consistency && leb msg.consistency (length froms + 1))
                  (from, put_key_resp msg.stream msg.key))
  unfolding handle_put
  put_answered_once draw msg from s s' froms taken fresh small few =
      let (replica, written, same) = >>=-eq-ok (write s.replica msg.key msg.val draw.now) _ taken in
      let queued = queue_hints msg.key (record s { replica = replica }) in
      let kept = queue_hints_keeps msg.key (record s { replica = replica }) in
      let (t, done, sent) =
        acks_reply draw.uuid froms (requested msg from) s'
          (subst
            (λ (u : Coordinator). lookup draw.uuid u.pending_writes ≡ some (requested msg from))
            (ok-injective same)
            (lookup-start_write draw msg from queued (ap (lookup draw.uuid) kept.1 ∙ fresh)))
          (omega arith) (omega arith) in
      (
        t,
        done,
        ground (
          arith,
          sent,
          ok-injective same,
          replies-start_write draw msg from queued,
          kept,
          append-nil (replies s.sent),
          append-nil (replies s.sent ++ (from, put_key_resp msg.stream msg.key) ∷ []),
        ),
      )
