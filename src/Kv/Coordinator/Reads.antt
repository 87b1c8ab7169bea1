-- ===== src/Kv/Coordinator/Reads.antt =====
-- Replies to a `GetKey` (handle_get and handle_read_complete of kv/server/src/coordinator.cpp).
use cs.Prelude.{
  ℕ, ◌+◌, ◌^◌, ◌<◌, ◌≡◌, ◌≢◌, refl, ap, ◌∙◌, String, Option, none, some, List, [], ◌∷◌, ◌++◌, ◌&&◌,
  append-nil, length, arith, ◌==◌, leb, Bool-cases, inl, inr,
}
use cs.Prelude.Eq.{string_eq}
use cs.Prelude.Dict.{lookup, put, lookup-put, lookup-emplace, beq_refl}
use cs.Prelude.Outcome.{Outcome, ok, ok-injective, ◌>>=◌, >>=-eq-ok}
use cs.Kv.Messages.{Timestamp, TimeOps, GetKey, ServerMessage, do_read, get_key_resp}
use cs.Kv.Replica.{Element, read}
use cs.Kv.Coordinator.State.{
  Coordinator, PendingRead, ServerLink, Sent, to_client, to_all_unchecked, dec32, send,
}
use cs.Kv.Coordinator.Client.{Draw, or_default, handle_get, post_read_repair, start_read}
use cs.Kv.Coordinator.Server.{handle_read_complete, newest}
use cs.Kv.Coordinator.Acks.{replies, replies-append, reply_if}

replies-to_all_unchecked :
    (msg : ServerMessage) (channels : List (Option ServerLink)) (sent : List Sent)
    → to_all_unchecked msg channels ≡ ok sent
    → replies sent ≡ []
unfolding to_all_unchecked
replies-to_all_unchecked msg [] sent h = cc
replies-to_all_unchecked msg (none ∷ channels) sent h = absurd (cc h)
replies-to_all_unchecked msg (some link ∷ channels) sent h =
    let (rest, done, same) = >>=-eq-ok (to_all_unchecked msg channels) _ h in
    ground (arith, ok-injective same, replies-to_all_unchecked msg channels rest done)

module _ ⦃tm : TimeOps⦄ where
  -- Answers to one read: the time and the value that a replica holds, and its number.
  unfoldable pub completions :
      String → List (Timestamp × String × ℕ) → Coordinator → Outcome Coordinator
  completions uuid [] s = ok s
  completions uuid ((timestamp, val, from) ∷ rest) s = do
    s' ← handle_read_complete uuid timestamp val from s
    completions uuid rest s'

  abbrev Alone : PendingRead → Element → Type 0
  Alone p e = p.results ≡ (e.timestamp, e.content) ∷ []

  abbrev counted : String → PendingRead → Coordinator → Coordinator
  counted uuid p s = record s {
    pending_reads = put uuid (record p { consistency = dec32 p.consistency }) s.pending_reads;
  }

  complete_once :
      (uuid : String) (timestamp : Timestamp) (val : String) (from : ℕ) (p : PendingRead)
      (e : Element) (s : Coordinator)
      → lookup uuid s.pending_reads ≡ some p
      → Alone p e
      → (s' : Coordinator) × (handle_read_complete uuid timestamp val from s ≡ ok s')
        × (lookup uuid s'.pending_reads ≡ some (record p { consistency = dec32 p.consistency }))
        × (replies s'.sent
            ≡ replies s.sent
              ++ reply_if (p.consistency == 1) (p.requestor, get_key_resp p.stream p.key e.content))
  unfolding handle_read_complete newest
  complete_once uuid timestamp val from p e s pending alone =
      let found =
        lookup-put uuid uuid (record p { consistency = dec32 p.consistency }) s.pending_reads in
      elim (Bool-cases (p.consistency == 1)) [
        | inl last ↦ (
          send (to_client p.requestor (get_key_resp p.stream p.key e.content)) (counted uuid p s),
          ground (arith, pending, alone, tm.before_irrefl e.timestamp),
          ground (arith, found, beq_refl uuid),
          ground (
            arith,
            last,
            replies-append s.sent
                (to_client p.requestor (get_key_resp p.stream p.key e.content) ∷ []),
          ),
        )
        | inr more ↦ (
          counted uuid p s,
          ground (arith, pending),
          ground (arith, found, beq_refl uuid),
          ground (arith, more, append-nil (replies s.sent)),
        )
      ]

  completions_reply :
      (uuid : String) (answers : List (Timestamp × String × ℕ)) (p : PendingRead) (e : Element)
      (s : Coordinator)
      → lookup uuid s.pending_reads ≡ some p
      → Alone p e
      → p.consistency < 2 ^ 32
      → length answers < 2 ^ 32
      → (s' : Coordinator) × (completions uuid answers s ≡ ok s')
        × (replies s'.sent
            ≡ replies s.sent
              ++ reply_if
                  (leb 1 p.consistency && leb p.consistency (length answers))
                  (p.requestor, get_key_resp p.stream p.key e.content))
  unfolding completions
  completions_reply uuid [] p e s pending alone small few =
      (s, refl, ground (arith, append-nil (replies s.sent)))
  completions_reply uuid ((timestamp, val, from) ∷ rest) p e s pending alone small few =
      let (s₁, first, pending₁, sent₁) =
        complete_once uuid timestamp val from p e s pending alone in
      let (s', done, sent) =
        completions_reply uuid rest (record p { consistency = dec32 p.consistency }) e s₁ pending₁
          alone (omega arith) (omega arith) in
      (
        s',
        rw (first, completions) done,
        ground (
          arith,
          sent,
          sent₁,
          append-nil (replies s.sent),
          append-nil (replies s.sent ++ (p.requestor, get_key_resp p.stream p.key e.content) ∷ []),
        ),
      )

  abbrev asked : GetKey → ℕ → Element → PendingRead
  asked msg from e = record {
    stream = msg.stream;
    key = msg.key;
    consistency = dec32 msg.consistency;
    requestor = from;
    results = (e.timestamp, e.content) ∷ [];
  }

  post_read_repair_keeps :
      (key : ℕ) (s : Coordinator)
      → ((post_read_repair key s).sent ≡ s.sent)
        × ((post_read_repair key s).pending_reads ≡ s.pending_reads)
  unfolding post_read_repair
  post_read_repair_keeps key s = ground arith

  start_read_lem :
      (draw : Draw) (msg : GetKey) (from : ℕ) (e : Element) (s s' : Coordinator)
      → start_read draw msg from e s ≡ ok s'
      → lookup draw.uuid s.pending_reads ≡ none
      → (lookup draw.uuid s'.pending_reads ≡ some (asked msg from e))
        × (replies s'.sent ≡ replies s.sent)
  unfolding start_read
  start_read_lem draw msg from e s s' h fresh =
      let (reads, done, same) =
        >>=-eq-ok (to_all_unchecked (do_read draw.uuid msg.key) s.channels) _ h in
      (
        ground (
          arith,
          ok-injective same,
          fresh,
          lookup-emplace draw.uuid draw.uuid (asked msg from e) s.pending_reads,
          beq_refl draw.uuid,
        ),
        ground (
          arith,
          ok-injective same,
          replies-append s.sent reads,
          replies-to_all_unchecked (do_read draw.uuid msg.key) s.channels reads done,
          append-nil (replies s.sent),
        ),
      )

  -- A get with a consistency k other than 1 and a new uuid is answered once if at least k - 1
  -- replicas answer and k is not 0, and never otherwise; and the value is the one that this server
  -- held at the key when the get came, whatever values and times the others answer with.
  pub get_answered_locally :
      (draw : Draw) (msg : GetKey) (from : ℕ) (s s' : Coordinator) (found : Option Element)
      (answers : List (Timestamp × String × ℕ))
      → handle_get draw msg from s ≡ ok s'
      → read s.replica msg.key ≡ ok found
      → lookup draw.uuid s.pending_reads ≡ none
      → msg.consistency ≢ 1
      → msg.consistency < 2 ^ 32
      → length answers + 1 < 2 ^ 32
      → (t : Coordinator) × (completions draw.uuid answers s' ≡ ok t)
        × (replies t.sent
            ≡ replies s.sent
              ++ reply_if
                  (leb 2 msg.consistency && leb msg.consistency (length answers + 1))
                  (from, get_key_resp msg.stream msg.key (or_default found).content))
  unfolding handle_get
  get_answered_locally draw msg from s s' found answers taken held fresh several small few =
      let e = or_default found in
      let kept = post_read_repair_keeps msg.key s in
      let begun : start_read draw msg from e (post_read_repair msg.key s) ≡ ok s' =
        ground (arith, held, taken) in
      let (pending, sent₁) =
        start_read_lem draw msg from e (post_read_repair msg.key s) s' begun
          (ap (lookup draw.uuid) kept.1 ∙ fresh) in
      let (t, done, sent) =
        completions_reply draw.uuid answers (asked msg from e) e s' pending refl (omega arith)
          (omega arith) in
      (t, done, ground (arith, sent, sent₁, kept, append-nil (replies s.sent)))
