-- ===== src/Kv/Coordinator/Quorum.antt =====
-- How many servers keep a write that a client has been told of (handle_put, handle_write_complete and
-- handle_do_write of kv/server/src/coordinator.cpp).
use cs.Prelude.{
  ℕ, suc, ◌+◌, ◌^◌, ◌<◌, ◌≤◌, ◌≡◌, refl, ap, ◌∙◌, String, Bool, true, false, none, some, List, [],
  ◌∷◌, ◌++◌, ◌&&◌, leb, map, length, All, arith,
}
use cs.Prelude.Eq.{string_eq}
use cs.Prelude.Dict.{lookup}
use cs.Prelude.Outcome.{ok, or_fault, out_of_range, ok-injective, >>=-eq-ok}
use cs.Kv.Messages.{Timestamp, TimeOps, DoWrite, PutKey, ClientMessage, put_key_resp}
use cs.Kv.Replica.{Element, read}
use cs.Kv.Replica.Kept.{keeps-read}
use cs.Kv.Coordinator.State.{Coordinator, ServerLink}
use cs.Kv.Coordinator.Client.{Draw, handle_put}
use cs.Kv.Coordinator.Server.{acknowledge, handle_write_complete, handle_do_write}
use cs.Kv.Coordinator.Events.{Event, run}
use cs.Kv.Coordinator.Acks.{acks, replies, reply_if, put_answered_once}
use cs.Kv.Coordinator.Kept.{Takes-keeps, run-keeps, acknowledged_kept, puts, writes}

acks_replica :
    (uuid : String) (froms : List ℕ) (s t : Coordinator)
    → acks uuid froms s ≡ ok t
    → t.replica ≡ s.replica
unfolding acks handle_write_complete acknowledge
acks_replica uuid [] s t h = ground (arith, ok-injective h)
acks_replica uuid (from ∷ froms) s t h =
    let (s', acked, rest) = >>=-eq-ok (handle_write_complete uuid from s) _ h in
    let (pending, there, done) =
      >>=-eq-ok (or_fault (lookup uuid s.pending_writes) out_of_range) _ acked in
    acks_replica uuid froms s' t rest ∙ ground (arith, ok-injective done)

length-map_lem : {A B : Type 0} (f : A → B) (xs : List A) → length (map f xs) ≡ length xs
length-map_lem f [] = refl
length-map_lem f (x ∷ xs) = ap suc (length-map_lem f xs)

reply_if-sent :
    (xs : List (ℕ × ClientMessage)) (b : Bool) (r : ℕ × ClientMessage)
    → xs ++ reply_if b r ≡ xs ++ r ∷ []
    → b ≡ true
reply_if-sent [] false r h = cc h
reply_if-sent [] true r h = refl
reply_if-sent (x ∷ xs) b r h = reply_if-sent xs b r (cc h)

-- Another server: what it is when the write reaches it, after it, and when it is looked at.
pub record Peer : Type 0 where
  pub id : ℕ
  pub link : ServerLink
  pub from : ℕ
  pub before : Coordinator
  pub after : Coordinator
  pub final : Coordinator
  pub later : List Event

abbrev write_of : Draw → PutKey → DoWrite
write_of draw msg = record { uuid = draw.uuid; key = msg.key; timestamp = draw.now; val = msg.val }

module _ ⦃tm : TimeOps⦄ where
  -- A server that has handled the write, which sends its acknowledgement, and then whatever came.
  pub record Acked (msg : DoWrite) (p : Peer) : Type 0 where
    pub took : handle_do_write msg p.link p.from p.before ≡ ok p.after
    pub ran : run p.later p.after ≡ ok p.final
    pub idle : p.final.replica.queued ≡ []

  -- A read of the key has an element of that time or a later one.
  abbrev pub Holds : ℕ → Timestamp → Coordinator → Type 0
  Holds key time s =
      (e : Element) × (read s.replica key ≡ ok (some e)) × (tm.not_after time e.timestamp ≡ true)

  peers_hold :
      (draw : Draw) (msg : PutKey) (peers : List Peer)
      → All (Acked (write_of draw msg)) peers
      → All (Holds msg.key draw.now) (map (λ (p : Peer). p.final) peers)
  peers_hold draw msg [] acked = tt
  peers_hold draw msg (p ∷ peers) (a, acked) = (
    acknowledged_kept p.before p.after p.final msg.key draw.now p.later
        (writes (write_of draw msg) p.link p.from a.took) a.ran a.idle,
    peers_hold draw msg peers acked,
  )

  -- A put with a new uuid is acknowledged by servers that have handled its write. Where the client
  -- has then been answered, these servers and the one that took the put are at least as many as the
  -- put's consistency (a server counts once for each of its acknowledgements), and each of them,
  -- after whatever events and once no update waits in it, reads an element of the key that is not
  -- older than the put.
  pub answered_put_held :
      (draw : Draw) (msg : PutKey) (client : ℕ) (s s' t u : Coordinator) (peers : List Peer)
      (later : List Event)
      → handle_put draw msg client s ≡ ok s'
      → lookup draw.uuid s.pending_writes ≡ none
      → msg.consistency < 2 ^ 32
      → length peers + 1 < 2 ^ 32
      → All (Acked (write_of draw msg)) peers
      → acks draw.uuid (map (λ (p : Peer). p.id) peers) s' ≡ ok t
      → replies t.sent ≡ replies s.sent ++ (client, put_key_resp msg.stream msg.key) ∷ []
      → run later t ≡ ok u
      → u.replica.queued ≡ []
      → (msg.consistency ≤ length (u ∷ map (λ (p : Peer). p.final) peers))
        × All (Holds msg.key draw.now) (u ∷ map (λ (p : Peer). p.final) peers)
  answered_put_held draw msg client s s' t u peers later taken fresh small few acked came answered
        ran idle =
      let ids = map (λ (p : Peer). p.id) peers in
      let size : length ids ≡ length peers = length-map_lem (λ (p : Peer). p.id) peers in
      let (t', done, sent) =
        put_answered_once draw msg client s s' ids taken fresh small (omega (arith, size)) in
      let same : t' ≡ t = ok-injective (cc (done, came)) in
      let enough =
        reply_if-sent (replies s.sent)
          (leb 1 msg.consistency && leb msg.consistency (length ids + 1))
          (client, put_key_resp msg.stream msg.key) (cc (sent, same, answered)) in
      let kept = run-keeps later t u msg.key draw.now ran (
        rw (acks_replica draw.uuid ids s' t came)
          (Takes-keeps s s' msg.key draw.now (puts draw msg client taken))) in
      (
        ground (arith, enough, size, length-map_lem (λ (p : Peer). p.final) peers),
        (keeps-read u.replica msg.key draw.now idle kept, peers_hold draw msg peers acked),
      )
