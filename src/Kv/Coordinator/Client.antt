-- ===== src/Kv/Coordinator/Client.antt =====
-- Requests of clients (kv/server/src/coordinator.cpp). `strand.dispatch` runs its task at once: the
-- one thread that runs the `io_service` is not in the strand. The uuid and the time that a handler
-- draws are arguments.
use cs.Prelude.{ℕ, String, Option, none, some, [], ◌∷◌, ◌++◌, length, ◌==◌, if◌then◌else◌}
use cs.Prelude.Eq.{string_eq}
use cs.Prelude.Dict.{emplace}
use cs.Prelude.Outcome.{Outcome, ok, ◌>>=◌}
use cs.Kv.Messages.{
  Timestamp, zero_time, TimeOps, GetKey, PutKey, do_write, do_read, read_repair, ClientMessage,
  get_key, get_key_resp, put_key, put_key_resp,
}
use cs.Kv.Replica.{Element, read, write}
use cs.Kv.Coordinator.State.{
  Coordinator, to_client, dec32, is_read_repair, is_hinted_handoff, send, broadcast,
  to_all_unchecked,
}
use cs.Kv.Coordinator.Hints.{add_hints}

-- What is drawn while a handler runs.
pub record Draw : Type 0 where
  pub uuid : String
  pub now : Timestamp

abbrev pub or_default : Option Element → Element
or_default none = record { content = ""; timestamp = zero_time }
or_default (some e) = e

-- `m_io_service.post` of the read repair
unfoldable pub post_read_repair : ℕ → Coordinator → Coordinator
post_read_repair key s =
    if is_read_repair s.config.mode then record s { posts = s.posts ++ key ∷ [] } else s

-- The task on `m_pending_read_strand`.
unfoldable pub start_read : Draw → GetKey → ℕ → Element → Coordinator → Outcome Coordinator
start_read draw msg from element s = do
  reads ← to_all_unchecked (do_read draw.uuid msg.key) s.channels
  ok (record s {
    pending_reads =
        emplace draw.uuid
          (record {
            stream = msg.stream;
            key = msg.key;
            consistency = dec32 msg.consistency;
            requestor = from;
            results = (element.timestamp, element.content) ∷ [];
          })
          s.pending_reads;
    sent = s.sent ++ reads;
  })

unfoldable pub handle_get : Draw → GetKey → ℕ → Coordinator → Outcome Coordinator
unfolding post_read_repair start_read read
handle_get draw msg from s = do
  found ← read s.replica msg.key
  let element = or_default found
  let s' = post_read_repair msg.key s
  if msg.consistency == 1
      then ok (send (to_client from (get_key_resp msg.stream msg.key element.content)) s')
      else start_read draw msg from element s'

unfoldable pub queue_hints : ℕ → Coordinator → Coordinator
unfolding add_hints
queue_hints key s =
    if is_hinted_handoff s.config.mode
    then record s { hint_queue = s.hint_queue ++ add_hints (length s.hints) 0 key }
    else s

-- The task on `m_pending_write_strand`.
unfoldable pub start_write : Draw → PutKey → ℕ → Coordinator → Coordinator
unfolding broadcast
start_write draw msg from s =
    let s₁ = record s {
      pending_writes =
          emplace draw.uuid
            (record {
              stream = msg.stream;
              key = msg.key;
              consistency = dec32 msg.consistency;
              requestor = from;
            })
            s.pending_writes;
    } in
    let s₂ =
      if msg.consistency == 1
      then send (to_client from (put_key_resp msg.stream msg.key)) s₁
      else s₁ in
    broadcast
      (do_write (record { uuid = draw.uuid; key = msg.key; timestamp = draw.now; val = msg.val }))
      s₂

-- A broadcast that `handle_get` posted.
unfoldable pub run_post : Coordinator → Coordinator
unfolding broadcast
run_post s = elim s.posts [
  | [] ↦ s
  | key ∷ rest ↦ broadcast (read_repair key) (record s { posts = rest })
]

module _ ⦃tm : TimeOps⦄ where
  unfoldable pub handle_put : Draw → PutKey → ℕ → Coordinator → Outcome Coordinator
  unfolding write queue_hints start_write
  handle_put draw msg from s = do
    replica ← write s.replica msg.key msg.val draw.now
    ok (start_write draw msg from (queue_hints msg.key (record s { replica = replica })))

  -- An invalid message is only reported on the terminal.
  unfoldable pub client_handler : Draw → ClientMessage → ℕ → Coordinator → Outcome Coordinator
  unfolding handle_get handle_put
  client_handler draw (get_key msg) from s = handle_get draw msg from s
  client_handler draw (put_key msg) from s = handle_put draw msg from s
  client_handler draw ClientMessage.unset from s = ok s
  client_handler draw (get_key_resp stream key val) from s = ok s
  client_handler draw (put_key_resp stream key) from s = ok s
