-- ===== src/Kv/Coordinator/Server.antt =====
-- Messages of other servers, and the channels to them (kv/server/src/coordinator.cpp).
use cs.Prelude.{
  ℕ, suc, String, Option, none, some, List, [], ◌∷◌, ◌++◌, ◌==◌, ◌&&◌, ◌||◌, not, if◌then◌else◌,
  get_elem?,
}
use cs.Prelude.Eq.{string_eq, nat_eq, beq, bytes_eq}
use cs.Prelude.Decimal.{codes, decimal}
use cs.Prelude.Dict.{lookup, put}
use cs.Prelude.Outcome.{Outcome, ok, fault, undefined, out_of_range, runtime_error, or_fault, ◌>>=◌}
use cs.Kv.Messages.{
  Timestamp, TimeOps, DoWrite, ServerMessage, intro, do_write, write_complete, do_read,
  read_complete, read_repair, read_repair_response, get_key_resp, put_key_resp,
}
use cs.Kv.Replica.{read, write}
use cs.Kv.Coordinator.State.{
  Coordinator, dropped, PendingWrite, ServerLink, outgoing, accepted, to_client, to_server, dec32,
  is_hinted_handoff, send, broadcast,
}
use cs.Kv.Coordinator.Client.{or_default}

unfoldable pub handle_read_repair : ℕ → ServerLink → Coordinator → Outcome Coordinator
unfolding read
handle_read_repair key from s = do
  found ← read s.replica key
  let element = or_default found
  ok (send (to_server from (read_repair_response key element.timestamp element.content)) s)

-- The task on `m_pending_write_strand`, once it has found the pending write.
unfoldable pub acknowledge : String → ℕ → PendingWrite → Coordinator → Coordinator
acknowledge uuid from pending s =
    let replied =
      if pending.consistency == 1
      then send (to_client pending.requestor (put_key_resp pending.stream pending.key)) s
      else s in
    let counted = record replied {
      pending_writes =
          put uuid (record pending { consistency = dec32 pending.consistency }) s.pending_writes;
    } in
    if is_hinted_handoff s.config.mode
    then record counted { hint_queue = s.hint_queue ++ dropped from pending.key ∷ [] }
    else counted

unfoldable pub handle_write_complete : String → ℕ → Coordinator → Outcome Coordinator
unfolding acknowledge
handle_write_complete uuid from s = do
  pending ← or_fault (lookup uuid s.pending_writes) out_of_range
  ok (acknowledge uuid from pending s)

unfoldable pub handle_do_read : String → ℕ → ServerLink → Coordinator → Outcome Coordinator
unfolding read
handle_do_read uuid key link s = do
  found ← read s.replica key
  let element = or_default found
  ok (send (to_server link (read_complete uuid element.timestamp element.content)) s)

-- The loop over a search of `m_config.replicas()`, from number i on.
unfoldable pub find_replica : String → ℕ → List (String × String) → ℕ → Option ℕ
unfolding decimal
find_replica ip port [] i = none
find_replica ip port ((ip', port') ∷ replicas) i =
    if beq ip ip' && bytes_eq (decimal port) (codes port')
    then some i
    else find_replica ip port replicas (suc i)

abbrev pub introduce : ℕ → Option ℕ → Coordinator → Outcome Coordinator
introduce channel none s = fault (runtime_error "Invalid introduction")
introduce channel (some id) s = ok (record s { introduced = put channel id s.introduced })

-- A message on accepted channel `channel` before its handler is replaced.
unfoldable pub unintroduced_msg_handler : ServerMessage → ℕ → Coordinator → Outcome Coordinator
unfolding find_replica
unintroduced_msg_handler (intro ip port) channel s =
    introduce channel (find_replica ip port s.config.replicas 0) s
unintroduced_msg_handler _ channel s = fault (runtime_error "Replica failed to introduce self")

-- The keys from number i on whose counter is not zero and that the replica holds.
unfoldable pub handoff : Coordinator → ServerLink → List ℕ → ℕ → Outcome (List DoWrite)
unfolding read
handoff s from [] i = ok []
handoff s from (count ∷ row) i = do
  rest ← handoff s from row (suc i)
  if count == 0 then ok rest else do
    found ← read s.replica i
    ok (elim found [
      | none ↦ rest
      | some e ↦ record { uuid = "RR"; key = i; timestamp = e.timestamp; val = e.content } ∷ rest
    ])

abbrev pub send_writes : ServerLink → List DoWrite → Coordinator → Coordinator
send_writes from [] s = s
send_writes from (msg ∷ msgs) s = send_writes from msgs (send (to_server from (do_write msg)) s)

-- `recon_handler` of the outgoing channel number `id`.
unfoldable pub recon_handler : ℕ → ServerLink → Coordinator → Outcome Coordinator
unfolding handoff
recon_handler id from s =
    let s' = send (to_server from (intro s.config.listen_ip s.config.listen_port)) s in
    if is_hinted_handoff s.config.mode
    then (do
      row ← or_fault (get_elem? s.hints id) undefined
      msgs ← handoff s from row 0
      ok (send_writes from msgs s'))
    else ok s'

-- `initialize_outgoing`: one channel for each replica, numbered from `id` on.
unfoldable pub initialize_outgoing : List (String × String) → ℕ → Coordinator → Coordinator
initialize_outgoing [] id s = s
initialize_outgoing (_ ∷ replicas) id s =
    initialize_outgoing replicas (suc id)
      (record s { channels = s.channels ++ some (outgoing id) ∷ [] })

module _ ⦃tm : TimeOps⦄ where
  -- The first branch of `handle_read_repair_response`.
  unfoldable pub adopt : ℕ → Timestamp → String → Coordinator → Outcome Coordinator
  unfolding write broadcast
  adopt key timestamp val s = do
    replica ← write s.replica key val timestamp
    ok (
        broadcast (do_write (record { uuid = "RR"; key = key; timestamp = timestamp; val = val }))
          (record s { replica = replica }))

  unfoldable pub handle_read_repair_response :
      ℕ → Timestamp → String → ServerLink → Coordinator → Outcome Coordinator
  unfolding read adopt
  handle_read_repair_response key timestamp val from s = do
    my_copy ← read s.replica key
    elim my_copy [
      | none ↦ adopt key timestamp val s
      | some mine ↦
          if tm.before mine.timestamp timestamp
          then adopt key timestamp val s
          else if tm.before timestamp mine.timestamp || not (beq mine.content val)
          then ok (
              send
                (to_server from (
                  do_write (record {
                    uuid = "RR";
                    key = key;
                    timestamp = mine.timestamp;
                    val = mine.content;
                  })))
                s)
          else ok s
    ]

  unfoldable pub handle_do_write : DoWrite → ServerLink → ℕ → Coordinator → Outcome Coordinator
  unfolding write
  handle_do_write msg link from s = do
    replica ← write s.replica msg.key msg.val msg.timestamp
    let s' = record s { replica = replica }
    if beq msg.uuid "RR" then ok s' else do
      channel ← or_fault (get_elem? s.channels from) undefined
      to ← or_fault channel undefined
      ok (send (to_server to (write_complete msg.uuid)) s')

  -- The loop over `pending.results`: the newest, and the first of those.
  unfoldable pub newest : Timestamp × String → List (Timestamp × String) → Timestamp × String
  newest result [] = result
  newest result ((stamp, val) ∷ results) =
      newest (if tm.before result.0 stamp then (stamp, val) else result) results

  abbrev newest_of : List (Timestamp × String) → Outcome (Timestamp × String)
  newest_of [] = fault undefined
  newest_of (first ∷ rest) = ok (newest first (first ∷ rest))

  -- The task on `m_pending_read_strand`. The message's own value and time are not used.
  unfoldable pub handle_read_complete :
      String → Timestamp → String → ℕ → Coordinator → Outcome Coordinator
  unfolding newest
  handle_read_complete uuid timestamp val from s = do
    pending ← or_fault (lookup uuid s.pending_reads) out_of_range
    let counted = record s {
      pending_reads =
          put uuid (record pending { consistency = dec32 pending.consistency }) s.pending_reads;
    }
    if pending.consistency == 1
        then (do
          result ← newest_of pending.results
          ok (
              send (to_client pending.requestor (get_key_resp pending.stream pending.key result.1))
                counted))
        else ok counted

  -- An unknown message is only reported on the terminal.
  unfoldable pub server_msg_handler :
      ServerMessage → ServerLink → ℕ → Coordinator → Outcome Coordinator
  unfolding handle_do_write handle_write_complete handle_do_read handle_read_complete
      handle_read_repair handle_read_repair_response
  server_msg_handler (intro ip port) link id s = fault (runtime_error "Double introduction")
  server_msg_handler (do_write msg) link id s = handle_do_write msg link id s
  server_msg_handler (write_complete uuid) link id s = handle_write_complete uuid id s
  server_msg_handler (do_read uuid key) link id s = handle_do_read uuid key link s
  server_msg_handler (read_complete uuid timestamp val) link id s =
      handle_read_complete uuid timestamp val id s
  server_msg_handler (read_repair key) link id s = handle_read_repair key link s
  server_msg_handler (read_repair_response key timestamp val) link id s =
      handle_read_repair_response key timestamp val link s
  server_msg_handler ServerMessage.unset link id s = ok s

  -- What arrives on an accepted channel: its handler is `server_msg_handler` once the peer has
  -- introduced itself.
  unfoldable pub accepted_msg : ServerMessage → ℕ → Coordinator → Outcome Coordinator
  unfolding unintroduced_msg_handler server_msg_handler
  accepted_msg msg channel s = elim (lookup channel s.introduced) [
    | none ↦ unintroduced_msg_handler msg channel s
    | some id ↦ server_msg_handler msg (accepted channel) id s
  ]
