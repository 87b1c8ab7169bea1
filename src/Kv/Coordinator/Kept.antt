-- ===== src/Kv/Coordinator/Kept.antt =====
-- What a coordinator has written stays written, whatever happens next (handle_put, handle_do_write and
-- handle_read_repair_response of kv/server/src/coordinator.cpp).
use cs.Prelude.{
  ℕ, ◌≡◌, ◌⊎◌, refl, ◌∙◌, String, true, some, List, [], ◌∷◌, arith, get_elem?, Bool-cases,
  Option-cases, inl, inr,
}
use cs.Prelude.Eq.{string_eq, nat_eq}
use cs.Prelude.Dict.{lookup}
use cs.Prelude.Outcome.{ok, undefined, or_fault, ok-injective, >>=-eq-ok}
use cs.Kv.Messages.{
  Timestamp, TimeOps, DoWrite, ServerMessage, ClientMessage, PutKey, do_write, do_read,
  read_repair_response, get_key, put_key, intro,
}
use cs.Kv.Replica.{Element, Replica, read, write, run_update}
use cs.Kv.Replica.Kept.{keeps, write-keeps, write-keeps_own, run_update-keeps, keeps-read}
use cs.Kv.Coordinator.State.{
  Coordinator, ServerLink, outgoing, accepted, is_hinted_handoff, send, to_server,
}
use cs.Kv.Coordinator.Client.{
  Draw, handle_get, handle_put, queue_hints, start_write, client_handler, run_post,
}
use cs.Kv.Coordinator.Hints.{run_hint}
use cs.Kv.Coordinator.Server.{
  handle_do_write, handle_read_repair_response, adopt, accepted_msg, unintroduced_msg_handler,
  find_replica, server_msg_handler, recon_handler, handoff, send_writes,
}
use cs.Kv.Coordinator.Events.{
  Event, from_client, on_accepted, on_outgoing, connected, post_runs, hint_runs, update_runs, step,
  run,
}

module _ ⦃tm : TimeOps⦄ where
  -- A handler leaves the replica as it is, or makes one write.
  abbrev Moves : Replica → Replica → Type 0
  Moves r r' =
      (r' ≡ r)
      ⊎ ((key : ℕ) × (content : String) × (time : Timestamp) × (write r key content time ≡ ok r'))

  Moves-keeps :
      (r r' : Replica) (key : ℕ) (time : Timestamp)
      → Moves r r'
      → keeps key time r ≡ true
      → keeps key time r' ≡ true
  Moves-keeps r r' key time (inl same) kept = rw same kept
  Moves-keeps r r' key time (inr (k, content, t, written)) kept =
      write-keeps r r' key k content time t written kept

  put_writes :
      (draw : Draw) (msg : PutKey) (from : ℕ) (s s' : Coordinator)
      → handle_put draw msg from s ≡ ok s'
      → write s.replica msg.key msg.val draw.now ≡ ok s'.replica
  unfolding handle_put queue_hints start_write
  put_writes draw msg from s s' h =
      let (replica, written, same) = >>=-eq-ok (write s.replica msg.key msg.val draw.now) _ h in
      written ∙ ground (arith, ok-injective same)

  do_write_writes :
      (msg : DoWrite) (link : ServerLink) (from : ℕ) (s s' : Coordinator)
      → handle_do_write msg link from s ≡ ok s'
      → write s.replica msg.key msg.val msg.timestamp ≡ ok s'.replica
  unfolding handle_do_write
  do_write_writes msg link from s s' h =
      let (replica, written, rest) =
        >>=-eq-ok (write s.replica msg.key msg.val msg.timestamp) _ h in
      written ∙ ground (arith, rest)

  adopt_writes :
      (key : ℕ) (time : Timestamp) (val : String) (s s' : Coordinator)
      → adopt key time val s ≡ ok s'
      → write s.replica key val time ≡ ok s'.replica
  unfolding adopt
  adopt_writes key time val s s' h =
      let (replica, written, rest) = >>=-eq-ok (write s.replica key val time) _ h in
      written ∙ ground (arith, ok-injective rest)

  client_handler-Moves :
      (draw : Draw) (msg : ClientMessage) (from : ℕ) (s s' : Coordinator)
      → client_handler draw msg from s ≡ ok s'
      → Moves s.replica s'.replica
  unfolding client_handler
  client_handler-Moves draw (put_key msg) from s s' h =
      inr (msg.key, msg.val, draw.now, put_writes draw msg from s s' h)
  client_handler-Moves draw (get_key msg) from s s' h = inl (unfold handle_get in ground arith)
  client_handler-Moves draw msg from s s' h = inl (ground arith)

  repair-Moves :
      (key : ℕ) (time : Timestamp) (val : String) (link : ServerLink) (s s' : Coordinator)
      → handle_read_repair_response key time val link s ≡ ok s'
      → Moves s.replica s'.replica
  unfolding handle_read_repair_response
  repair-Moves key time val link s s' h =
      let (my_copy, found, h₁) = >>=-eq-ok (read s.replica key) _ h in
      elim (Option-cases my_copy) [
        | inl missing ↦ inr (key, val, time, adopt_writes key time val s s' (rw missing at h₁))
        | inr (mine, there) ↦ elim (Bool-cases (tm.before mine.timestamp time)) [
          | inl older ↦
              inr (key, val, time, adopt_writes key time val s s' (rw (there, older) at h₁))
          | inr level ↦ inl (ground (arith, there, level, h₁))
        ]
      ]

  server_msg_handler-Moves :
      (msg : ServerMessage) (link : ServerLink) (id : ℕ) (s s' : Coordinator)
      → server_msg_handler msg link id s ≡ ok s'
      → Moves s.replica s'.replica
  unfolding server_msg_handler
  server_msg_handler-Moves (do_write msg) link id s s' h =
      inr (msg.key, msg.val, msg.timestamp, do_write_writes msg link id s s' h)
  server_msg_handler-Moves (read_repair_response key time val) link id s s' h =
      repair-Moves key time val link s s' h
  server_msg_handler-Moves (do_read uuid key) link id s s' h = inl (ground arith)
  server_msg_handler-Moves msg link id s s' h = inl (ground arith)

  unintroduced-Moves :
      (msg : ServerMessage) (channel : ℕ) (s s' : Coordinator)
      → unintroduced_msg_handler msg channel s ≡ ok s'
      → Moves s.replica s'.replica
  unfolding unintroduced_msg_handler
  unintroduced-Moves (intro ip port) channel s s' h =
      elim (Option-cases (find_replica ip port s.config.replicas 0)) [
        | inl unknown ↦ absurd (ground (arith, unknown, h))
        | inr (id, there) ↦ inl (ground (arith, there, h))
      ]
  unintroduced-Moves (do_read uuid key) channel s s' h = cc h
  unintroduced-Moves msg channel s s' h = cc h

  accepted_msg-Moves :
      (msg : ServerMessage) (channel : ℕ) (s s' : Coordinator)
      → accepted_msg msg channel s ≡ ok s'
      → Moves s.replica s'.replica
  unfolding accepted_msg
  accepted_msg-Moves msg channel s s' h = elim (Option-cases (lookup channel s.introduced)) [
    | inl new ↦ unintroduced-Moves msg channel s s' (rw (new, accepted_msg) at h)
    | inr (id, there) ↦
        server_msg_handler-Moves msg (accepted channel) id s s' (rw (there, accepted_msg) at h)
  ]

  send_writes_replica :
      (link : ServerLink) (msgs : List DoWrite) (s : Coordinator)
      → (send_writes link msgs s).replica ≡ s.replica
  send_writes_replica link [] s = refl
  send_writes_replica link (msg ∷ msgs) s =
      send_writes_replica link msgs (send (to_server link (do_write msg)) s)

  recon_handler-Moves :
      (id : ℕ) (link : ServerLink) (s s' : Coordinator)
      → recon_handler id link s ≡ ok s'
      → Moves s.replica s'.replica
  unfolding recon_handler
  recon_handler-Moves id link s s' h =
      let greeted = send (to_server link (intro s.config.listen_ip s.config.listen_port)) s in
      elim (Bool-cases (is_hinted_handoff s.config.mode)) [
        | inl on ↦
            let (row, found, h₁) =
              >>=-eq-ok (or_fault (get_elem? s.hints id) undefined) _
                (rw (on, recon_handler) at h) in
            let (msgs, listed, h₂) = >>=-eq-ok (handoff s link row 0) _ h₁ in
            inl (ground (arith, ok-injective h₂, send_writes_replica link msgs greeted))
        | inr off ↦ inl (ground (arith, off))
      ]

  step-keeps :
      (event : Event) (s s' : Coordinator) (key : ℕ) (time : Timestamp)
      → step event s ≡ ok s'
      → keeps key time s.replica ≡ true
      → keeps key time s'.replica ≡ true
  unfolding step
  step-keeps (from_client draw msg from) s s' key time h kept =
      Moves-keeps s.replica s'.replica key time (client_handler-Moves draw msg from s s' h) kept
  step-keeps (on_accepted msg channel) s s' key time h kept =
      Moves-keeps s.replica s'.replica key time (accepted_msg-Moves msg channel s s' h) kept
  step-keeps (on_outgoing msg id) s s' key time h kept =
      Moves-keeps s.replica s'.replica key time
        (server_msg_handler-Moves msg (outgoing id) id s s' h) kept
  step-keeps (connected id) s s' key time h kept =
      Moves-keeps s.replica s'.replica key time (recon_handler-Moves id (outgoing id) s s' h) kept
  step-keeps post_runs s s' key time h kept = unfold run_post in ground (arith, kept)
  step-keeps hint_runs s s' key time h kept = unfold run_hint in ground (arith, kept)
  step-keeps (update_runs attempts) s s' key time h kept =
      elim (Option-cases (run_update attempts s.replica)) [
        | inl idle ↦ ground (arith, idle, kept, ok-injective h)
        | inr (r, ran) ↦
            let after =
              run_update-keeps attempts s.replica r key time s.replica.queued refl ran kept in
            rw (← ok-injective h, ran) after
      ]

  pub run-keeps :
      (events : List Event) (s t : Coordinator) (key : ℕ) (time : Timestamp)
      → run events s ≡ ok t
      → keeps key time s.replica ≡ true
      → keeps key time t.replica ≡ true
  unfolding run
  run-keeps [] s t key time h kept = rw (← ok-injective h) kept
  run-keeps (event ∷ events) s t key time h kept =
      let (s', stepped, rest) = >>=-eq-ok (step event s) _ h in
      run-keeps events s' t key time rest (step-keeps event s s' key time stepped kept)

  -- A put of a client, or a write of another server, of this key and time.
  pub data Takes (s s' : Coordinator) : ℕ → Timestamp → Type 0 where
    puts :
        (draw : Draw) (msg : PutKey) (from : ℕ)
        → handle_put draw msg from s ≡ ok s'
        → Takes s s' msg.key draw.now
    writes :
        (msg : DoWrite) (link : ServerLink) (from : ℕ)
        → handle_do_write msg link from s ≡ ok s'
        → Takes s s' msg.key msg.timestamp

  pub Takes-keeps :
      (s s' : Coordinator) (key : ℕ) (time : Timestamp)
      → Takes s s' key time
      → keeps key time s'.replica ≡ true
  Takes-keeps s s' _ _ (puts draw msg from h) =
      write-keeps_own s.replica s'.replica msg.key msg.val draw.now
        (put_writes draw msg from s s' h)
  Takes-keeps s s' _ _ (writes msg link from h) =
      write-keeps_own s.replica s'.replica msg.key msg.val msg.timestamp
        (do_write_writes msg link from s s' h)

  -- Once a server has taken a put or a write, which it acknowledges at once, then whatever messages
  -- come, channels connect and tasks run after it, with whatever interference: when no update waits
  -- any more, a read of the key has an element that is not older.
  pub acknowledged_kept :
      (s s' t : Coordinator) (key : ℕ) (time : Timestamp) (events : List Event)
      → Takes s s' key time
      → run events s' ≡ ok t
      → t.replica.queued ≡ []
      → (e : Element) × (read t.replica key ≡ ok (some e)) × (tm.not_after time e.timestamp ≡ true)
  acknowledged_kept s s' t key time events taken h idle =
      keeps-read t.replica key time idle
        (run-keeps events s' t key time h (Takes-keeps s s' key time taken))
