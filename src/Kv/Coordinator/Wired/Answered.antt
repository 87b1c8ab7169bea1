-- ===== src/Kv/Coordinator/Wired/Answered.antt =====
-- On which channel a server acknowledges a write, in every state that it can reach
-- (kv/server/src/coordinator.cpp).
use cs.Prelude.{
  ℕ, ◌<◌, ◌≡◌, refl, ap, sym, subst, String, false, Option, some, List, [], ◌∷◌, length, arith,
  get_elem?, get_elem?-lt, Bool-cases, Option-cases, inl, inr,
}
use cs.Prelude.Eq.{string_eq, nat_eq, beq}
use cs.Prelude.Dict.{lookup, lookup-put}
use cs.Prelude.Outcome.{ok, ok-injective, >>=-eq-ok, or_fault, undefined}
use cs.Kv.Messages.{
  TimeOps, DoWrite, HintMessage, ServerMessage, do_read, do_write, intro, write_complete,
}
use cs.Kv.Config.{Config}
use cs.Kv.Replica.{Replica, write, run_update}
use cs.Kv.Replica
use cs.Kv.Coordinator.State.{
  Coordinator, ServerLink, outgoing, accepted, to_server, send, is_hinted_handoff,
}
use cs.Kv.Coordinator.Client.{run_post}
use cs.Kv.Coordinator.Server.{
  server_msg_handler, accepted_msg, recon_handler, handoff, send_writes, handle_do_write,
  find_replica, unintroduced_msg_handler,
}
use cs.Kv.Coordinator.Introduction.{First, at, missing, find_replica-First}
use cs.Kv.Coordinator.Events.{
  Event, from_client, on_accepted, on_outgoing, connected, post_runs, hint_runs, update_runs,
  updated, step, run, recon_handler-Spares,
}
use cs.Kv.Coordinator.Wired.{
  new, start, Wired, Keeps, Keeps-Wired, start-Wired, run_post-Keeps, run_hint-Keeps, updated-Keeps,
  server_msg_handler-Keeps, client_handler-Keeps,
}

send_writes_introduced :
    (link : ServerLink) (msgs : List DoWrite) (s : Coordinator)
    → (send_writes link msgs s).introduced ≡ s.introduced
send_writes_introduced link [] s = refl
send_writes_introduced link (msg ∷ msgs) s =
    send_writes_introduced link msgs (send (to_server link (do_write msg)) s)

recon_handler-Keeps :
    (id : ℕ) (link : ServerLink) (s s' : Coordinator) → recon_handler id link s ≡ ok s' → Keeps s s'
unfolding recon_handler
recon_handler-Keeps id link s s' h =
    let spared = recon_handler-Spares id link s s' h in
    let greeted = send (to_server link (intro s.config.listen_ip s.config.listen_port)) s in
    record {
      config = spared.config;
      channels = spared.channels;
      introduced = elim (Bool-cases (is_hinted_handoff s.config.mode)) [
        | inl on ↦
            let (row, found, h₁) =
              >>=-eq-ok (or_fault (get_elem? s.hints id) undefined) _
                (rw (on, recon_handler) at h) in
            let (msgs, listed, h₂) = >>=-eq-ok (handoff s link row 0) _ h₁ in
            ground (arith, ok-injective h₂, send_writes_introduced link msgs greeted)
        | inr off ↦ ground (arith, off)
      ];
    }

First_inside :
    (ip : String) (port : ℕ) (replicas : List (String × String)) (found : Option ℕ) (id : ℕ)
    → First ip port 0 replicas found
    → found ≡ some id
    → id < length replicas
First_inside ip port replicas _ id (missing none_there) h = absurd (cc h)
First_inside ip port replicas _ id (at i replica there it before) h =
    ground (arith, get_elem?-lt replicas i replica there, h)

unintroduced-Wired :
    (config : Config) (msg : ServerMessage) (channel : ℕ) (s s' : Coordinator)
    → unintroduced_msg_handler msg channel s ≡ ok s'
    → Wired config s
    → Wired config s'
unfolding unintroduced_msg_handler
unintroduced-Wired config (intro ip port) channel s s' h w =
    elim (Option-cases (find_replica ip port s.config.replicas 0)) [
      | inl unknown ↦ absurd (ground (arith, unknown, h))
      | inr (id, there) ↦
          let inside : id < length config.replicas = rw w.configured at (
            First_inside ip port s.config.replicas (find_replica ip port s.config.replicas 0) id
              (find_replica-First ip port s.config.replicas 0) there) in
          subst (Wired config) (ok-injective (rw (there, unintroduced_msg_handler) at h)) (record {
            configured = w.configured;
            opened = w.opened;
            known = λ other id' got.
                ground
                  (arith, inside, w.known other id', lookup-put channel other id s.introduced, got);
          })
    ]
unintroduced-Wired config (do_read uuid key) channel s s' h w = absurd (cc h)
unintroduced-Wired config msg channel s s' h w = absurd (cc h)

module _ ⦃tm : TimeOps⦄ where
  accepted_msg-Wired :
      (config : Config) (msg : ServerMessage) (channel : ℕ) (s s' : Coordinator)
      → accepted_msg msg channel s ≡ ok s'
      → Wired config s
      → Wired config s'
  unfolding accepted_msg
  accepted_msg-Wired config msg channel s s' h w =
      elim (Option-cases (lookup channel s.introduced)) [
        | inl fresh ↦ unintroduced-Wired config msg channel s s' (rw (fresh, accepted_msg) at h) w
        | inr (id, there) ↦
            Keeps-Wired config s s'
              (server_msg_handler-Keeps msg (accepted channel) id s s'
                (rw (there, accepted_msg) at h))
              w
      ]

  step-Wired :
      (config : Config) (event : Event) (s s' : Coordinator)
      → step event s ≡ ok s'
      → Wired config s
      → Wired config s'
  unfolding step
  step-Wired config (from_client draw msg from) s s' h w =
      Keeps-Wired config s s' (client_handler-Keeps draw msg from s s' h) w
  step-Wired config (on_accepted msg channel) s s' h w =
      accepted_msg-Wired config msg channel s s' h w
  step-Wired config (on_outgoing msg id) s s' h w =
      Keeps-Wired config s s' (server_msg_handler-Keeps msg (outgoing id) id s s' h) w
  step-Wired config (connected id) s s' h w =
      Keeps-Wired config s s' (recon_handler-Keeps id (outgoing id) s s' h) w
  step-Wired config post_runs s s' h w =
      subst (Wired config) (ok-injective h) (Keeps-Wired config s (run_post s) (run_post-Keeps s) w)
  step-Wired config hint_runs s s' h w = Keeps-Wired config s s' (run_hint-Keeps s s' h) w
  step-Wired config (update_runs attempts) s s' h w =
      let after = run_update attempts s.replica in
      subst (Wired config) (ok-injective h)
        (Keeps-Wired config s (updated after s) (updated-Keeps after s) w)

  run-Wired :
      (config : Config) (events : List Event) (s t : Coordinator)
      → run events s ≡ ok t
      → Wired config s
      → Wired config t
  unfolding run
  run-Wired config [] s t h w = subst (Wired config) (ok-injective h) w
  run-Wired config (event ∷ events) s t h w =
      let (s', stepped, rest) = >>=-eq-ok (step event s) _ h in
      run-Wired config events s' t rest (step-Wired config event s s' stepped w)

  -- In every state that a server reaches after its construction, its start and any events, the
  -- number of a server that has introduced itself is that of a replica of the configuration, and a
  -- write for a key of the store that comes from it, unless it is a repair, is queued and
  -- acknowledged on the channel that was opened to that replica: that channel is always there.
  pub write_acknowledged :
      (config : Config) (log : List DoWrite) (hint_log : List HintMessage) (s₀ s t : Coordinator)
      (events : List Event) (msg : DoWrite) (channel id : ℕ) (replica : Replica)
      → new config log hint_log ≡ ok s₀
      → start s₀ ≡ ok s
      → run events s ≡ ok t
      → lookup channel t.introduced ≡ some id
      → beq msg.uuid "RR" ≡ false
      → write t.replica msg.key msg.val msg.timestamp ≡ ok replica
      → (id < length config.replicas)
        × (accepted_msg (do_write msg) channel t
            ≡ ok (
                send
                  (to_server (outgoing id) (write_complete msg.uuid))
                  (record t { replica = replica })))
  unfolding new accepted_msg server_msg_handler handle_do_write
  write_acknowledged config log hint_log s₀ s t events msg channel id replica made started ran there
        plain written =
      let (r, replayed, same) = >>=-eq-ok (Replica.start log) _ made in
      let e = ok-injective same in
      let begun : Wired config s = rw (ap (λ (c : Coordinator). c.config) (sym e)) at (
        start-Wired s₀ s (ap (λ (c : Coordinator). c.channels) (sym e))
          (ap (λ (c : Coordinator). c.introduced) (sym e)) started) in
      let w = run-Wired config events s t ran begun in
      let inside = w.known channel id there in
      (inside, rw (accepted_msg, there, handle_do_write, written, plain, w.opened id inside) refl)
