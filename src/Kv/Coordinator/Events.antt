-- ===== src/Kv/Coordinator/Events.antt =====
-- The coordinator as a machine (kv/server/src/coordinator.cpp): what can happen to it, and what an
-- event may touch besides the state that it is about.
use cs.Prelude.{
  ℕ, ◌≡◌, refl, Option, none, some, List, [], ◌∷◌, arith, get_elem?, Bool-cases, inl, inr,
}
use cs.Prelude.Outcome.{Outcome, ok, ok-injective, ◌>>=◌, >>=-eq-ok, or_fault, undefined}
use cs.Prelude.Eq.{string_eq}
use cs.Kv.Messages.{
  TimeOps, DoWrite, ServerMessage, ClientMessage, do_read, do_write, get_key, intro,
}
use cs.Kv.Replica.{Attempt, Replica, run_update}
use cs.Kv.Coordinator.State.{Coordinator, ServerLink, outgoing, is_hinted_handoff, send, to_server}
use cs.Kv.Coordinator.Client.{Draw, client_handler, run_post}
use cs.Kv.Coordinator.Hints.{run_hint}
use cs.Kv.Coordinator.Server.{accepted_msg, server_msg_handler, recon_handler, handoff, send_writes}

pub data Event : Type 0 where
  -- a message of a client, with its channel and what the handler draws
  from_client : Draw → ClientMessage → ℕ → Event
  -- a message on an accepted channel, and on an outgoing one
  on_accepted on_outgoing : ServerMessage → ℕ → Event
  -- an outgoing channel has connected
  connected : ℕ → Event
  -- a task runs: a posted broadcast, a record of the hint log, an update of the replica
  post_runs hint_runs : Event
  update_runs : List Attempt → Event

abbrev pub updated : Option Replica → Coordinator → Coordinator
updated none s = s
updated (some replica) s = record s { replica = replica }

module _ ⦃tm : TimeOps⦄ where
  unfoldable pub step : Event → Coordinator → Outcome Coordinator
  unfolding client_handler accepted_msg server_msg_handler recon_handler run_post run_hint
      run_update
  step (from_client draw msg from) s = client_handler draw msg from s
  step (on_accepted msg channel) s = accepted_msg msg channel s
  step (on_outgoing msg id) s = server_msg_handler msg (outgoing id) id s
  step (connected id) s = recon_handler id (outgoing id) s
  step post_runs s = ok (run_post s)
  step hint_runs s = run_hint s
  step (update_runs attempts) s = ok (updated (run_update attempts s.replica) s)

  unfoldable pub run : List Event → Coordinator → Outcome Coordinator
  unfolding step
  run [] s = ok s
  run (event ∷ events) s = do s' ← step event s; run events s'

-- The hint counters, their log and the configuration stay.
pub record Spares (s s' : Coordinator) : Type 0 where
  pub hints : s'.hints ≡ s.hints
  pub hint_log : s'.hint_log ≡ s.hint_log
  pub config : s'.config ≡ s.config
  pub channels : s'.channels ≡ s.channels

send_writes-Spares :
    (link : ServerLink) (msgs : List DoWrite) (s : Coordinator) → Spares s (send_writes link msgs s)
send_writes-Spares link [] s = record {
  hints = refl;
  hint_log = refl;
  config = refl;
  channels = refl;
}
send_writes-Spares link (msg ∷ msgs) s =
    let later = send_writes-Spares link msgs (send (to_server link (do_write msg)) s) in
    record {
      hints = later.hints;
      hint_log = later.hint_log;
      config = later.config;
      channels = later.channels;
    }

pub recon_handler-Spares :
    (id : ℕ) (link : ServerLink) (s s' : Coordinator)
    → recon_handler id link s ≡ ok s'
    → Spares s s'
unfolding recon_handler
recon_handler-Spares id link s s' h =
    let greeted = send (to_server link (intro s.config.listen_ip s.config.listen_port)) s in
    elim (Bool-cases (is_hinted_handoff s.config.mode)) [
      | inl on ↦
          let (row, found, h₁) =
            >>=-eq-ok (or_fault (get_elem? s.hints id) undefined) _ (rw (on, recon_handler) at h) in
          let (msgs, listed, h₂) = >>=-eq-ok (handoff s link row 0) _ h₁ in
          let spared = send_writes-Spares link msgs greeted in
          ground (arith, ok-injective h₂, spared)
      | inr off ↦ ground (arith, off)
    ]

module _ ⦃tm : TimeOps⦄ where
  pub server_msg_handler-Spares :
      (msg : ServerMessage) (link : ServerLink) (id : ℕ) (s s' : Coordinator)
      → server_msg_handler msg link id s ≡ ok s'
      → Spares s s'
  unfolding server_msg_handler
  server_msg_handler-Spares (do_read uuid key) link id s s' h = ground arith
  server_msg_handler-Spares msg link id s s' h = ground arith

  pub accepted_msg-Spares :
      (msg : ServerMessage) (channel : ℕ) (s s' : Coordinator)
      → accepted_msg msg channel s ≡ ok s'
      → Spares s s'
  unfolding accepted_msg
  accepted_msg-Spares (do_read uuid key) channel s s' h = ground arith
  accepted_msg-Spares msg channel s s' h = ground arith

  pub client_handler-Spares :
      (draw : Draw) (msg : ClientMessage) (from : ℕ) (s s' : Coordinator)
      → client_handler draw msg from s ≡ ok s'
      → Spares s s'
  unfolding client_handler
  client_handler-Spares draw (get_key msg) from s s' h = ground arith
  client_handler-Spares draw msg from s s' h = ground arith
