-- ===== src/Kv/Coordinator/Recount.antt =====
-- The hint log and the hint counters agree (kv/server/src/coordinator.cpp).
use cs.Prelude.{
  ℕ, zero, suc, ◌+◌, ◌%◌, ◌^◌, ◌<◌, replicate, get_elem?, ◌≡◌, ap, refl, ◌∙◌, true, Option, none,
  some, List, [], ◌∷◌, ◌++◌, arith, subst,
}
use cs.Prelude.Outcome.{◌>>=◌, or_fault, undefined, ok, ok-injective, >>=-eq-ok}
use cs.Kv.Messages.{TimeOps, HintMessage}
use cs.Kv.Coordinator.State.{Coordinator, HintTask, added, dropped, outgoing, is_hinted_handoff}
use cs.Kv.Coordinator.Client.{run_post}
use cs.Kv.Coordinator.Hints.{
  no_hints, apply_hint, replay_hints, load_hints, run_hint, record_of, count_hint, hint_at,
}
use cs.Kv.Coordinator.Tally.{adds, drops, replay_hints-tally}
use cs.Kv.Replica.{Replica, run_update}
use cs.Kv.Coordinator.Events.{
  Event, step, run, updated, from_client, on_accepted, on_outgoing, connected, post_runs, hint_runs,
  update_runs, Spares, recon_handler-Spares, server_msg_handler-Spares, accepted_msg-Spares,
  client_handler-Spares,
}

replay_hints-append :
    (log : List HintMessage) (msg : HintMessage) (start hints : List (List ℕ))
    → replay_hints log start ≡ ok hints
    → replay_hints (log ++ msg ∷ []) start ≡ apply_hint msg hints
unfolding replay_hints
replay_hints-append [] msg start hints h = ground (arith, h)
replay_hints-append (m ∷ log) msg start hints h =
    let (hints', first, rest) = >>=-eq-ok (apply_hint m start) _ h in
    rw (first, replay_hints) (replay_hints-append log msg hints' hints rest)

get_elem?-replicate :
    {A : Type 0} (n : ℕ) (a : A) (i : ℕ) → i < n → get_elem? (replicate n a) i ≡ some a
get_elem?-replicate zero a i h = absurd (omega arith)
get_elem?-replicate (suc n) a zero h = refl
get_elem?-replicate (suc n) a (suc i) h = get_elem?-replicate n a i (omega arith)

hint_at-no_hints : (replica key : ℕ) → replica < 3 → key < 256 → hint_at no_hints replica key ≡ ok 0
unfolding hint_at
hint_at-no_hints replica key replica_in key_in =
    let nought : ℕ = 0 in
    let zeros = replicate 256 nought in
    ap (λ row. or_fault row undefined >>= λ r. or_fault (get_elem? r key) undefined)
      (get_elem?-replicate 3 zeros replica replica_in)
    ∙ ap (λ count. or_fault count undefined) (get_elem?-replicate 256 nought key key_in)

-- The replay of a task's record does what its completion handler did.
apply_hint-record_of :
    (task : HintTask) (hints : List (List ℕ))
    → apply_hint (record_of task) hints ≡ count_hint task hints
unfolding apply_hint record_of count_hint
apply_hint-record_of (added replica key) hints = refl
apply_hint-record_of (dropped replica key) hints = refl

-- The mode uses hints, and a replay of the log from none gives the counters.
record Recounted (s : Coordinator) : Type 0 where
  hinted : is_hinted_handoff s.config.mode ≡ true
  recounts : replay_hints s.hint_log no_hints ≡ ok s.hints

Spares-Recounted : {s s' : Coordinator} → Spares s s' → Recounted s → Recounted s'
Spares-Recounted spared r = record {
  hinted = rw spared.config r.hinted;
  recounts = rw (spared.hints, spared.hint_log) r.recounts;
}

run_hint-Recounted :
    (s s' : Coordinator) (queue : List HintTask)
    → s.hint_queue ≡ queue
    → run_hint s ≡ ok s'
    → Recounted s
    → Recounted s'
unfolding run_hint
run_hint-Recounted s s' [] idle h r = subst Recounted (ok-injective (rw (idle, run_hint) at h)) r
run_hint-Recounted s s' (task ∷ rest) waits h r =
    let (hints, changed, same) =
      >>=-eq-ok (count_hint task s.hints) _ (rw (waits, run_hint) at h) in
    subst Recounted (ok-injective same) (record {
      hinted = r.hinted;
      recounts =
          replay_hints-append s.hint_log (record_of task) no_hints s.hints r.recounts
          ∙ apply_hint-record_of task s.hints
          ∙ changed;
    })

updated-Spares : (replica : Option Replica) (s : Coordinator) → Spares s (updated replica s)
updated-Spares none s = record { hints = refl; hint_log = refl; config = refl; channels = refl }
updated-Spares (some replica) s = record {
  hints = refl;
  hint_log = refl;
  config = refl;
  channels = refl;
}

run_post-Spares : (s : Coordinator) → Spares s (run_post s)
unfolding run_post
run_post-Spares s = ground arith

module _ ⦃tm : TimeOps⦄ where
  step-Recounted :
      (event : Event) (s s' : Coordinator) → step event s ≡ ok s' → Recounted s → Recounted s'
  unfolding step
  step-Recounted (from_client draw msg from) s s' h r =
      Spares-Recounted (client_handler-Spares draw msg from s s' h) r
  step-Recounted (on_accepted msg channel) s s' h r =
      Spares-Recounted (accepted_msg-Spares msg channel s s' h) r
  step-Recounted (on_outgoing msg id) s s' h r =
      Spares-Recounted (server_msg_handler-Spares msg (outgoing id) id s s' h) r
  step-Recounted (connected id) s s' h r =
      Spares-Recounted (recon_handler-Spares id (outgoing id) s s' h) r
  step-Recounted post_runs s s' h r =
      subst Recounted (ok-injective h) (Spares-Recounted (run_post-Spares s) r)
  step-Recounted hint_runs s s' h r = run_hint-Recounted s s' s.hint_queue refl h r
  step-Recounted (update_runs attempts) s s' h r =
      subst Recounted (ok-injective h)
        (Spares-Recounted (updated-Spares (run_update attempts s.replica) s) r)

  run-Recounted :
      (events : List Event) (s s' : Coordinator) → run events s ≡ ok s' → Recounted s → Recounted s'
  unfolding run
  run-Recounted [] s s' h r = subst Recounted (ok-injective h) r
  run-Recounted (event ∷ events) s s' h r =
      let (s₁, first, rest) = >>=-eq-ok (step event s) _ h in
      run-Recounted events s₁ s' rest (step-Recounted event s s₁ first r)

  -- In the mode with hints, after a start on a hint log and any events, a start on the hint log as
  -- it is then gives the counters as they are then; and the counter of each of the 3 replicas and
  -- 256 keys is, on 64 bits, the number of the log's records that add to it less the number of
  -- those that drop from it.
  pub hints_recovered :
      (fresh s s' : Coordinator) (events : List Event) (replica key : ℕ)
      → is_hinted_handoff fresh.config.mode ≡ true
      → fresh.hints ≡ no_hints
      → load_hints fresh ≡ ok s
      → run events s ≡ ok s'
      → replica < 3
      → key < 256
      → (load_hints (record s' { hints = no_hints }) ≡ ok s')
        × (n : ℕ) × (hint_at s'.hints replica key ≡ ok n)
        × (n < 2 ^ 64)
        × ((n + drops replica key s'.hint_log) % 2 ^ 64 ≡ adds replica key s'.hint_log % 2 ^ 64)
  unfolding load_hints
  hints_recovered fresh s s' events replica key hinted none_yet loaded ran replica_in key_in =
      let (hints, replayed, same) =
        >>=-eq-ok (replay_hints fresh.hint_log fresh.hints) _ (rw (hinted, load_hints) at loaded) in
      let begun : Recounted s =
        subst Recounted (ok-injective same)
          (record { hinted = hinted; recounts = rw (← none_yet) replayed }) in
      let r = run-Recounted events s s' ran begun in
      let (n, there, small, sums) =
        replay_hints-tally replica key s'.hint_log no_hints s'.hints 0 r.recounts
          (hint_at-no_hints replica key replica_in key_in) (omega arith) in
      (rw (r.hinted, r.recounts) refl, n, there, small, omega (arith, sums))
