-- ===== src/Kv/Coordinator/Wired.antt =====
-- The set-up of a coordinator, and which channels it answers on (the constructor, start,
-- initialize_outgoing and handle_do_write of kv/server/src/coordinator.cpp).
pub mod Answered
use cs.Prelude.{
  ℕ, zero, suc, ◌+◌, ◌<◌, ◌≡◌, ◌⊎◌, refl, ap, ◌∙◌, sym, subst, String, Bool, true, false, Option,
  none, some, List, [], ◌∷◌, ◌++◌, length, ltb, if◌then◌else◌, arith, get_elem?, Bool-cases,
  Option-cases, inl, inr,
}
use native.Mathlib.Decide.{dec_lt}
use cs.Prelude.Eq.{string_eq, nat_eq, beq}
use cs.Prelude.Dict.{lookup, put, lookup-put}
use cs.Prelude.Outcome.{Outcome, ok, ok-injective, ◌>>=◌, >>=-eq-ok, or_fault, undefined}
use cs.Kv.Messages.{
  TimeOps, DoWrite, HintMessage, ServerMessage, ClientMessage, do_read, do_write, get_key, intro,
  write_complete,
}
use cs.Kv.Config.{Config}
use cs.Kv.Replica.{Replica, write, run_update}
use cs.Kv.Replica
use cs.Kv.Coordinator.State.{
  Coordinator, ServerLink, outgoing, accepted, to_server, send, is_hinted_handoff,
}
use cs.Kv.Coordinator.Client.{Draw, client_handler, run_post}
use cs.Kv.Coordinator.Hints.{no_hints, load_hints, run_hint, replay_hints}
use cs.Kv.Coordinator.Server.{
  initialize_outgoing, server_msg_handler, accepted_msg, recon_handler, handle_do_write,
  find_replica, unintroduced_msg_handler,
}
use cs.Kv.Coordinator.Introduction.{First, at, find_replica-First}
use cs.Kv.Coordinator.Events.{
  Event, from_client, on_accepted, on_outgoing, connected, post_runs, hint_runs, update_runs,
  updated, step, run,
}

module _ ⦃tm : TimeOps⦄ where
  -- The constructor, on the two logs as they are.
  unfoldable pub new : Config → List DoWrite → List HintMessage → Outcome Coordinator
  unfolding Replica.start
  new config log hint_log = do
    replica ← Replica.start log
    ok (record {
      config = config;
      replica = replica;
      channels = [];
      hint_log = hint_log;
      hint_queue = [];
      pending_reads = [];
      pending_writes = [];
      hints = no_hints;
      posts = [];
      introduced = [];
      sent = [];
    })

-- The hints are loaded and the channels are opened; the acceptors, which are set up in between, are
-- left out. Messages and connections are handled only once this has returned, when the `io_service`
-- runs.
unfoldable pub start : Coordinator → Outcome Coordinator
unfolding load_hints initialize_outgoing
start s = do s' ← load_hints s; ok (initialize_outgoing s'.config.replicas 0 s')

-- There is a channel to each replica of the configuration, in its place, and who has introduced
-- itself is one of them.
pub record Wired (config : Config) (s : Coordinator) : Type 0 where
  pub configured : s.config ≡ config
  pub opened :
      (i : ℕ) → i < length config.replicas → get_elem? s.channels i ≡ some (some (outgoing i))
  pub known : (channel id : ℕ) → lookup channel s.introduced ≡ some id → id < length config.replicas

pub record Keeps (s s' : Coordinator) : Type 0 where
  pub config : s'.config ≡ s.config
  pub channels : s'.channels ≡ s.channels
  pub introduced : s'.introduced ≡ s.introduced

pub Keeps-Wired :
    (config : Config) (s s' : Coordinator) → Keeps s s' → Wired config s → Wired config s'
Keeps-Wired config s s' k w = record {
  configured = k.config ∙ w.configured;
  opened = λ i i_in. rw k.channels (w.opened i i_in);
  known = λ channel id there. w.known channel id (rw k.introduced at there);
}

get_elem?-snoc :
    {A : Type 0} (xs : List A) (x : A) (i : ℕ)
    → i < suc (length xs)
    → get_elem? (xs ++ x ∷ []) i ≡ (if ltb i (length xs) then get_elem? xs i else some x)
get_elem?-snoc [] x zero h = ground arith
get_elem?-snoc [] x (suc i) h = absurd (omega arith)
get_elem?-snoc (y ∷ xs) x zero h = ground arith
get_elem?-snoc (y ∷ xs) x (suc i) h = ground (arith, get_elem?-snoc xs x i (omega arith))

-- The channels opened so far, and those still to open.
record Opened (count : ℕ) (s s' : Coordinator) : Type 0 where
  same : (s'.config ≡ s.config) × (s'.introduced ≡ s.introduced)
  all_there : (i : ℕ) → i < count → get_elem? s'.channels i ≡ some (some (outgoing i))

length-snoc_lem : {A : Type 0} (xs : List A) (x : A) → length (xs ++ x ∷ []) ≡ suc (length xs)
length-snoc_lem [] x = refl
length-snoc_lem (y ∷ xs) x = ap suc (length-snoc_lem xs x)

initialize_outgoing-Opened :
    (replicas : List (String × String)) (id : ℕ) (s : Coordinator)
    → length s.channels ≡ id
    → ((i : ℕ) → i < id → get_elem? s.channels i ≡ some (some (outgoing i)))
    → Opened (id + length replicas) s (initialize_outgoing replicas id s)
unfolding initialize_outgoing
initialize_outgoing-Opened [] id s size there = record {
  same = (refl, refl);
  all_there = λ i i_in. there i (omega (arith, i_in));
}
initialize_outgoing-Opened (replica ∷ replicas) id s size there =
    let next = record s { channels = s.channels ++ some (outgoing id) ∷ [] } in
    let later =
      initialize_outgoing-Opened replicas (suc id) next
        (length-snoc_lem s.channels (some (outgoing id)) ∙ ap suc size)
        (λ i i_in. elim (dec_lt i id) [
          | yes below ↦ ground (
            arith,
            get_elem?-snoc s.channels (some (outgoing id)) i (omega (arith, size)),
            size,
            there i below,
          )
          | no above ↦
              let last : i ≡ id = omega arith in
              ground (
                arith,
                get_elem?-snoc s.channels (some (outgoing id)) i (omega (arith, size)),
                size,
                last,
              )
        ]) in
    record { same = later.same; all_there = λ i i_in. later.all_there i (omega arith) }

load_hints_keeps :
    (s s' : Coordinator)
    → load_hints s ≡ ok s'
    → (s'.config ≡ s.config) × ((s'.channels ≡ s.channels) × (s'.introduced ≡ s.introduced))
unfolding load_hints
load_hints_keeps s s' h = elim (Bool-cases (is_hinted_handoff s.config.mode)) [
  | inl on ↦
      let (hints, replayed, same) =
        >>=-eq-ok (replay_hints s.hint_log s.hints) _ (rw (on, load_hints) at h) in
      ground (arith, ok-injective same)
  | inr off ↦ ground (arith, ok-injective (rw (off, load_hints) at h))
]

pub start-Wired :
    (s s' : Coordinator) → s.channels ≡ [] → s.introduced ≡ [] → start s ≡ ok s' → Wired s.config s'
unfolding start lookup
start-Wired s s' none_open nobody started =
    let (s₁, loaded, done) = >>=-eq-ok (load_hints s) _ started in
    let kept = load_hints_keeps s s₁ loaded in
    let o =
      initialize_outgoing-Opened s₁.config.replicas 0 s₁ (ap length (kept.1.0 ∙ none_open))
        (λ i i_in. absurd (omega arith)) in
    let same : initialize_outgoing s₁.config.replicas 0 s₁ ≡ s' = ok-injective done in
    subst (Wired s.config) same (record {
      configured = o.same.0 ∙ kept.0;
      opened = λ i i_in. o.all_there i (rw (kept.0) (omega (arith, i_in)));
      known = λ channel id there. absurd (cc (rw (o.same.1, kept.1.1, nobody) at there));
    })

pub run_post-Keeps : (s : Coordinator) → Keeps s (run_post s)
unfolding run_post
run_post-Keeps s = ground arith

pub run_hint-Keeps : (s s' : Coordinator) → run_hint s ≡ ok s' → Keeps s s'
unfolding run_hint
run_hint-Keeps s s' h = ground arith

pub updated-Keeps : (replica : Option Replica) (s : Coordinator) → Keeps s (updated replica s)
updated-Keeps replica s = ground arith

module _ ⦃tm : TimeOps⦄ where
  pub server_msg_handler-Keeps :
      (msg : ServerMessage) (link : ServerLink) (id : ℕ) (s s' : Coordinator)
      → server_msg_handler msg link id s ≡ ok s'
      → Keeps s s'
  unfolding server_msg_handler
  server_msg_handler-Keeps (do_read uuid key) link id s s' h = ground arith
  server_msg_handler-Keeps msg link id s s' h = ground arith

  pub client_handler-Keeps :
      (draw : Draw) (msg : ClientMessage) (from : ℕ) (s s' : Coordinator)
      → client_handler draw msg from s ≡ ok s'
      → Keeps s s'
  unfolding client_handler
  client_handler-Keeps draw (get_key msg) from s s' h = ground arith
  client_handler-Keeps draw msg from s s' h = ground arith
