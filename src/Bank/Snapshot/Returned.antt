-- ===== src/Bank/Snapshot/Returned.antt =====
-- What a branch returns of a snapshot (to_message of bank/src/snapshot.cpp).
use cs.Prelude.{
  ℕ, ◌≡◌, refl, sym, ap, ◌∙◌, ◌⊎◌, String, eq_iff, Bool, true, false, ◌&&◌, none, some, List, [],
  ◌∷◌, arith, Bool-cases, Option-cases, inl, inr,
}
use mathlib.Core.Option.{some-injective}
use cs.Prelude.Eq.{string_eq, beq}
use cs.Prelude.Dict.{
  Dict, lookup, emplace, Distinct, put-Distinct, emplace-Distinct, beq_refl, lookup-emplace,
}
use cs.Prelude.Outcome.{ok, fault, bad_variant_access}
use cs.Bank.Messages.{PeerInfo, ReturnSnapshot}
use cs.Bank.Snapshot.{
  VarState, empty, recording, completed, Snapshot, record_all, make, record_tx, marker,
  channel_states, to_message,
}
use cs.Bank.Snapshot.Recorded.{
  Event, tx, mark, run, until_marker, is_peer, snapshot_records, lookup-record_tx, lookup-marker,
}

abbrev is_completed : VarState → Bool
is_completed (completed sum) = true
is_completed _ = false

-- Whether a marker came from every peer.
abbrev pub all_marked : List PeerInfo → List Event → Bool
all_marked [] events = true
all_marked ((name, ip, port) ∷ peers) events =
    is_completed (until_marker name 0 events) && all_marked peers events

record_tx-Distinct :
    (from : String) (amount : ℕ) (s : Snapshot)
    → Distinct s.states
    → Distinct (record_tx from amount s).states
unfolding record_tx
record_tx-Distinct from amount s h = elim (Option-cases (lookup from s.states)) [
  | inl missing ↦ rw (missing, record_tx) h
  | inr (empty, there) ↦ rw (there, record_tx) h
  | inr (completed sum, there) ↦ rw (there, record_tx) h
  | inr (recording sum, there) ↦ rw (there, record_tx) (put-Distinct from _ s.states h)
]

marker-Distinct :
    (from : String) (s : Snapshot) → Distinct s.states → Distinct (marker from s).states
unfolding marker
marker-Distinct from s h = elim (Option-cases (lookup from s.states)) [
  | inl missing ↦ rw (missing, marker) h
  | inr (empty, there) ↦ rw (there, marker) h
  | inr (completed sum, there) ↦ rw (there, marker) h
  | inr (recording sum, there) ↦ rw (there, marker) (put-Distinct from _ s.states h)
]

run-Distinct :
    (events : List Event) (s : Snapshot) → Distinct s.states → Distinct (run events s).states
unfolding run
run-Distinct [] s h = h
run-Distinct (tx from amount ∷ events) s h =
    run-Distinct events (record_tx from amount s) (record_tx-Distinct from amount s h)
run-Distinct (mark from ∷ events) s h =
    run-Distinct events (marker from s) (marker-Distinct from s h)

record_all-Distinct :
    (peers : List PeerInfo) (states : Dict String VarState)
    → Distinct states
    → Distinct (record_all peers states)
unfolding record_all
record_all-Distinct [] states h = h
record_all-Distinct ((name, ip, port) ∷ peers) states h =
    record_all-Distinct peers (emplace name (recording 0) states) (emplace-Distinct name _ states h)

-- The states of channels that are all complete, and the same as a message has them.
channel_states-completed :
    (states : Dict String VarState)
    → Distinct states
    → ((name : String) (v : VarState) → lookup name states ≡ some v → is_completed v ≡ true)
    → (sums : Dict String ℕ) × (channel_states states ≡ ok sums)
      × ((name : String) (sum : ℕ)
          → lookup name states ≡ some (completed sum)
          → lookup name sums ≡ some sum)
unfolding channel_states lookup
channel_states-completed [] h all = ([], refl, λ name sum there. cc there)
channel_states-completed ((name, empty) ∷ states) h all =
    cc (all name empty (rw (beq_refl name) refl))
channel_states-completed ((name, recording sum) ∷ states) h all =
    cc (all name (recording sum) (rw (beq_refl name) refl))
channel_states-completed ((name, completed sum) ∷ states) h all =
    let (sums, made, same) =
      channel_states-completed states h.1
        (λ other v there. all other v (ground (arith, eq_iff name other, there, h.0))) in
    ((name, sum) ∷ sums, rw made refl, λ other total there. ground (arith, same other total, there))

-- One channel that is not.
channel_states-fault :
    (states : Dict String VarState) (name : String) (v : VarState)
    → lookup name states ≡ some v
    → is_completed v ≡ false
    → channel_states states ≡ fault bad_variant_access
unfolding channel_states lookup
channel_states-fault [] name v there unmarked = cc there
channel_states-fault ((name', empty) ∷ states) name v there unmarked = refl
channel_states-fault ((name', recording sum) ∷ states) name v there unmarked = refl
channel_states-fault ((name', completed sum) ∷ states) name v there unmarked =
    elim (Bool-cases (beq name' name)) [
      | inl same ↦ absurd (ground (arith, same, there, unmarked))
      | inr other ↦ rw (channel_states-fault states name v (rw other at there) unmarked) refl
    ]

run_missing :
    (events : List Event) (name : String) (s : Snapshot)
    → lookup name s.states ≡ none
    → lookup name (run events s).states ≡ none
unfolding run
run_missing [] name s h = h
run_missing (tx from amount ∷ events) name s h =
    run_missing events name (record_tx from amount s)
      (lookup-record_tx from name amount s (lookup from s.states) refl ∙ ground (arith, h))
run_missing (mark from ∷ events) name s h =
    run_missing events name (marker from s)
      (lookup-marker from name s (lookup from s.states) refl ∙ ground (arith, h))

record_all_missing :
    (name : String) (peers : List PeerInfo) (states : Dict String VarState)
    → is_peer name peers ≡ false
    → lookup name states ≡ none
    → lookup name (record_all peers states) ≡ none
unfolding record_all
record_all_missing name [] states other h = h
record_all_missing name ((name', ip, port) ∷ peers) states other h =
    record_all_missing name peers (emplace name' (recording 0) states) (ground (arith, other))
      (lookup-emplace name' name (recording 0) states ∙ ground (arith, other, h))

-- Of the names in the snapshot, each is a peer's.
run_states :
    (id balance : ℕ) (peers : List PeerInfo) (events : List Event) (name : String) (v : VarState)
    → lookup name (run events (make id balance peers)).states ≡ some v
    → (is_peer name peers ≡ true) × (v ≡ until_marker name 0 events)
unfolding make
run_states id balance peers events name v there = elim (Bool-cases (is_peer name peers)) [
  | inl known ↦
      (known, some-injective _ _ (sym there ∙ snapshot_records id balance peers name events known))
  | inr other ↦ absurd (
      cc (
        there,
        run_missing events name (make id balance peers)
            (record_all_missing name peers [] other (unfold lookup in refl)),
      ))
]

all_marked-peer :
    (peers : List PeerInfo) (events : List Event) (name : String)
    → all_marked peers events ≡ true
    → is_peer name peers ≡ true
    → is_completed (until_marker name 0 events) ≡ true
all_marked-peer [] events name all known = cc known
all_marked-peer ((name', ip, port) ∷ peers) events name all known =
    ground (arith, eq_iff name' name, all_marked-peer peers events name, all, known)

unmarked_peer :
    (peers : List PeerInfo) (events : List Event)
    → all_marked peers events ≡ false
    → (name : String) × (is_peer name peers ≡ true)
      × (is_completed (until_marker name 0 events) ≡ false)
unmarked_peer [] events some_open = cc some_open
unmarked_peer ((name, ip, port) ∷ peers) events some_open =
    elim (Bool-cases (is_completed (until_marker name 0 events))) [
      | inr unmarked ↦ (name, ground (arith, eq_iff name name), unmarked)
      | inl marked ↦
          let (other, known, unmarked) =
            unmarked_peer peers events (ground (arith, marked, some_open)) in
          (other, ground (arith, known), unmarked)
    ]

completed_sum : (v : VarState) → is_completed v ≡ true → (sum : ℕ) × (v ≡ completed sum)
completed_sum (completed sum) h = (sum, refl)
completed_sum empty h = cc h
completed_sum (recording sum) h = cc h

-- The message of a finished snapshot: each peer with what came from it up to its marker.
pub record Returns (id balance : ℕ) (peers : List PeerInfo) (events : List Event)
    (msg : ReturnSnapshot) : Type 0 where
  numbered : msg.snapshot_id ≡ id
  balance_kept : msg.balance ≡ balance
  sums :
      (name : String)
      → is_peer name peers ≡ true
      → (sum : ℕ) × (until_marker name 0 events ≡ completed sum)
        × (lookup name msg.channel_state ≡ some sum)

run_keeps :
    (events : List Event) (s : Snapshot)
    → ((run events s).id ≡ s.id) × ((run events s).balance ≡ s.balance)
unfolding run record_tx marker
run_keeps [] s = (refl, refl)
run_keeps (tx from amount ∷ events) s = ground (arith, run_keeps events (record_tx from amount s))
run_keeps (mark from ∷ events) s = ground (arith, run_keeps events (marker from s))

-- A snapshot can be returned as soon as a marker came from every peer, and then it has the balance
-- of its start and, for each peer, the money that came from it up to its first marker; before that,
-- an attempt to return it throws.
pub snapshot_returned :
    (id balance : ℕ) (peers : List PeerInfo) (events : List Event)
    → ((all_marked peers events ≡ true)
        × ((msg : ReturnSnapshot) × (to_message (run events (make id balance peers)) ≡ ok msg)
            × Returns id balance peers events msg))
      ⊎ ((all_marked peers events ≡ false)
          × (to_message (run events (make id balance peers)) ≡ fault bad_variant_access))
unfolding to_message
snapshot_returned id balance peers events = elim (Bool-cases (all_marked peers events)) [
  | inl all ↦
      let final = run events (make id balance peers) in
      let (sums, made, same) =
        channel_states-completed final.states
          (run-Distinct events (make id balance peers)
            (unfold make in record_all-Distinct peers [] tt))
          (λ name v there.
            let (known, e) = run_states id balance peers events name v there in
            rw e (all_marked-peer peers events name all known)) in
      inl (
        all,
        (
          record {
            name = "";
            snapshot_id = final.id;
            balance = final.balance;
            channel_state = sums;
          },
          rw made refl,
          record {
            numbered = (run_keeps events (make id balance peers)).0 ∙ unfold make in refl;
            balance_kept = (run_keeps events (make id balance peers)).1 ∙ unfold make in refl;
            sums = λ name known.
                let (sum, ended) =
                  completed_sum (until_marker name 0 events)
                    (all_marked-peer peers events name all known) in
                (
                  sum,
                  ended,
                  same name sum
                      (snapshot_records id balance peers name events known ∙ ap some ended),
                );
          },
        ),
      )
  | inr some_open ↦
      let (name, known, unmarked) = unmarked_peer peers events some_open in
      inr (
        some_open,
        rw
            (channel_states-fault (run events (make id balance peers)).states name
              (until_marker name 0 events) (snapshot_records id balance peers name events known)
              unmarked)
            refl,
      )
]
