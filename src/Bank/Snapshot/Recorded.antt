-- ===== src/Bank/Snapshot/Recorded.antt =====
-- What a snapshot records of a channel (bank/src/snapshot.cpp).
use cs.Prelude.{
  ℕ, ◌≡◌, refl, ◌∙◌, String, eq_iff, Bool, true, false, Option, none, some, List, [], ◌∷◌, ◌⊎◌,
  ◌||◌, arith, if◌then◌else◌, Bool-cases, inl, inr,
}
use cs.Prelude.Eq.{string_eq, beq}
use cs.Prelude.Dict.{Dict, lookup, emplace, lookup-put, lookup-emplace}
use cs.Bank.Messages.{PeerInfo, add64}
use cs.Bank.Snapshot.{
  VarState, empty, recording, completed, Snapshot, record_all, make, record_tx, marker,
}

pub data Event : Type 0 where
  -- a transfer from this branch, and a marker from it
  tx : String → ℕ → Event
  mark : String → Event

unfoldable pub run : List Event → Snapshot → Snapshot
unfolding record_tx marker
run [] s = s
run (tx from amount ∷ events) s = run events (record_tx from amount s)
run (mark from ∷ events) s = run events (marker from s)

-- The sum of the transfers from a branch up to its first marker, on top of `sum`; and whether the
-- marker came.
unfoldable pub until_marker : String → ℕ → List Event → VarState
until_marker name sum [] = recording sum
until_marker name sum (tx from amount ∷ events) =
    until_marker name (if beq from name then add64 sum amount else sum) events
until_marker name sum (mark from ∷ events) =
    if beq from name then completed sum else until_marker name sum events

abbrev pub received : ℕ → Option VarState → Option VarState
received amount (some (recording sum)) = some (recording (add64 sum amount))
received amount state = state

abbrev pub marked : Option VarState → Option VarState
marked (some (recording sum)) = some (completed sum)
marked state = state

pub lookup-record_tx :
    (from name : String) (amount : ℕ) (s : Snapshot) (state : Option VarState)
    → lookup from s.states ≡ state
    → lookup name (record_tx from amount s).states
      ≡ (if beq from name then received amount (lookup name s.states) else lookup name s.states)
unfolding record_tx
lookup-record_tx from name amount s none h = ground (arith, eq_iff from name)
lookup-record_tx from name amount s (some empty) h = ground (arith, eq_iff from name)
lookup-record_tx from name amount s (some (completed sum)) h = ground (arith, eq_iff from name)
lookup-record_tx from name amount s (some (recording sum)) h =
    ground (arith, eq_iff from name, lookup-put from name (recording (add64 sum amount)) s.states)

pub lookup-marker :
    (from name : String) (s : Snapshot) (state : Option VarState)
    → lookup from s.states ≡ state
    → lookup name (marker from s).states
      ≡ (if beq from name then marked (lookup name s.states) else lookup name s.states)
unfolding marker
lookup-marker from name s none h = ground (arith, eq_iff from name)
lookup-marker from name s (some empty) h = ground (arith, eq_iff from name)
lookup-marker from name s (some (completed sum)) h = ground (arith, eq_iff from name)
lookup-marker from name s (some (recording sum)) h =
    ground (arith, eq_iff from name, lookup-put from name (completed sum) s.states)

run_completed :
    (events : List Event) (name : String) (sum : ℕ) (s : Snapshot)
    → lookup name s.states ≡ some (completed sum)
    → lookup name (run events s).states ≡ some (completed sum)
unfolding run
run_completed [] name sum s h = h
run_completed (tx from amount ∷ events) name sum s h =
    run_completed events name sum (record_tx from amount s)
      (lookup-record_tx from name amount s (lookup from s.states) refl ∙ ground (arith, h))
run_completed (mark from ∷ events) name sum s h =
    run_completed events name sum (marker from s)
      (lookup-marker from name s (lookup from s.states) refl ∙ ground (arith, h))

run_recording :
    (events : List Event) (name : String) (sum : ℕ) (s : Snapshot)
    → lookup name s.states ≡ some (recording sum)
    → lookup name (run events s).states ≡ some (until_marker name sum events)
unfolding run until_marker
run_recording [] name sum s h = h
run_recording (tx from amount ∷ events) name sum s h =
    let moved = lookup-record_tx from name amount s (lookup from s.states) refl in
    run_recording events name (if beq from name then add64 sum amount else sum)
      (record_tx from amount s) (moved ∙ ground (arith, h))
run_recording (mark from ∷ events) name sum s h =
    let moved = lookup-marker from name s (lookup from s.states) refl in
    elim (Bool-cases (beq from name)) [
      | inl same ↦
          rw same (run_completed events name sum (marker from s) (moved ∙ ground (arith, same, h)))
      | inr other ↦
          rw other
            (run_recording events name sum (marker from s) (moved ∙ ground (arith, other, h)))
    ]

-- Whether a peer of the list has the name.
abbrev pub is_peer : String → List PeerInfo → Bool
is_peer name [] = false
is_peer name ((name', ip, port) ∷ peers) = beq name' name || is_peer name peers

pub lookup-record_all :
    (name : String) (peers : List PeerInfo) (states : Dict String VarState)
    → (lookup name states ≡ none) ⊎ (lookup name states ≡ some (recording 0))
    → (is_peer name peers ≡ true) ⊎ (lookup name states ≡ some (recording 0))
    → lookup name (record_all peers states) ≡ some (recording 0)
unfolding record_all
lookup-record_all name [] states start h = ground arith
lookup-record_all name ((name', ip, port) ∷ peers) states start h =
    let moved = lookup-emplace name' name (recording 0) states in
    lookup-record_all name peers (emplace name' (recording 0) states)
      (ground (arith, moved, start, eq_iff name' name))
      (ground (arith, moved, start, h, eq_iff name' name))

-- A snapshot records for each peer the money that came from it up to its first marker, whatever
-- else comes from the others in between, and counts that channel as complete once the marker came.
pub snapshot_records :
    (id balance : ℕ) (peers : List PeerInfo) (name : String) (events : List Event)
    → is_peer name peers ≡ true
    → lookup name (run events (make id balance peers)).states ≡ some (until_marker name 0 events)
unfolding make
snapshot_records id balance peers name events known =
    run_recording events name 0 (make id balance peers)
      (lookup-record_all name peers [] (inl (unfold lookup in refl)) (inl known))
