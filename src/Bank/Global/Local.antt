-- ===== src/Bank/Global/Local.antt =====
-- What one event does to a branch (bank/src/branch.cpp) while a snapshot is taken.
use cs.Prelude.{
  ℕ, ◌+◌, ◌^◌, ◌<◌, ◌≡◌, refl, ◌∙◌, String, eq_iff, Bool, true, false, ◌||◌, ◌==◌, if◌then◌else◌,
  Option, none, some, List, [], ◌∷◌, arith, inl, inr, Bool-cases, Option-cases,
}
use cs.Prelude.Eq.{string_eq, beq}
use cs.Prelude.Dict.{Dict, lookup, put, emplace, lookup-emplace}
use cs.Bank.Messages.{PeerInfo, add64}
use cs.Bank.Snapshot.{VarState, empty, recording, completed, Snapshot, record_all, make, record_tx}
use cs.Bank.Snapshot
use cs.Bank.Snapshot.Recorded.{is_peer, lookup-record_tx, lookup-marker, lookup-record_all}
use cs.Bank.Branch.Marks.{marker_keeps}
use cs.Bank.Branch.{Branch, holds_snapshot}
use cs.Bank.Global.{is_done, done_in, money_in, sums, counted}

abbrev pub is_tracked : Option VarState → Bool
is_tracked (some (recording sum)) = true
is_tracked (some (completed sum)) = true
is_tracked _ = false

abbrev pub tracked_in : ℕ → String → Option Snapshot → Bool
tracked_in id name none = true
tracked_in id name (some s) = if id == s.id then is_tracked (lookup name s.states) else true

-- A branch between two events.
pub record IsReady (id : ℕ) (b : Branch) : Type 0 where
  pub tasks : b.tasks ≡ []
  pub sent : b.sent ≡ []
  pub range : b.money < 2 ^ 64
  pub tracks :
      (name : String) → is_peer name b.known_peers ≡ true → tracked_in id name b.snapshot ≡ true

pub record SameLinks (b b' : Branch) : Type 0 where
  pub channels : b'.channels ≡ b.channels
  pub known_peers : b'.known_peers ≡ b.known_peers
  pub names : b'.names ≡ b.names
  pub dials : b'.dials ≡ b.dials

sums-put :
    (name : String) (v w : VarState) (m : Dict String VarState)
    → lookup name m ≡ some v
    → sums (put name w m) + money_in v ≡ sums m + money_in w
unfolding lookup put
sums-put name v w [] there = cc there
sums-put name v w ((other, u) ∷ m) there = elim (Bool-cases (beq other name)) [
  | inl same ↦ let e : u ≡ v = cc (same, there) in ground (arith, same, e)
  | inr apart ↦ ground (arith, apart, sums-put name v w m (rw apart at there))
]

sums-emplace :
    (name : String) (m : Dict String VarState) → sums (emplace name (recording 0) m) ≡ sums m
unfolding emplace
sums-emplace name [] = refl
sums-emplace name ((other, u) ∷ m) = ground (arith, sums-emplace name m)

sums-record_all :
    (peers : List PeerInfo) (m : Dict String VarState) → sums (record_all peers m) ≡ sums m
unfolding record_all
sums-record_all [] m = refl
sums-record_all ((name, ip, port) ∷ peers) m =
    sums-record_all peers (emplace name (recording 0) m) ∙ sums-emplace name m

record_all_open :
    (name : String) (peers : List PeerInfo) (m : Dict String VarState)
    → is_done (lookup name m) ≡ false
    → is_done (lookup name (record_all peers m)) ≡ false
unfolding record_all
record_all_open name [] m h = h
record_all_open name ((other, ip, port) ∷ peers) m h =
    record_all_open name peers (emplace other (recording 0) m)
      (ground (arith, lookup-emplace other name (recording 0) m, eq_iff other name, h))

sums-marker : (from : String) (s : Snapshot) → sums (Snapshot.marker from s).states ≡ sums s.states
unfolding Snapshot.marker
sums-marker from s = elim (Option-cases (lookup from s.states)) [
  | inl missing ↦ ground (arith, missing)
  | inr (empty, there) ↦ ground (arith, there)
  | inr (completed sum, there) ↦ ground (arith, there)
  | inr (recording sum, there) ↦
      ground (arith, there, sums-put from (recording sum) (completed sum) s.states there)
]

abbrev is_recording : Option VarState → Bool
is_recording (some (recording sum)) = true
is_recording _ = false

sums-record_tx :
    (from : String) (amount : ℕ) (s : Snapshot)
    → (is_recording (lookup from s.states) ≡ true → sums s.states + amount < 2 ^ 64)
    → sums (record_tx from amount s).states
      ≡ sums s.states + (if is_recording (lookup from s.states) then amount else 0)
unfolding record_tx
sums-record_tx from amount s small = elim (Option-cases (lookup from s.states)) [
  | inl missing ↦ ground (arith, missing)
  | inr (empty, there) ↦ ground (arith, there)
  | inr (completed sum, there) ↦ ground (arith, there)
  | inr (recording sum, there) ↦
      let part = sums-put from (recording sum) (recording 0) s.states there in
      let fits : add64 sum amount ≡ sum + amount = omega (arith, part, small (rw there refl)) in
      ground (
        arith,
        there,
        fits,
        sums-put from (recording sum) (recording (add64 sum amount)) s.states there,
      )
]

pub record_tx_keeps :
    (from : String) (amount : ℕ) (s : Snapshot)
    → ((record_tx from amount s).id ≡ s.id) × ((record_tx from amount s).balance ≡ s.balance)
unfolding record_tx
record_tx_keeps from amount s = ground arith

pub made_tracks :
    (id money : ℕ) (peers : List PeerInfo) (name : String)
    → is_peer name peers ≡ true
    → tracked_in id name (some (make id money peers)) ≡ true
unfolding make
made_tracks id money peers name known =
    ground (arith, lookup-record_all name peers [] (inl (unfold lookup in refl)) (inl known))

pub made_open :
    (id money : ℕ) (peers : List PeerInfo) (name : String)
    → done_in id name (some (make id money peers)) ≡ false
unfolding make
made_open id money peers name =
    ground (arith, record_all_open name peers [] (unfold lookup in refl))

pub made_counts :
    (id money : ℕ) (peers : List PeerInfo) → counted id money (some (make id money peers)) ≡ money
unfolding make
made_counts id money peers = ground (arith, sums-record_all peers [])

pub marker_tracks :
    (id : ℕ) (from name : String) (s : Snapshot)
    → tracked_in id name (some s) ≡ true
    → tracked_in id name (some (Snapshot.marker from s)) ≡ true
marker_tracks id from name s h =
    ground (arith, h, marker_keeps from s, lookup-marker from name s (lookup from s.states) refl)

pub marker_counts :
    (id money : ℕ) (from : String) (s : Snapshot)
    → counted id money (some (Snapshot.marker from s)) ≡ counted id money (some s)
marker_counts id money from s = ground (arith, marker_keeps from s, sums-marker from s)

pub marker_done :
    (id : ℕ) (from name : String) (s : Snapshot)
    → (id == s.id) ≡ true
    → tracked_in id from (some s) ≡ true
    → done_in id name (some (Snapshot.marker from s)) ≡ (beq from name || done_in id name (some s))
marker_done id from name s taken h = ground (
  arith,
  taken,
  h,
  eq_iff from name,
  marker_keeps from s,
  lookup-marker from name s (lookup from s.states) refl,
)

pub tx_tracks :
    (id amount : ℕ) (from name : String) (s : Snapshot)
    → tracked_in id name (some s) ≡ true
    → tracked_in id name (some (record_tx from amount s)) ≡ true
tx_tracks id amount from name s h = ground (
  arith,
  h,
  record_tx_keeps from amount s,
  lookup-record_tx from name amount s (lookup from s.states) refl,
)

pub tx_done :
    (id amount : ℕ) (from name : String) (s : Snapshot)
    → done_in id name (some (record_tx from amount s)) ≡ done_in id name (some s)
tx_done id amount from name s = ground (
  arith,
  record_tx_keeps from amount s,
  lookup-record_tx from name amount s (lookup from s.states) refl,
)

pub tx_counts :
    (id money amount : ℕ) (from : String) (s : Snapshot)
    → tracked_in id from (some s) ≡ true
    → (done_in id from (some s) ≡ false → counted id money (some s) + amount < 2 ^ 64)
    → counted id (add64 money amount) (some (record_tx from amount s))
      ≡ counted id money (some s) + (if done_in id from (some s) then 0 else amount)
tx_counts id money amount from s h small = elim (Bool-cases (id == s.id)) [
  | inl taken ↦
      ground (arith, taken, h, small, record_tx_keeps from amount s, sums-record_tx from amount s)
  | inr other ↦ ground (arith, other, small, record_tx_keeps from amount s)
]

pub counted_fresh :
    (id money : ℕ) (held : Option Snapshot)
    → holds_snapshot id held ≡ false
    → counted id money held ≡ money
counted_fresh id money none h = refl
counted_fresh id money (some s) h = ground (arith, h)

pub done_in_fresh :
    (id : ℕ) (name : String) (held : Option Snapshot)
    → holds_snapshot id held ≡ false
    → done_in id name held ≡ false
done_in_fresh id name none h = refl
done_in_fresh id name (some s) h = ground (arith, h)
