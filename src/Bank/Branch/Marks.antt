-- ===== src/Bank/Branch/Marks.antt =====
-- What a marker does to a branch (marker_handler of bank/src/branch.cpp).
use cs.Prelude.{
  ◌≡◌, refl, ◌∙◌, ℕ, String, eq_iff, true, false, some, [], ◌∷◌, ◌++◌, arith, if◌then◌else◌, inl,
  inr, ◌⊎◌, Bool-cases, List, All, Option-cases,
}
use cs.Prelude.Eq.{string_eq, beq}
use cs.Prelude.Dict.{lookup}
use cs.Bank.Messages.{PeerInfo}
use cs.Bank.Messages
use cs.Bank.Snapshot.{Snapshot, recording, completed, make}
use cs.Bank.Snapshot
use cs.Bank.Snapshot.Recorded.{is_peer, until_marker, mark, run, snapshot_records}
use cs.Bank.Branch.{Branch, holds_snapshot, to_channels}
use cs.Bank.Branch as Handlers

-- The recording of a peer's channel has begun, or ended at once if the marker came from the peer.
abbrev pub IsBegun : String → Snapshot → PeerInfo → Type 0
IsBegun from s peer =
    lookup peer.0 s.states ≡ some (if beq from peer.0 then completed 0 else recording 0)

-- A branch that starts a snapshot because of a marker: it records its balance, is done with the
-- channel that the marker came on, records the channels of the other peers, and passes the marker on
-- to every channel.
pub record Starts (id : ℕ) (from : String) (b b' : Branch) : Type 0 where
  pub s : Snapshot
  pub held : b'.snapshot ≡ some s
  pub numbered : s.id ≡ id
  pub balance : s.balance ≡ b.money
  pub channels : All (IsBegun from s) b.known_peers
  pub passed : b'.sent ≡ b.sent ++ to_channels (Messages.marker id) b.channels

-- A branch that takes part already: it is done with the channel, and sends nothing.
pub record Continues (from : String) (b b' : Branch) : Type 0 where
  pub s : Snapshot
  pub joined : b.snapshot ≡ some s
  pub held : b'.snapshot ≡ some (Snapshot.marker from s)
  pub quiet : b'.sent ≡ b.sent

marker_states :
    (id money : ℕ) (from : String) (b : Branch) (name : String)
    → is_peer name b.known_peers ≡ true
    → lookup name (Snapshot.marker from (make id money b.known_peers)).states
      ≡ some (if beq from name then completed 0 else recording 0)
unfolding run until_marker
marker_states id money from b name known =
    snapshot_records id money b.known_peers name (mark from ∷ []) known ∙ ground arith

All-IsBegun :
    (id money : ℕ) (from : String) (b : Branch) (peers : List PeerInfo)
    → ((name : String) → is_peer name peers ≡ true → is_peer name b.known_peers ≡ true)
    → All (IsBegun from (Snapshot.marker from (make id money b.known_peers))) peers
All-IsBegun id money from b [] known = tt
All-IsBegun id money from b ((name, ip, port) ∷ peers) known = (
  marker_states id money from b name (known name (ground (arith, eq_iff name name))),
  All-IsBegun id money from b peers (λ other h. known other (ground (arith, h))),
)

pub marker_keeps :
    (from : String) (s : Snapshot)
    → ((Snapshot.marker from s).id ≡ s.id) × ((Snapshot.marker from s).balance ≡ s.balance)
unfolding Snapshot.marker
marker_keeps from s = ground arith

-- A marker of a snapshot that the branch does not hold starts it, and any other marker only ends the
-- recording of the channel that it came on.
pub mark_handled :
    (id : ℕ) (from : String) (b : Branch)
    → ((holds_snapshot id b.snapshot ≡ false) × Starts id from b (Handlers.mark id from b))
      ⊎ ((holds_snapshot id b.snapshot ≡ true) × Continues from b (Handlers.mark id from b))
unfolding Handlers.mark
mark_handled id from b = elim (Bool-cases (holds_snapshot id b.snapshot)) [
  | inr fresh ↦ inl (
    fresh,
    record {
      s = Snapshot.marker from (make id b.money b.known_peers);
      held = ground (arith, fresh);
      numbered = (marker_keeps from (make id b.money b.known_peers)).0 ∙ unfold make in refl;
      balance = (marker_keeps from (make id b.money b.known_peers)).1 ∙ unfold make in refl;
      channels = All-IsBegun id b.money from b b.known_peers (λ name h. h);
      passed = ground (arith, fresh);
    },
  )
  | inl known ↦ elim (Option-cases b.snapshot) [
    | inl missing ↦ absurd (ground (arith, known, missing))
    | inr (s, there) ↦ inr (
      known,
      record {
        s = s;
        joined = there;
        held = ground (arith, known, there);
        quiet = ground (arith, known);
      },
    )
  ]
]
