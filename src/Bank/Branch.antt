-- ===== src/Bank/Branch.antt =====
-- bank/include/branch.hpp and bank/src/branch.cpp: a branch of the bank. Its handlers, its timer and
-- the tasks on its strand run one at a time; only the money changes under the feet of a task.
pub mod Conserves
pub mod Marks
use cs.Prelude.{
  ℕ, zero, suc, ◌+◌, ◌/◌, ◌%◌, ◌^◌, String, Bool, ◌&&◌, not, ltb, ◌==◌, ◌≡◌, ◌↔◌, arith,
  if◌then◌else◌, Option, none, some, List, [], ◌∷◌, ◌++◌, map, length, get_elem?,
}
use cs.Prelude.Eq.{Eq, string_eq, beq}
use cs.Prelude.Dict.{Dict, lookup, put, emplace}
use cs.Prelude.Outcome.{Outcome, ok, fault, undefined, out_of_range, runtime_error, or_fault, ◌>>=◌}
use cs.Bank.Messages.{
  PeerInfo, InitBranch, ReturnSnapshot, BranchMessage, unset, init_branch, transfer, init_snapshot,
  retrieve_snapshot, return_snapshot, hello, add64, sub64,
}
use cs.Bank.Withdrawal.{Round, Withdrawn, withdraw}
use cs.Bank.Peers.{narrow, find_self, outgoing_count, ring, at_all, erase}
use cs.Bank.Messages
use cs.Bank.Snapshot.{Snapshot, make, record_tx, to_message}
use cs.Bank.Snapshot

-- A channel that the branch opened, by its place in `dials`, or one that it accepted.
pub data Link : Type 0 where
  outgoing accepted : ℕ → Link

abbrev pub link_beq : Link → Link → Bool
link_beq (outgoing i) (outgoing j) = i == j
link_beq (accepted i) (accepted j) = i == j
link_beq (outgoing i) (accepted j) = Bool.false
link_beq (accepted i) (outgoing j) = Bool.false

pub link_beq_iff : (a b : Link) → (link_beq a b ≡ Bool.true) ↔ (a ≡ b)
link_beq_iff (outgoing i) (outgoing j) = (λ h. ground arith, λ h. ground arith)
link_beq_iff (accepted i) (accepted j) = (λ h. ground arith, λ h. ground arith)
link_beq_iff (outgoing i) (accepted j) = (λ h. cc, λ h. cc)
link_beq_iff (accepted i) (outgoing j) = (λ h. cc, λ h. cc)

instance abbrev pub link_eq : Eq Link
link_eq = record { beq = link_beq; beq_iff = link_beq_iff }

-- What waits on the strand: an `init_snapshot`, a `marker` from a branch, a `retrieve_snapshot` and
-- a `hello` that came on a channel.
pub data Task : Type 0 where
  begin_snapshot : ℕ → Task
  take_marker : ℕ → String → Task
  give_snapshot : ℕ → Link → Task
  greet : String → Link → Task

-- `names` has what a `hello` put into the handler of a channel; `dials` has the peers
-- to which channels were opened, and `accepts` counts the accepted channels. `sent` is what was
-- sent, oldest first.
pub record Branch : Type 0 where
  pub name : String
  pub channels : Dict String Link
  pub known_peers : List PeerInfo
  pub money : ℕ
  pub snapshot : Option Snapshot
  pub pending_peers : List Link
  pub names : Dict Link String
  pub dials : List PeerInfo
  pub accepts : ℕ
  pub timer : Bool
  pub tasks : List Task
  pub sent : List (Link × BranchMessage)

-- The handler of the timer, with the index that it draws; the timer runs again afterwards.
unfoldable pub do_send_money : ℕ → List Round → Branch → Option Branch
unfolding withdraw
do_send_money i rounds b = elim (get_elem? b.channels i) [
  | none ↦ some b
  | some (name, ch) ↦ elim (withdraw rounds b.money b.money) [
    | none ↦ none
    | some w ↦ some (record b {
      money = w.money;
      sent = if ltb 0 w.to_send then b.sent ++ (ch, transfer w.to_send) ∷ [] else b.sent;
    })
  ]
]

unfoldable pub do_accept : Branch → Branch
do_accept b = record b {
  pending_peers = b.pending_peers ++ accepted b.accepts ∷ [];
  accepts = b.accepts + 1;
}

unfoldable pub init_branch_handler : InitBranch → Branch → Outcome Branch
unfolding find_self ring at_all erase
init_branch_handler msg b = do
  let num = length msg.all_branches
  let peers = b.known_peers ++ map narrow msg.all_branches
  offset ←
      or_fault (find_self b.name peers 0) (runtime_error "Init branch message does not include me!")
  dials ← at_all peers (ring (length peers) (offset + 1) (outgoing_count num offset))
  ok (record b {
    money = msg.balance;
    known_peers = erase offset peers;
    dials = b.dials ++ dials;
    timer = Bool.true;
  })

abbrev pub post : Task → Branch → Branch
post task b = record b { tasks = b.tasks ++ task ∷ [] }

abbrev recorded : String → ℕ → Option Snapshot → Option Snapshot
recorded from amount none = none
recorded from amount (some s) = some (record_tx from amount s)

-- What `transfer_handler` does once it has added the money.
unfoldable pub record_transfer : ℕ → String → Branch → Branch
unfolding record_tx
record_transfer amount from b = record b { snapshot = recorded from amount b.snapshot }

unfoldable pub transfer_handler : ℕ → String → Branch → Branch
unfolding record_transfer
transfer_handler amount from b =
    record_transfer amount from (record b { money = add64 b.money amount })

-- The name in the handler of a channel.
abbrev pub first_name : Link → Branch → String
first_name (outgoing i) b = elim (get_elem? b.dials i) [ none ↦ "" | some peer ↦ peer.0 ]
first_name (accepted i) b = ""

abbrev pub name_of : Link → Branch → String
name_of ci b = elim (lookup ci b.names) [ none ↦ first_name ci b | some name ↦ name ]

unfoldable pub message_handler : BranchMessage → Link → Branch → Outcome Branch
unfolding init_branch_handler transfer_handler
message_handler (init_branch msg) ci b = init_branch_handler msg b
message_handler (init_snapshot id) ci b = ok (post (begin_snapshot id) b)
message_handler (Messages.marker id) ci b = ok (post (take_marker id (name_of ci b)) b)
message_handler (retrieve_snapshot id) ci b = ok (post (give_snapshot id ci) b)
message_handler (return_snapshot msg) ci b = ok b
message_handler (transfer amount) ci b = ok (transfer_handler amount (name_of ci b) b)
message_handler (hello name) ci b = ok (post (greet name ci) b)
message_handler unset ci b = ok b

-- The loops over `d_channels`.
unfoldable pub to_channels : BranchMessage → Dict String Link → List (Link × BranchMessage)
to_channels msg [] = []
to_channels msg ((name, ch) ∷ channels) = (ch, msg) ∷ to_channels msg channels

unfoldable pub begin : ℕ → Branch → Branch
unfolding make to_channels
begin id b = record b {
  snapshot = some (make id b.money b.known_peers);
  sent = b.sent ++ to_channels (Messages.marker id) b.channels;
}

abbrev pub holds_snapshot : ℕ → Option Snapshot → Bool
holds_snapshot id none = Bool.false
holds_snapshot id (some s) = id == s.id

abbrev marked : String → Option Snapshot → Option Snapshot
marked from none = none
marked from (some s) = some (Snapshot.marker from s)

-- The task of `marker_handler`.
unfoldable pub mark : ℕ → String → Branch → Branch
unfolding begin Snapshot.marker
mark id from b =
    let b' = if holds_snapshot id b.snapshot then b else begin id b in
    record b' { snapshot = marked from b'.snapshot }

-- The task of `retrieve_snapshot_handler`, which follows a null pointer before any snapshot.
unfoldable pub give : ℕ → Link → Branch → Outcome Branch
unfolding to_message
give id ch b = do
  s ← or_fault b.snapshot undefined
  if id == s.id
      then (do
        msg ← to_message s
        ok (record b {
          sent = b.sent ++ (ch, return_snapshot (record msg { name = b.name })) ∷ [];
        }))
      else ok b

-- `remove` and `erase`
abbrev pub without : Link → List Link → List Link
without ch [] = []
without ch (l ∷ links) = let rest = without ch links in if beq l ch then rest else l ∷ rest

-- The task of `hello_handler`.
unfoldable pub greeted : String → Link → Branch → Branch
greeted name ch b = record b {
  pending_peers = without ch b.pending_peers;
  names = put ch name b.names;
  channels = emplace name ch b.channels;
}

unfoldable pub run_task : Branch → Outcome Branch
unfolding begin mark give greeted
run_task b = elim b.tasks [
  | [] ↦ ok b
  | task ∷ rest ↦
      let b' = record b { tasks = rest } in
      elim task [
        | begin_snapshot id ↦ ok (begin id b')
        | take_marker id from ↦ ok (mark id from b')
        | give_snapshot id ch ↦ give id ch b'
        | greet name ch ↦ ok (greeted name ch b')
      ]
]

-- The handler of `connect_cb` for the channel number i.
unfoldable pub connected : ℕ → Branch → Branch
connected i b = elim (get_elem? b.dials i) [
  | none ↦ b
  | some peer ↦ record b {
    channels = emplace peer.0 (outgoing i) b.channels;
    sent = b.sent ++ (outgoing i, hello b.name) ∷ [];
  }
]
