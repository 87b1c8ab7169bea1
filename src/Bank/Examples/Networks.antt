-- ===== src/Bank/Examples/Networks.antt =====
-- Two branches with a transfer between them, and a snapshot that comes back.
use cs.Prelude.{ℕ, zero, suc, ◌/◌, ◌≡◌, ◌⊎◌, refl, arith, true, false, none, List, [], ◌∷◌}
use cs.Prelude.Outcome.{ok, fault, bad_variant_access}
use cs.Bank.Messages.{PeerInfo, ReturnSnapshot, transfer}
use cs.Bank.Snapshot.{make, to_message}
use cs.Bank.Snapshot.Recorded.{tx, mark, Event, run}
use cs.Bank.Snapshot.Returned.{all_marked, Returns, snapshot_returned}
use cs.Bank.Branch.{accepted, outgoing, Branch, message_handler, do_send_money}
use cs.Bank.Network.{Wiring, Network, letter, first, done, idle, then, transmits, arrives, pays}
use cs.Bank.Network.Wealth.{wealth, wealth_conserved}

abbrev pub first_branch : Branch
first_branch = record {
  name = "b1";
  channels = ("b2", outgoing 0) ∷ [];
  known_peers = ("b2", "10.0.0.2", 9000) ∷ [];
  money = 1000;
  snapshot = none;
  pending_peers = [];
  names = [];
  dials = ("b2", "10.0.0.2", 9000) ∷ [];
  accepts = 0;
  timer = true;
  tasks = [];
  sent = [];
}

abbrev pub second_branch : Branch
second_branch = record {
  name = "b2";
  channels = ("b1", accepted 0) ∷ [];
  known_peers = ("b1", "10.0.0.1", 9000) ∷ [];
  money = 500;
  snapshot = none;
  pending_peers = [];
  names = (accepted 0, "b1") ∷ [];
  dials = [];
  accepts = 1;
  timer = true;
  tasks = [];
  sent = [];
}

-- The two ends of the only channel.
abbrev pub wiring : Wiring
wiring zero ch = (1, accepted 0)
wiring (suc i) ch = (0, outgoing 0)

abbrev network : Network
network = record { branches = first_branch ∷ second_branch ∷ []; in_flight = [] }

abbrev pub fortieth : ℕ → ℕ
fortieth balance = balance / 40

abbrev paid_branch : Branch
paid_branch = record first_branch { money = 975; sent = (outgoing 0, transfer 25) ∷ [] }

abbrev received_branch : Branch
received_branch = record second_branch { money = 525 }

abbrev paid_network : Network
paid_network = record network { branches = paid_branch ∷ second_branch ∷ [] }

abbrev sent_network : Network
sent_network = record {
  branches = record first_branch { money = 975 } ∷ second_branch ∷ [];
  in_flight = letter 1 (accepted 0) 25 ∷ [];
}

abbrev received_network : Network
received_network = record {
  branches = record first_branch { money = 975 } ∷ received_branch ∷ [];
  in_flight = [];
}

wealth_conserved_example : wealth received_network ≡ 1500
unfolding message_handler do_send_money
wealth_conserved_example = wealth_conserved wiring network received_network (omega arith) (
    then {n₁ = sent_network}
      (then {n₁ = paid_network}
        (then {n₁ = network} idle
          (pays 0 first_branch 0 [] [] fortieth [] [] refl tt (λ b. omega arith) refl done refl))
        (transmits 0 paid_branch (outgoing 0) (transfer 25) [] refl refl))
      (arrives 1 second_branch (letter 1 (accepted 0) 25) [] refl refl tt first refl))

abbrev peers : List PeerInfo
peers = ("b2", "10.0.0.2", 9000) ∷ ("b3", "10.0.0.3", 9000) ∷ []

abbrev events : List Event
events = tx "b3" 5 ∷ mark "b2" ∷ tx "b3" 7 ∷ mark "b3" ∷ tx "b3" 9 ∷ []

snapshot_returned_example :
    ((all_marked peers events ≡ true)
      × ((msg : ReturnSnapshot) × (to_message (run events (make 1 500 peers)) ≡ ok msg)
          × Returns 1 500 peers events msg))
    ⊎ ((all_marked peers events ≡ false)
        × (to_message (run events (make 1 500 peers)) ≡ fault bad_variant_access))
snapshot_returned_example = snapshot_returned 1 500 peers events
