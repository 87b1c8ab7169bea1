-- ===== src/Bank/Examples/Branches.antt =====
-- A branch, its controller and a channel.
use mathlib.Core.List.{flatten}
use cs.Prelude.{
  ℕ, suc, ◌+◌, ◌*◌, ◌/◌, ◌%◌, ◌^◌, ◌≡◌, refl, arith, String, true, false, some, none, List, [], ◌∷◌,
  ◌++◌, length, take, map, All, ◌<◌,
}
use cs.Prelude.Eq.{Bytes}
use cs.Prelude.Outcome.{ok, fault}
use cs.Bank.Messages.{BranchMessage, transfer, init_branch}
use cs.Bank.Branch.{outgoing, Branch, message_handler, do_send_money}
use cs.Bank.Withdrawal.{Round}
use cs.Bank.Withdrawal.Ends.{quiet}
use cs.Bank.Branch.Conserves.{paid, idle, then, arrives, pays, money_conserved}
use cs.Bank.Controller.{Controller, new, timer_fired, do_read_list, numbered, is_space}
use cs.Bank.Controller.Shares.{connect_all, shares_even}
use cs.Bank.Controller.Lines.{Row, IsField, IsRow, no_space, text, peer}
use cs.Bank.Controller.Rounds.{rounds, Numbered, rounds-Numbered}
use cs.Bank.Channel.{read_messages}
use cs.Bank.Channel
use cs.Bank.Channel.Same.{branch_msgs_delivered}
use cs.Kv.Codec.{Codec}
use cs.Bank.Channel.Delivery.{Action, sends, completes, messages, run_bank}

abbrev fortieth : ℕ → ℕ
fortieth balance = balance / 40

abbrev raced : List Round
raced = record { draw = fortieth; received = 80; spurious = false } ∷ []

abbrev branch : Branch
branch = record {
  name = "b1";
  channels = ("b2", outgoing 0) ∷ [];
  known_peers = ("b2", "10.0.0.2", 9000) ∷ ("b3", "10.0.0.3", 9000) ∷ [];
  money = 1000;
  snapshot = none;
  pending_peers = [];
  names = [];
  dials = ("b2", "10.0.0.2", 9000) ∷ [];
  accepts = 0;
  timer = true;
  tasks = [];
  sent = [];
}

abbrev richer : Branch
unfolding message_handler
richer = elim (message_handler (transfer 40) (outgoing 0) branch) [ ok b ↦ b | fault e ↦ branch ]

abbrev paying : Branch
unfolding message_handler do_send_money
paying = elim (do_send_money 0 (raced ++ quiet fortieth ∷ []) richer) [ none ↦ richer | some b ↦ b ]

money_conserved_example : (paying.money + paid paying.sent) % 2 ^ 64 ≡ 1120
unfolding message_handler do_send_money
money_conserved_example = money_conserved branch paying 120 (omega arith) (
    then {b₁ = richer} (then {b₁ = branch} idle (arrives (transfer 40) (outgoing 0) tt refl))
      (pays 0 raced [] fortieth ((λ b. omega arith), tt) (λ b. omega arith) refl))

abbrev lines : List String
lines = "b1 10.0.0.1 9000" ∷ "b2 10.0.0.2  9000" ∷ "b3\t10.0.0.3 9000" ∷ []

abbrev begun : Controller
unfolding do_read_list new
begun = elim (do_read_list (some lines) (new 1000)) [ ok c ↦ c | fault e ↦ new 1000 ]

abbrev row : String → String → String → Row
row name ip gap₂ = record { name = name; gap₁ = " "; ip = ip; gap₂ = gap₂; port = "9000" }

abbrev rows : List Row
rows = row "b1" "10.0.0.1" " " ∷ row "b2" "10.0.0.2" "  " ∷ row "b3" "10.0.0.3" "\t" ∷ []

row-IsRow :
    (name ip gap₂ : String)
    → IsField no_space name
    → IsField no_space ip
    → IsField is_space gap₂
    → IsRow (row name ip gap₂)
row-IsRow name ip gap₂ named placed apart = record {
  named = named;
  apart₁ = record { some_text = refl; every = refl };
  placed = placed;
  apart₂ = apart;
  numbered = record { some_text = refl; every = refl };
  small = omega arith;
}

rows-IsRow : All IsRow rows
rows-IsRow = (
  row-IsRow "b1" "10.0.0.1" " " (record { some_text = refl; every = refl })
      (record { some_text = refl; every = refl }) (record { some_text = refl; every = refl }),
  (
    row-IsRow "b2" "10.0.0.2" "  " (record { some_text = refl; every = refl })
        (record { some_text = refl; every = refl }) (record { some_text = refl; every = refl }),
    (
      row-IsRow "b3" "10.0.0.3" "\t" (record { some_text = refl; every = refl })
          (record { some_text = refl; every = refl }) (record { some_text = refl; every = refl }),
      tt,
    ),
  ),
)

shares_even_example :
    (c : Controller) × (share rest : ℕ) × (do_read_list (some (map text rows)) (new 1000) ≡ ok c)
    × (c.channels ≡ numbered 0 (map peer rows))
    × ((connect_all (2 ∷ 0 ∷ []) c).sent
        ≡ map
            (λ ch. (ch, init_branch (record { balance = share; all_branches = map peer rows })))
            (2 ∷ 0 ∷ []))
    × (length rows * share + rest ≡ 1000)
    × (rest < length rows)
shares_even_example =
    shares_even (row "b1" "10.0.0.1" " ") (row "b2" "10.0.0.2" "  " ∷ row "b3" "10.0.0.3" "\t" ∷ [])
      1000 (2 ∷ 0 ∷ []) rows-IsRow

abbrev ended : Controller
unfolding do_read_list new rounds timer_fired
ended = elim (rounds (2 ∷ 0 ∷ []) begun) [ ok c ↦ c | fault e ↦ begun ]

rounds-Numbered_example :
    (sent : List (ℕ × BranchMessage)) × (ended.sent ≡ sent)
    × Numbered (0 ∷ 1 ∷ 2 ∷ []) 1 (2 ∷ 0 ∷ []) sent
    × (ended.snapshot_id ≡ 3)
unfolding do_read_list new rounds timer_fired
rounds-Numbered_example = rounds-Numbered (2 ∷ 0 ∷ []) begun ended refl (omega arith) refl

instance abbrev raw : Codec Bytes
raw = record { serialize = λ m. m; parse = λ m. m; parse-serialize = λ m. refl }

abbrev actions : List (Action Bytes)
actions = sends (1 ∷ 2 ∷ []) ∷ sends (3 ∷ []) ∷ completes ∷ []

branch_msgs_delivered_example :
    (c : Channel.Channel) × (run_bank actions Channel.new ≡ ok c)
    × (read_messages {M = Bytes}
          (suc (length (take (length c.wire) (messages actions)) + 1))
          (flatten c.wire)
        ≡ take (length c.wire) (messages actions))
branch_msgs_delivered_example = branch_msgs_delivered actions 1 (omega arith, (omega arith, tt))
