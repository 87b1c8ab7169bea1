-- ===== src/Bank/Withdrawal.antt =====
-- The loop of do_send_money in bank/src/branch.cpp.
pub mod Ends
use cs.Prelude.{
  ℕ, zero, suc, ◌+◌, ◌/◌, ◌%◌, ◌^◌, String, Bool, ◌&&◌, not, ltb, ◌==◌, if◌then◌else◌, Option, none,
  some, List, [], ◌∷◌,
}
use cs.Bank.Messages.{add64, sub64}

-- One round of the loop in `do_send_money`: the distribution's draw for a balance, the money that
-- other threads add between the load and the exchange, and whether the exchange fails without a
-- reason.
pub record Round : Type 0 where
  pub draw : ℕ → ℕ
  pub received : ℕ
  pub spurious : Bool

-- Where the loop ends: the money that it took, the money left, the rounds that it did not need.
pub record Withdrawn : Type 0 where
  pub to_send : ℕ
  pub money : ℕ
  pub unused : List Round

-- `none` where the loop still runs after these rounds.
unfoldable pub withdraw : List Round → ℕ → ℕ → Option Withdrawn
withdraw [] curr_money money = none
withdraw (r ∷ rounds) curr_money money =
    let to_send = r.draw curr_money in
    let end_bal = sub64 curr_money to_send in
    let now = add64 money r.received in
    let again = withdraw rounds (if ltb curr_money end_bal then curr_money else now) now in
    if to_send == 0
    then some (record { to_send = 0; money = now; unused = rounds })
    else if ltb curr_money end_bal
    then again
    else if now == curr_money && not r.spurious
    then some (record { to_send = to_send; money = end_bal; unused = rounds })
    else again
