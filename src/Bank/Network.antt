-- ===== src/Bank/Network.antt =====
-- The branches of a bank (bank/src/branch.cpp) with the messages between them: each branch sends what
-- waits in its channels, and the messages of one connection arrive in the order of sending.
pub mod Wealth
use cs.Prelude.{
  ℕ, ◌+◌, ◌≡◌, Bool, ◌&&◌, false, if◌then◌else◌, ◌==◌, Option, none, some, List, [], ◌∷◌, ◌++◌, set,
  get_elem?, All,
}
use cs.Prelude.Outcome.{ok}
use cs.Bank.Messages.{BranchMessage, transfer, init_snapshot, retrieve_snapshot}
use cs.Bank.Withdrawal.{Round}
use cs.Bank.Withdrawal.Ends.{IsWithin, quiet}
use cs.Bank.Branch.{
  Link, link_beq, Branch, message_handler, run_task, connected, do_accept, do_send_money, name_of,
  record_transfer,
}
use cs.Bank.Branch.Conserves.{IsPlain, came_meanwhile}

-- A message on its way: the number of the branch that it comes to, and its channel there.
pub record Letter : Type 0 where
  pub destination : ℕ
  pub channel : Link
  pub content : BranchMessage

-- The other end of a channel of a branch.
abbrev pub Wiring : Type 0
Wiring = ℕ → Link → ℕ × Link

abbrev pub addressed : Wiring → ℕ → Link → BranchMessage → Letter
addressed wiring i ch msg = record {
  destination = (wiring i ch).0;
  channel = (wiring i ch).1;
  content = msg;
}

pub record Network : Type 0 where
  pub branches : List Branch
  pub in_flight : List Letter

abbrev pub same_channel : Letter → Letter → Bool
same_channel l m = l.destination == m.destination && link_beq l.channel m.channel

-- The letter, and no other that was sent before it on its channel, is taken out.
pub data Taken (l : Letter) : List Letter → List Letter → Type 0 where
  first : {letters : List Letter} → Taken l (l ∷ letters) letters
  later :
      {m : Letter} {letters left : List Letter}
      → same_channel m l ≡ false
      → Taken l letters left
      → Taken l (m ∷ letters) (m ∷ left)

abbrev pub letter : ℕ → Link → ℕ → Letter
letter i ci money = record { destination = i; channel = ci; content = transfer money }

-- The transfers that come to a branch while it pays: their channels and their money.
pub data AllTaken (i : ℕ) : List (Link × ℕ) → List Letter → List Letter → Type 0 where
  done : {letters : List Letter} → AllTaken i [] letters letters
  next :
      {ci : Link} {money : ℕ} {transfers : List (Link × ℕ)} {letters left rest : List Letter}
      → Taken (letter i ci money) letters left
      → AllTaken i transfers left rest
      → AllTaken i ((ci, money) ∷ transfers) letters rest

abbrev pub money_of : List (Link × ℕ) → ℕ
money_of [] = 0
money_of ((ci, money) ∷ transfers) = money + money_of transfers

-- The rest of `transfer_handler` for transfers whose money is added already.
abbrev pub record_transfers : List (Link × ℕ) → Branch → Branch
record_transfers [] b = b
record_transfers ((ci, money) ∷ transfers) b =
    record_transfers transfers (record_transfer money (name_of ci b) b)

abbrev pub with_branch : ℕ → Branch → Network → Network
with_branch i b net = record net { branches = set net.branches i b }

-- What happens next in the bank, always at a branch i.
pub data Step (wiring : Wiring) (net : Network) : Network → Type 0 where
  -- a task of the strand, the end of a connect, an accept
  runs :
      (i : ℕ) (b : Branch) {b' : Branch}
      → get_elem? net.branches i ≡ some b
      → run_task b ≡ ok b'
      → Step wiring net (with_branch i b' net)
  connects :
      (i : ℕ) (b : Branch) (k : ℕ)
      → get_elem? net.branches i ≡ some b
      → Step wiring net (with_branch i (connected k b) net)
  accepts :
      (i : ℕ) (b : Branch)
      → get_elem? net.branches i ≡ some b
      → Step wiring net (with_branch i (do_accept b) net)
  -- the controller asks for a snapshot to be taken, or to be returned
  begins :
      (i : ℕ) (b : Branch) {b' : Branch} (ci : Link) (id : ℕ)
      → get_elem? net.branches i ≡ some b
      → message_handler (init_snapshot id) ci b ≡ ok b'
      → Step wiring net (with_branch i b' net)
  retrieves :
      (i : ℕ) (b : Branch) {b' : Branch} (ci : Link) (id : ℕ)
      → get_elem? net.branches i ≡ some b
      → message_handler (retrieve_snapshot id) ci b ≡ ok b'
      → Step wiring net (with_branch i b' net)
  -- the oldest message that waits in the channels leaves
  transmits :
      (i : ℕ) (b : Branch) (ch : Link) (msg : BranchMessage) (rest : List (Link × BranchMessage))
      → get_elem? net.branches i ≡ some b
      → b.sent ≡ (ch, msg) ∷ rest
      → Step wiring net (record {
        branches = set net.branches i (record b { sent = rest });
        in_flight = net.in_flight ++ addressed wiring i ch msg ∷ [];
      })
  -- a message that is no `init_branch` arrives
  arrives :
      (i : ℕ) (b : Branch) {b' : Branch} (l : Letter) (left : List Letter)
      → get_elem? net.branches i ≡ some b
      → l.destination ≡ i
      → IsPlain l.content
      → Taken l net.in_flight left
      → message_handler l.content l.channel b ≡ ok b'
      → Step wiring net (record { branches = set net.branches i b'; in_flight = left })
  -- the timer fires; transfers may come in during the rounds of its loop, of which `xs` may meet
  -- any and the next one meets none
  pays :
      (i : ℕ) (b : Branch) {b' : Branch} (k : ℕ) (xs ys : List Round) (draw : ℕ → ℕ)
      (transfers : List (Link × ℕ)) (left : List Letter)
      → get_elem? net.branches i ≡ some b
      → All IsWithin xs
      → IsWithin (quiet draw)
      → do_send_money k (xs ++ quiet draw ∷ ys) b ≡ some b'
      → AllTaken i transfers net.in_flight left
      → money_of transfers ≡ came_meanwhile k (xs ++ quiet draw ∷ ys) b
      → Step wiring net (record {
        branches = set net.branches i (record_transfers transfers b');
        in_flight = left;
      })

pub data Steps (wiring : Wiring) (net : Network) : Network → Type 0 where
  idle : Steps wiring net net
  then : {n₁ n₂ : Network} → Steps wiring net n₁ → Step wiring n₁ n₂ → Steps wiring net n₂
