-- ===== src/Bank/Global.antt =====
-- The bank as its mains run it (bank/src/branch_main.cpp): each process has one thread. A message and
-- the task that it posts on the strand are one event here: that the thread may handle another message
-- of the branch in between is left out. One snapshot is taken.
pub mod Cut
pub mod Local
pub mod Events
pub mod Transfers
pub mod Markers
pub mod Invariant
pub mod Kept
pub mod Ends
pub mod Arrivals
pub mod Returns
pub mod Consistent
use cs.Prelude.{
  ℕ, zero, suc, ◌+◌, ◌<◌, ◌≡◌, ◌⊎◌, Bool, true, false, ◌&&◌, ◌||◌, if◌then◌else◌, ◌==◌, Option,
  none, some, List, [], ◌∷◌, ◌++◌, All, String,
}
use cs.Prelude.Eq.{string_eq}
use cs.Prelude.Dict.{Dict, lookup}
use cs.Prelude.Outcome.{Outcome, ok, ◌>>=◌}
use cs.Bank.Messages.{BranchMessage, init_snapshot}
use cs.Bank.Snapshot.{VarState, empty, recording, completed, Snapshot}
use cs.Bank.Withdrawal.{Round}
use cs.Bank.Withdrawal.Ends.{IsWithin, quiet, received}
use cs.Bank.Snapshot.Recorded.{is_peer}
use cs.Bank.Branch.{Link, Branch, message_handler, run_task, do_send_money, holds_snapshot, name_of}
use cs.Bank.Network.{Letter, Wiring, addressed, Taken}

pub record Bank : Type 0 where
  pub branches : ℕ → Branch
  pub letters : List Letter

abbrev pub update : (ℕ → Branch) → ℕ → Branch → ℕ → Branch
update branches i b j = if j == i then b else branches j

-- A message, with the task that it posts.
unfoldable pub handle : BranchMessage → Link → Branch → Outcome Branch
unfolding message_handler run_task
handle msg ci b = message_handler msg ci b >>= run_task

unfoldable pub address_all : Wiring → ℕ → List (Link × BranchMessage) → List Letter
address_all wiring i [] = []
address_all wiring i ((ch, msg) ∷ sent) = addressed wiring i ch msg ∷ address_all wiring i sent

-- A branch as it is after an event, with what it sent on its way behind the other letters.
unfoldable pub flush : Wiring → ℕ → Branch → (ℕ → Branch) → List Letter → Bank
unfolding address_all
flush wiring i b branches letters = record {
  branches = update branches i (record b { sent = [] });
  letters = letters ++ address_all wiring i b.sent;
}

-- One event among n branches while the snapshot number `id` is taken: the controller asks a branch
-- that takes no part yet, a timer fires and meets no other thread, or a message arrives.
pub data Step (n : ℕ) (wiring : Wiring) (id : ℕ) (bank : Bank) : Bank → Type 0 where
  begins :
      {b' : Branch} (i : ℕ) (ci : Link)
      → i < n
      → holds_snapshot id (bank.branches i).snapshot ≡ false
      → handle (init_snapshot id) ci (bank.branches i) ≡ ok b'
      → Step n wiring id bank (flush wiring i b' bank.branches bank.letters)
  pays :
      {b' : Branch} (i k : ℕ) (xs : List Round) (draw : ℕ → ℕ)
      → i < n
      → received xs ≡ 0
      → All IsWithin xs
      → IsWithin (quiet draw)
      → do_send_money k (xs ++ quiet draw ∷ []) (bank.branches i) ≡ some b'
      → Step n wiring id bank (flush wiring i b' bank.branches bank.letters)
  arrives :
      {b' : Branch} (l : Letter) (left : List Letter)
      → Taken l bank.letters left
      → handle l.content l.channel (bank.branches l.destination) ≡ ok b'
      → Step n wiring id bank (flush wiring l.destination b' bank.branches left)

pub data Steps (n : ℕ) (wiring : Wiring) (id : ℕ) (bank : Bank) : Bank → Type 0 where
  idle : Steps n wiring id bank bank
  then :
      {b₁ b₂ : Bank}
      → Steps n wiring id bank b₁
      → Step n wiring id b₁ b₂
      → Steps n wiring id bank b₂

abbrev pub HasChannel : Link → Dict String Link → Type 0
HasChannel ch [] = ⊥
HasChannel ch ((name, c) ∷ channels) = (c ≡ ch) ⊎ HasChannel ch channels

-- The channel ch of branch j is the other end of a channel of a branch i.
pub record Wired (n : ℕ) (wiring : Wiring) (branches : ℕ → Branch) (j : ℕ) (ch : Link)
    : Type 0 where
  pub i : ℕ
  pub far : Link
  pub inside : i < n
  pub has : HasChannel far (branches i).channels
  pub ends : wiring i far ≡ (j, ch)

-- All connections are made and greeted: the channels between the branches have the names of peers
-- that are known, two channels of a branch have two names, and a channel has one sender.
pub record IsJoined (n : ℕ) (wiring : Wiring) (branches : ℕ → Branch) : Type 0 where
  pub inside : (j : ℕ) (ch : Link) → Wired n wiring branches j ch → j < n
  pub known :
      (j : ℕ) (ch : Link)
      → Wired n wiring branches j ch
      → is_peer (name_of ch (branches j)) (branches j).known_peers ≡ true
  pub named :
      (j : ℕ) (c d : Link)
      → Wired n wiring branches j c
      → Wired n wiring branches j d
      → name_of c (branches j) ≡ name_of d (branches j)
      → c ≡ d
  pub one_sender :
      (i k : ℕ) (c d : Link)
      → HasChannel c (branches i).channels
      → HasChannel d (branches k).channels
      → wiring i c ≡ wiring k d
      → i ≡ k

abbrev pub is_done : Option VarState → Bool
is_done (some (completed sum)) = true
is_done _ = false

abbrev pub done_in : ℕ → String → Option Snapshot → Bool
done_in id name none = false
done_in id name (some s) = id == s.id && is_done (lookup name s.states)

-- The branch has recorded all of the channel.
abbrev pub ended : ℕ → Branch → Link → Bool
ended id b ch = done_in id (name_of ch b) b.snapshot

abbrev pub begun : ℕ → Branch → Bool
begun id b = holds_snapshot id b.snapshot

abbrev pub money_in : VarState → ℕ
money_in empty = 0
money_in (recording sum) = sum
money_in (completed sum) = sum

abbrev pub sums : Dict String VarState → ℕ
sums [] = 0
sums ((name, state) ∷ states) = money_in state + sums states

-- What a snapshot has of the money of a branch and of its channels; before it, the money itself.
abbrev pub counted : ℕ → ℕ → Option Snapshot → ℕ
counted id money none = money
counted id money (some s) = if id == s.id then s.balance + sums s.states else money

abbrev pub value : ℕ → Branch → ℕ
value id b = counted id b.money b.snapshot

abbrev pub total : (Branch → ℕ) → (ℕ → Branch) → ℕ → ℕ
total worth branches zero = 0
total worth branches (suc n) = total worth branches n + worth (branches n)
