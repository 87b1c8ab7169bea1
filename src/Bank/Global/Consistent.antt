-- ===== src/Bank/Global/Consistent.antt =====
-- The snapshot of a whole bank (bank/src/branch.cpp, bank/src/snapshot.cpp): what the branches return
-- adds up to the money that there is.
use cs.Prelude.{ℕ, zero, suc, ◌+◌, ◌^◌, ◌<◌, ◌≡◌, refl, true, false, List, [], ◌∷◌, arith, All}
use cs.Prelude.Eq.{string_eq}
use cs.Bank.Messages.{
  BranchMessage, ReturnSnapshot, unset, init_branch, transfer, init_snapshot, retrieve_snapshot,
  return_snapshot, hello,
}
use cs.Bank.Messages
use cs.Bank.Branch.{Link, Branch, name_of}
use cs.Bank.Network.{Letter, Wiring}
use cs.Bank.Network.Wealth.{carried}
use cs.Bank.Global.{
  Bank, begins, pays, arrives, Steps, idle, then, Wired, IsJoined, begun, value, total,
}
use cs.Bank.Global.Cut.{Marks, weight, cuts, is_marker, marker_in}
use cs.Bank.Global.Local.{IsReady, counted_fresh, done_in_fresh}
use cs.Bank.Global.Transfers.{do_send_money-Goes}
use cs.Bank.Global.Markers.{IsFine, IsOf}
use cs.Bank.Global.Invariant.{recorded, name_of-SameLinks, Holds}
use cs.Bank.Global.Kept.{keeps-Pays}
use cs.Bank.Global.Returns.{
  Returned, total_returned, Returned-ended, weight-ended, total_returned-total,
}
use cs.Bank.Global.Ends.{All-Wired}
use cs.Bank.Global.Arrivals.{kept_arrives, kept_begins}

-- A channel between branches on which a transfer is.
abbrev IsTransfer : BranchMessage → Type 0
IsTransfer (transfer money) = Unit {0}
IsTransfer _ = ⊥

abbrev pub IsEarly : ℕ → Wiring → (ℕ → Branch) → Letter → Type 0
IsEarly n wiring branches l = Wired n wiring branches l.destination l.channel × IsTransfer l.content

-- A bank before the snapshot: no branch takes part, and only transfers are on their way.
pub record IsBefore (n : ℕ) (wiring : Wiring) (id : ℕ) (bank : Bank) : Type 0 where
  pub ready : (i : ℕ) → i < n → IsReady id (bank.branches i)
  pub fresh : (i : ℕ) → begun id (bank.branches i) ≡ false
  pub early : All (IsEarly n wiring bank.branches) bank.letters

-- All the money, of the branches and on its way.
abbrev pub all_money : ℕ → Bank → ℕ
all_money n bank = total (λ b. b.money) bank.branches n + carried bank.letters

total-ext :
    (v w : Branch → ℕ) (branches : ℕ → Branch) (n : ℕ)
    → ((i : ℕ) → v (branches i) ≡ w (branches i))
    → total v branches n ≡ total w branches n
total-ext v w branches zero same = refl
total-ext v w branches (suc n) same = omega (arith, total-ext v w branches n same, same n)

IsTransfer-IsOf :
    (id : ℕ) (msg : BranchMessage) → IsTransfer msg → IsOf id msg × (is_marker id msg ≡ false)
IsTransfer-IsOf id (transfer money) h = (tt, refl)
IsTransfer-IsOf id unset h = absurd h
IsTransfer-IsOf id (init_branch msg) h = absurd h
IsTransfer-IsOf id (init_snapshot k) h = absurd h
IsTransfer-IsOf id (Messages.marker k) h = absurd h
IsTransfer-IsOf id (retrieve_snapshot k) h = absurd h
IsTransfer-IsOf id (return_snapshot msg) h = absurd h
IsTransfer-IsOf id (hello name) h = absurd h

module _ (n : ℕ) (wiring : Wiring) (id : ℕ) where
  early-letters :
      (branches : ℕ → Branch) (letters : List Letter) (cut : Marks)
      → ((j : ℕ) (ch : Link) → cut j ch ≡ false)
      → All (IsEarly n wiring branches) letters
      → All (IsFine n wiring id branches) letters
        × ((j : ℕ) (ch : Link) → marker_in id j ch letters ≡ false)
        × (weight id cut letters ≡ carried letters)
  early-letters branches [] cut uncut early = (tt, λ j ch. refl, refl)
  early-letters branches (l ∷ letters) cut uncut early =
      let (of, plain) = IsTransfer-IsOf id l.content early.0.1 in
      let (fine, unmarked, carries) =
        early-letters branches letters (cuts id l cut) (λ j ch. ground (arith, plain, uncut j ch))
          early.1 in
      (
        ((early.0.0, of), fine),
        λ j ch. ground (arith, plain, unmarked j ch),
        ground (arith, uncut l.destination l.channel, carries),
      )

  Holds-before :
      (bank : Bank)
      → IsBefore n wiring id bank
      → Holds n wiring id bank.branches (all_money n bank) bank
  Holds-before bank before =
      let uncut : (j : ℕ) (ch : Link) → recorded id bank.branches j ch ≡ false = λ j ch.
        done_in_fresh id (name_of ch (bank.branches j)) (bank.branches j).snapshot
          (before.fresh j) in
      let (fine, unmarked, carries) =
        early-letters bank.branches bank.letters (recorded id bank.branches) uncut before.early in
      record {
        ready = before.ready;
        links = λ i. record { channels = refl; known_peers = refl; names = refl; dials = refl };
        fine = fine;
        senders = λ i ch inside has. ground (
          arith,
          uncut (wiring i ch).0 (wiring i ch).1,
          unmarked (wiring i ch).0 (wiring i ch).1,
          before.fresh i,
        );
        adds_up = omega (
          arith,
          carries,
          total-ext (value id) (λ b. b.money) bank.branches n
              (λ i.
                counted_fresh id (bank.branches i).money (bank.branches i).snapshot
                  (before.fresh i)),
        );
      }

  Holds-Steps :
      (start : ℕ → Branch) (sum : ℕ) (bank bank' : Bank)
      → IsJoined n wiring start
      → sum < 2 ^ 64
      → Holds n wiring id start sum bank
      → Steps n wiring id bank bank'
      → Holds n wiring id start sum bank'
  Holds-Steps start sum bank _ joined small holds idle = holds
  Holds-Steps start sum bank _ joined small holds
        (then {b₁ = b₁} steps (begins {b' = b'} i ci inside fresh h)) =
      let before = Holds-Steps start sum bank b₁ joined small holds steps in
      kept_begins n wiring id start joined sum b₁ b' i ci inside before fresh h
  Holds-Steps start sum bank _ joined small holds
        (then {b₁ = b₁} steps (pays {b' = b'} i k xs draw inside none_in within quiet_within h)) =
      let before = Holds-Steps start sum bank b₁ joined small holds steps in
      let (goes, outcome) =
        do_send_money-Goes id k xs draw (b₁.branches i) b' (before.ready i inside) none_in within
          quiet_within h in
      keeps-Pays n wiring id start joined sum b₁ i b' inside before goes outcome
  Holds-Steps start sum bank _ joined small holds
        (then {b₁ = b₁} steps (arrives {b' = b'} l left taken h)) =
      let before = Holds-Steps start sum bank b₁ joined small holds steps in
      kept_arrives n wiring id start joined sum b₁ b' l left small before taken h

  -- Where a controller asks for a snapshot of a bank whose branches are all joined, each with one
  -- thread, and all money comes to less than 2^64: once every branch can return the snapshot, the
  -- balances and the money in transit that they return add up to all the money that there was before
  -- it, whatever was paid, sent and received in the meantime.
  pub snapshot_consistent :
      (bank bank' : Bank) (msgs : ℕ → ReturnSnapshot)
      → IsJoined n wiring bank.branches
      → IsBefore n wiring id bank
      → all_money n bank < 2 ^ 64
      → Steps n wiring id bank bank'
      → ((i : ℕ) → i < n → Returned id (bank'.branches i) (msgs i))
      → total_returned msgs n ≡ all_money n bank
  snapshot_consistent bank bank' msgs joined before small steps returned =
      let after =
        Holds-Steps bank.branches (all_money n bank) bank bank' joined small
          (Holds-before bank before) steps in
      let all_ended : (j : ℕ) (ch : Link)
          → Wired n wiring bank.branches j ch
          → recorded id bank'.branches j ch ≡ true =
        λ j ch wired.
          let inside = joined.inside j ch wired in
          let same = after.links j in
          Returned-ended id (bank'.branches j) (msgs j) ch (returned j inside) (
            (after.ready j inside).tracks (name_of ch (bank'.branches j)) (
              rw (name_of-SameLinks ch (bank.branches j) (bank'.branches j) same, same.known_peers)
                (joined.known j ch wired))) in
      let nothing =
        weight-ended id (Wired n wiring bank.branches) (recorded id bank'.branches) bank'.letters
          all_ended (All-Wired n wiring id bank.branches joined bank'.letters after.fine) in
      omega (arith, total_returned-total id bank'.branches msgs n returned, nothing, after.adds_up)
