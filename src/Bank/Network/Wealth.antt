-- ===== src/Bank/Network/Wealth.antt =====
-- The money of the whole bank (bank/src/branch.cpp): of its branches, and on its way.
use cs.Prelude.{
  ℕ, zero, suc, ◌+◌, ◌^◌, ◌≤◌, ◌<◌, ◌≡◌, refl, ap, ◌∙◌, some, List, [], ◌∷◌, ◌++◌, set, get_elem?,
  arith,
}
use cs.Bank.Messages.{BranchMessage, init_snapshot, retrieve_snapshot}
use cs.Bank.Branch.{Link, Branch, record_transfer, connected, do_accept, name_of}
use cs.Bank.Branch.Conserves.{amount, paid, paid-append, Balanced, Step-Balanced}
use cs.Bank.Branch.Conserves as Alone
use cs.Bank.Network.{
  Letter, Wiring, Network, Taken, first, later, AllTaken, done, next, money_of, letter,
  record_transfers, with_branch, addressed, Step, runs, connects, accepts, begins, retrieves,
  transmits, arrives, pays, Steps, idle, then,
}

-- The money of a branch, with that of the transfers that wait in its channels.
abbrev pub held : List Branch → ℕ
held [] = 0
held (b ∷ branches) = b.money + paid b.sent + held branches

abbrev pub carried : List Letter → ℕ
carried [] = 0
carried (l ∷ letters) = amount l.content + carried letters

abbrev pub wealth : Network → ℕ
wealth net = held net.branches + carried net.in_flight

carried-append : (ls ms : List Letter) → carried (ls ++ ms) ≡ carried ls + carried ms
carried-append [] ms = omega arith
carried-append (l ∷ ls) ms = omega (arith, carried-append ls ms)

carried-Taken :
    (l : Letter) (letters left : List Letter)
    → Taken l letters left
    → carried letters ≡ amount l.content + carried left
carried-Taken l _ _ first = refl
carried-Taken l _ _ (later {m = m} {letters = letters} {left = left} other taken) =
    omega (arith, carried-Taken l letters left taken)

carried-AllTaken :
    (i : ℕ) (transfers : List (Link × ℕ)) (letters left : List Letter)
    → AllTaken i transfers letters left
    → carried letters ≡ money_of transfers + carried left
carried-AllTaken i _ _ _ done = omega arith
carried-AllTaken i _ _ _
      (next {ci = ci} {money = money} {transfers = ts} {letters = ls} {left = ms} {rest = rest} one
        more) =
    omega (arith, carried-Taken (letter i ci money) ls ms one, carried-AllTaken i ts ms rest more)

held-set :
    (branches : List Branch) (i : ℕ) (b b' : Branch)
    → get_elem? branches i ≡ some b
    → held (set branches i b') + (b.money + paid b.sent) ≡ held branches + (b'.money + paid b'.sent)
held-set [] i b b' there = cc
held-set (c ∷ branches) zero b b' there = let same : c ≡ b = cc in ground (arith, same)
held-set (c ∷ branches) (suc i) b b' there = omega (arith, held-set branches i b b' there)

held-member :
    (branches : List Branch) (i : ℕ) (b : Branch)
    → get_elem? branches i ≡ some b
    → b.money + paid b.sent ≤ held branches
held-member [] i b there = absurd (cc there)
held-member (c ∷ branches) zero b there = let same : c ≡ b = cc in ground (arith, same)
held-member (c ∷ branches) (suc i) b there = omega (arith, held-member branches i b there)

-- A branch that takes over n from the letters and is balanced.
wealth-Balanced :
    (net : Network) (i n : ℕ) (b b' : Branch) (left : List Letter)
    → wealth net < 2 ^ 64
    → get_elem? net.branches i ≡ some b
    → carried net.in_flight ≡ n + carried left
    → (b.money < 2 ^ 64 → Balanced b n b')
    → wealth (record { branches = set net.branches i b'; in_flight = left }) ≡ wealth net
wealth-Balanced net i n b b' left small there split balanced =
    let part = held-member net.branches i b there in
    let fine = (balanced (omega (arith, part))).sum in
    omega (arith, part, held-set net.branches i b b' there, fine, split)

-- A branch that does a step of its own.
wealth-alone :
    (net : Network) (i : ℕ) (b b' : Branch)
    → wealth net < 2 ^ 64
    → get_elem? net.branches i ≡ some b
    → Alone.Step b 0 b'
    → wealth (with_branch i b' net) ≡ wealth net
wealth-alone net i b b' small there step =
    wealth-Balanced net i 0 b b' net.in_flight small there (omega arith)
      (λ range. Step-Balanced b b' 0 range step)

record_transfers_keeps :
    (transfers : List (Link × ℕ)) (b : Branch)
    → ((record_transfers transfers b).money ≡ b.money)
      × ((record_transfers transfers b).sent ≡ b.sent)
unfolding record_transfer
record_transfers_keeps [] b = (refl, refl)
record_transfers_keeps ((ci, money) ∷ transfers) b =
    record_transfers_keeps transfers (record_transfer money (name_of ci b) b)

recorded-Balanced :
    (transfers : List (Link × ℕ)) (n : ℕ) (b b' : Branch)
    → Balanced b n b'
    → Balanced b n (record_transfers transfers b')
recorded-Balanced transfers n b b' balanced =
    let keeps = record_transfers_keeps transfers b' in
    record {
      range = omega (arith, keeps.0, balanced.range);
      sum = omega (arith, keeps.0, ap paid keeps.1, balanced.sum);
    }

wealth-transmits :
    (wiring : Wiring) (net : Network) (i : ℕ) (b : Branch) (ch : Link) (msg : BranchMessage)
    (rest : List (Link × BranchMessage))
    → get_elem? net.branches i ≡ some b
    → b.sent ≡ (ch, msg) ∷ rest
    → wealth (record {
      branches = set net.branches i (record b { sent = rest });
      in_flight = net.in_flight ++ addressed wiring i ch msg ∷ [];
    })
      ≡ wealth net
wealth-transmits wiring net i b ch msg rest there waits = omega (
  arith,
  held-set net.branches i b (record b { sent = rest }) there,
  ap paid waits,
  carried-append net.in_flight (addressed wiring i ch msg ∷ []),
)

wealth-Step :
    (wiring : Wiring) (net net' : Network)
    → wealth net < 2 ^ 64
    → Step wiring net net'
    → wealth net' ≡ wealth net
wealth-Step wiring net _ small (runs i b {b' = b'} there h) =
    wealth-alone net i b b' small there (Alone.runs h)
wealth-Step wiring net _ small (connects i b k there) =
    wealth-alone net i b (connected k b) small there (Alone.connects k)
wealth-Step wiring net _ small (accepts i b there) =
    wealth-alone net i b (do_accept b) small there Alone.accepts
wealth-Step wiring net _ small (begins i b {b' = b'} ci id there h) =
    wealth-alone net i b b' small there (Alone.arrives (init_snapshot id) ci tt h)
wealth-Step wiring net _ small (retrieves i b {b' = b'} ci id there h) =
    wealth-alone net i b b' small there (Alone.arrives (retrieve_snapshot id) ci tt h)
wealth-Step wiring net _ small (transmits i b ch msg rest there waits) =
    wealth-transmits wiring net i b ch msg rest there waits
wealth-Step wiring net _ small (arrives i b {b' = b'} l left there here plain taken h) =
    wealth-Balanced net i (amount l.content) b b' left small there
      (carried-Taken l net.in_flight left taken)
      (λ range.
        Step-Balanced b b' (amount l.content) range (Alone.arrives l.content l.channel plain h))
wealth-Step wiring net _ small
      (pays i b {b' = b'} k xs ys draw transfers left there within quiet_within h taken met) =
    wealth-Balanced net i (money_of transfers) b (record_transfers transfers b') left small there
      (carried-AllTaken i transfers net.in_flight left taken)
      (λ range.
        recorded-Balanced transfers (money_of transfers) b b'
          (rw met (Step-Balanced b b' _ range (Alone.pays k xs ys draw within quiet_within h))))

-- However the branches of a bank run, as long as no balance is set anew, draws take no more than the
-- balance and each withdrawal has a round without interference: if all balances, the transfers that
-- wait in channels and those on their way come to less than 2^64, then they come to the same sum at
-- every later time, exactly and not only modulo 2^64.
pub wealth_conserved :
    (wiring : Wiring) (net net' : Network)
    → wealth net < 2 ^ 64
    → Steps wiring net net'
    → wealth net' ≡ wealth net
wealth_conserved wiring net _ small idle = refl
wealth_conserved wiring net _ small (then {n₁ = n₁} {n₂ = n₂} steps last) =
    let before = wealth_conserved wiring net n₁ small steps in
    wealth-Step wiring n₁ n₂ (omega (arith, before, small)) last ∙ before
