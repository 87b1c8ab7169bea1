-- ===== src/Bank/Branch/Conserves.antt =====
-- The money of a branch (bank/src/branch.cpp) over all that can happen to it.
use cs.Prelude.{
  ℕ, ◌+◌, ◌-◌, ◌%◌, ◌^◌, ◌<◌, ◌≡◌, refl, ap, ◌∙◌, String, Option, none, some, List, [], ◌∷◌, ◌++◌,
  arith, ◌==◌, get_elem?, Bool-cases, Option-cases, inl, inr, All, subst,
}
use mathlib.Core.Option.{some-injective}
use cs.Prelude.Dict.{Dict}
use cs.Prelude.Outcome.{ok, ok-injective, >>=-eq-ok}
use cs.Bank.Messages.{
  BranchMessage, unset, init_branch, transfer, init_snapshot, retrieve_snapshot, return_snapshot,
  hello, add64,
}
use cs.Bank.Messages
use cs.Bank.Snapshot.{to_message}
use cs.Bank.Branch.{
  Link, outgoing, Branch, Task, begin_snapshot, take_marker, give_snapshot, greet, message_handler,
  run_task, connected, do_accept, do_send_money, to_channels, begin, mark, give,
}
use cs.Bank.Withdrawal.{Round, Withdrawn, withdraw}
use cs.Bank.Withdrawal.Ends.{IsWithin, quiet, received, withdraw_conserves}

-- The money in the transfers of a list.
abbrev pub amount : BranchMessage → ℕ
amount (transfer money) = money
amount _ = 0

abbrev pub paid : List (Link × BranchMessage) → ℕ
paid [] = 0
paid ((ch, msg) ∷ sent) = amount msg + paid sent

-- Any message but an `init_branch`, which sets the money.
abbrev pub IsPlain : BranchMessage → Type 0
IsPlain (init_branch msg) = ⊥
IsPlain _ = Unit {0}

-- What comes in during the rounds that the loop makes.
abbrev pub came : List Round → Option Withdrawn → ℕ
came rounds none = 0
came rounds (some w) = received rounds - received w.unused

abbrev pub came_meanwhile : ℕ → List Round → Branch → ℕ
came_meanwhile i rounds b = elim (get_elem? b.channels i) [
  | none ↦ 0
  | some _ ↦ came rounds (withdraw rounds b.money b.money)
]

-- One event, with the money that comes in.
pub data Step (b : Branch) : ℕ → Branch → Type 0 where
  arrives :
      {b' : Branch} (msg : BranchMessage) (ci : Link)
      → IsPlain msg
      → message_handler msg ci b ≡ ok b'
      → Step b (amount msg) b'
  runs : {b' : Branch} → run_task b ≡ ok b' → Step b 0 b'
  connects : (i : ℕ) → Step b 0 (connected i b)
  accepts : Step b 0 (do_accept b)
  pays :
      {b' : Branch} (i : ℕ) (xs ys : List Round) (draw : ℕ → ℕ)
      → All IsWithin xs
      → IsWithin (quiet draw)
      → do_send_money i (xs ++ quiet draw ∷ ys) b ≡ some b'
      → Step b (came_meanwhile i (xs ++ quiet draw ∷ ys) b) b'

pub data Steps (b : Branch) : ℕ → Branch → Type 0 where
  idle : Steps b 0 b
  then : {b₁ b₂ : Branch} {n m : ℕ} → Steps b n b₁ → Step b₁ m b₂ → Steps b (n + m) b₂

-- The balance grows by what came in, with the wrap-around of its width, and pays for the transfers.
pub record Balanced (b : Branch) (n : ℕ) (b' : Branch) : Type 0 where
  pub range : b'.money < 2 ^ 64
  pub sum : b'.money + paid b'.sent ≡ (b.money + n) % 2 ^ 64 + paid b.sent

-- The balance and the transfers sent grow by what came in.
record Grown (b : Branch) (n : ℕ) (b' : Branch) : Type 0 where
  range : b'.money < 2 ^ 64
  sum : (b'.money + paid b'.sent) % 2 ^ 64 ≡ (b.money + paid b.sent + n) % 2 ^ 64

pub paid-append : (xs ys : List (Link × BranchMessage)) → paid (xs ++ ys) ≡ paid xs + paid ys
paid-append [] ys = omega arith
paid-append ((ch, msg) ∷ xs) ys = omega (arith, paid-append xs ys)

paid-to_channels :
    (id : ℕ) (channels : Dict String Link) → paid (to_channels (Messages.marker id) channels) ≡ 0
unfolding to_channels
paid-to_channels id [] = refl
paid-to_channels id ((name, ch) ∷ channels) = omega (arith, paid-to_channels id channels)

-- A step that keeps the money and sends no transfer.
record Same (b b' : Branch) : Type 0 where
  money : b'.money ≡ b.money
  sent : paid b'.sent ≡ paid b.sent

Same-Balanced : (b b' : Branch) → b.money < 2 ^ 64 → Same b b' → Balanced b 0 b'
Same-Balanced b b' small same = record {
  range = rw same.money small;
  sum = omega (arith, same.money, same.sent);
}

begin-Same : (id : ℕ) (b : Branch) → Same b (begin id b)
unfolding begin
begin-Same id b = record {
  money = refl;
  sent = omega (
    arith,
    paid-append b.sent (to_channels (Messages.marker id) b.channels),
    paid-to_channels id b.channels,
  );
}

mark-Same : (id : ℕ) (from : String) (b : Branch) → Same b (mark id from b)
unfolding mark
mark-Same id from b = ground (arith, begin-Same id b)

give-Same : (id : ℕ) (ch : Link) (b b' : Branch) → give id ch b ≡ ok b' → Same b b'
unfolding give
give-Same id ch b b' h = elim (Option-cases b.snapshot) [
  | inl missing ↦ absurd (ground (arith, missing))
  | inr (s, there) ↦ elim (Bool-cases (id == s.id)) [
    | inl asked ↦
        let (msg, made, same) = >>=-eq-ok (to_message s) _ (rw (there, asked, give) at h) in
        subst (Same b) (ok-injective same) (record {
          money = refl;
          sent = omega (
            arith,
            paid-append b.sent ((ch, return_snapshot (record msg { name = b.name })) ∷ []),
          );
        })
    | inr other ↦
        subst (Same b) (ok-injective (rw (there, other, give) at h))
          (record { money = refl; sent = refl })
  ]
]

run_task-Same :
    (b b' : Branch) (tasks : List Task) → b.tasks ≡ tasks → run_task b ≡ ok b' → Same b b'
unfolding run_task
run_task-Same b b' [] e h = ground arith
run_task-Same b b' (begin_snapshot id ∷ rest) e h =
    ground (arith, begin-Same id (record b { tasks = rest }))
run_task-Same b b' (take_marker id from ∷ rest) e h =
    ground (arith, mark-Same id from (record b { tasks = rest }))
run_task-Same b b' (give_snapshot id ch ∷ rest) e h =
    ground (arith, give-Same id ch (record b { tasks = rest }) b')
run_task-Same b b' (greet name ch ∷ rest) e h = ground arith

connected-Same : (i : ℕ) (b : Branch) → Same b (connected i b)
unfolding connected
connected-Same i b = ground (arith, paid-append b.sent ((outgoing i, hello b.name) ∷ []))

message-Balanced :
    (msg : BranchMessage) (ci : Link) (b b' : Branch)
    → IsPlain msg
    → b.money < 2 ^ 64
    → message_handler msg ci b ≡ ok b'
    → Balanced b (amount msg) b'
unfolding message_handler
message-Balanced (init_branch msg) ci b b' plain small h = absurd plain
message-Balanced (transfer n) ci b b' plain small h =
    subst (Balanced b n) (ok-injective h) (record { range = omega arith; sum = omega arith })
message-Balanced (init_snapshot id) ci b b' plain small h = Same-Balanced b b' small (ground arith)
message-Balanced (Messages.marker id) ci b b' plain small h =
    Same-Balanced b b' small (ground arith)
message-Balanced (retrieve_snapshot id) ci b b' plain small h =
    Same-Balanced b b' small (ground arith)
message-Balanced (return_snapshot msg) ci b b' plain small h =
    Same-Balanced b b' small (ground arith)
message-Balanced (hello name) ci b b' plain small h = Same-Balanced b b' small (ground arith)
message-Balanced unset ci b b' plain small h = Same-Balanced b b' small (ground arith)

pub received-append : (xs ys : List Round) → received (xs ++ ys) ≡ received xs + received ys
received-append [] ys = omega arith
received-append (x ∷ xs) ys = omega (arith, received-append xs ys)

pays-Balanced :
    (i : ℕ) (xs ys : List Round) (draw : ℕ → ℕ) (b b' : Branch)
    → b.money < 2 ^ 64
    → All IsWithin xs
    → IsWithin (quiet draw)
    → do_send_money i (xs ++ quiet draw ∷ ys) b ≡ some b'
    → Balanced b (came_meanwhile i (xs ++ quiet draw ∷ ys) b) b'
unfolding do_send_money
pays-Balanced i xs ys draw b b' small within quiet_within h =
    let rounds = xs ++ quiet draw ∷ ys in
    let (w, done, c) = withdraw_conserves xs ys draw b.money small within quiet_within in
    elim (Option-cases (get_elem? b.channels i)) [
      | inl missing ↦
          rw (missing, came_meanwhile) (Same-Balanced b b' small (ground (arith, missing)))
      | inr ((name, ch), there) ↦
          let used : received rounds ≡ received c.used + received w.unused =
            ap received c.split ∙ received-append c.used w.unused in
          let grown = paid-append b.sent ((ch, transfer w.to_send) ∷ []) in
          rw (there, done, came_meanwhile, came)
            (subst (Balanced b (received rounds - received w.unused))
              (some-injective _ _ (rw (there, done, do_send_money) at h))
              (record { range = c.range; sum = ground (arith, c.sum, used, grown) }))
    ]

pub Step-Balanced : (b b' : Branch) (n : ℕ) → b.money < 2 ^ 64 → Step b n b' → Balanced b n b'
Step-Balanced b b' n small (arrives msg ci plain h) = message-Balanced msg ci b b' plain small h
Step-Balanced b b' n small (runs h) = Same-Balanced b b' small (run_task-Same b b' b.tasks refl h)
Step-Balanced b b' n small (connects i) = Same-Balanced b (connected i b) small (connected-Same i b)
Step-Balanced b b' n small accepts =
    unfold do_accept in Same-Balanced b (do_accept b) small (record { money = refl; sent = refl })
Step-Balanced b b' n small (pays i xs ys draw within quiet_within h) =
    pays-Balanced i xs ys draw b b' small within quiet_within h

Steps-Grown : (b b' : Branch) (n : ℕ) → b.money < 2 ^ 64 → Steps b n b' → Grown b n b'
Steps-Grown b b' n small idle = record { range = small; sum = omega arith }
Steps-Grown b b' n small (then {b₁ = b₁} {n = k} {m = m} steps last) =
    let first = Steps-Grown b b₁ k small steps in
    let second = Step-Balanced b₁ b' m first.range last in
    record { range = second.range; sum = omega (arith, first.sum, second.sum) }

-- Whatever a branch with a balance below 2^64 goes through but an `init_branch`, with draws that
-- take no more than the balance and withdrawals of which one round meets no interference, its
-- balance and the transfers that it has sent grow by the money that came in, modulo 2^64: no
-- transfer is lost to an exchange, and snapshots, connections and greetings move no money.
pub money_conserved :
    (b b' : Branch) (n : ℕ)
    → b.money < 2 ^ 64
    → Steps b n b'
    → (b'.money + paid b'.sent) % 2 ^ 64 ≡ (b.money + paid b.sent + n) % 2 ^ 64
money_conserved b b' n small steps = (Steps-Grown b b' n small steps).sum
