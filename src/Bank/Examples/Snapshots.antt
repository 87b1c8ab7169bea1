-- ===== src/Bank/Examples/Snapshots.antt =====
-- A snapshot of two branches: the first begins it while a transfer of the second is on its way.
use cs.Prelude.{ℕ, zero, suc, ◌<◌, ◌≡◌, refl, ap, sym, ◌∙◌, arith, true, false, some, none, [], ◌∷◌}
use cs.Prelude.Outcome.{Outcome, ok, fault}
use cs.Prelude.Dict.{lookup, emplace, put}
use cs.Bank.Messages.{BranchMessage, ReturnSnapshot, init_snapshot, transfer}
use cs.Bank.Messages
use cs.Bank.Snapshot.{to_message, completed}
use cs.Bank.Withdrawal.Ends.{quiet}
use cs.Bank.Snapshot.Recorded.{is_peer}
use cs.Bank.Branch.{Link, accepted, outgoing, Branch, do_send_money, name_of}
use cs.Bank.Network.{letter, first}
use cs.Bank.Global.{
  Bank, idle, then, begins, pays, arrives, flush, handle, HasChannel, Wired, IsJoined, begun,
}
use cs.Bank.Global.Cut.{marker_letter}
use cs.Bank.Global.Local.{IsReady}
use cs.Bank.Global.Returns.{Returned, total_returned}
use cs.Bank.Global.Consistent.{IsBefore, snapshot_consistent}
use cs.Bank.Examples.Networks.{first_branch, second_branch, wiring, fortieth}

abbrev absent : Branch
absent = record second_branch { channels = []; known_peers = []; money = 0 }

abbrev branches : ℕ → Branch
branches zero = first_branch
branches (suc zero) = second_branch
branches (suc (suc i)) = absent

abbrev bank : Bank
bank = record { branches = branches; letters = [] }

-- The channel at which a message arrives.
abbrev end_at : ℕ → Link
end_at zero = outgoing 0
end_at (suc i) = accepted 0

wiring-end_at : (i j : ℕ) (far ch : Link) → wiring i far ≡ (j, ch) → (j < 2) × (ch ≡ end_at j)
wiring-end_at zero zero far ch e = absurd (omega (arith, ap (λ p. p.0) e))
wiring-end_at zero (suc zero) far ch e = (omega arith, sym (ap (λ p. p.1) e))
wiring-end_at zero (suc (suc j)) far ch e = absurd (omega (arith, ap (λ p. p.0) e))
wiring-end_at (suc i) zero far ch e = (omega arith, sym (ap (λ p. p.1) e))
wiring-end_at (suc i) (suc j) far ch e = absurd (omega (arith, ap (λ p. p.0) e))

Wired-end_at : (j : ℕ) (ch : Link) → Wired 2 wiring branches j ch → (j < 2) × (ch ≡ end_at j)
Wired-end_at j ch wired = wiring-end_at wired.i j wired.far ch wired.ends

known_end :
    (j : ℕ) → j < 2 → is_peer (name_of (end_at j) (branches j)) (branches j).known_peers ≡ true
unfolding lookup
known_end zero h = refl
known_end (suc zero) h = refl
known_end (suc (suc j)) h = absurd (omega arith)

sender :
    (i k : ℕ) (c d : Link)
    → HasChannel c (branches i).channels
    → HasChannel d (branches k).channels
    → wiring i c ≡ wiring k d
    → i ≡ k
sender zero zero c d p q e = refl
sender zero (suc k) c d p q e = absurd (omega (arith, ap (λ p. p.0) e))
sender (suc i) zero c d p q e = absurd (omega (arith, ap (λ p. p.0) e))
sender (suc zero) (suc zero) c d p q e = refl
sender (suc (suc i)) (suc k) c d p q e = absurd p
sender (suc zero) (suc (suc k)) c d p q e = absurd q

branches-IsJoined : IsJoined 2 wiring branches
branches-IsJoined = record {
  inside = λ j ch wired. (Wired-end_at j ch wired).0;
  known = λ j ch wired. let (inside, e) = Wired-end_at j ch wired in rw e (known_end j inside);
  named =
      λ j c d wired_c wired_d same. (Wired-end_at j c wired_c).1 ∙ sym (Wired-end_at j d wired_d).1;
  one_sender = sender;
}

ready : (i : ℕ) → i < 2 → IsReady 1 (branches i)
ready zero h = record { tasks = refl; sent = refl; range = omega arith; tracks = λ name p. refl }
ready (suc zero) h = record {
  tasks = refl;
  sent = refl;
  range = omega arith;
  tracks = λ name p. refl;
}
ready (suc (suc i)) h = absurd (omega arith)

fresh : (i : ℕ) → begun 1 (branches i) ≡ false
fresh zero = refl
fresh (suc zero) = refl
fresh (suc (suc i)) = refl

bank-IsBefore : IsBefore 2 wiring 1 bank
bank-IsBefore = record { ready = ready; fresh = fresh; early = tt }

-- The result of a handler, or the branch as it was.
abbrev after : Branch → Outcome Branch → Branch
after b (ok b') = b'
after b (fault why) = b

abbrev first_begun : Branch
unfolding handle
first_begun = after first_branch (handle (init_snapshot 1) (accepted 0) first_branch)

abbrev second_paid : Branch
unfolding do_send_money
second_paid = elim (do_send_money 0 (quiet fortieth ∷ []) second_branch) [
  | none ↦ second_branch
  | some b ↦ b
]

-- The first branch begins, and the second pays 12 before it knows.
abbrev begun_bank : Bank
unfolding flush handle
begun_bank = flush wiring 0 first_begun branches []

abbrev paid_bank : Bank
unfolding flush handle do_send_money
paid_bank = flush wiring 1 second_paid begun_bank.branches begun_bank.letters

-- The marker comes to the second branch, which sends one; the transfer and that marker come back.
abbrev second_marked : Branch
unfolding flush handle do_send_money
second_marked = after second_branch (handle (Messages.marker 1) (accepted 0) (paid_bank.branches 1))

abbrev marked_bank : Bank
unfolding flush handle do_send_money
marked_bank = flush wiring 1 second_marked paid_bank.branches (letter 0 (outgoing 0) 12 ∷ [])

abbrev first_received : Branch
unfolding flush handle do_send_money
first_received = after first_branch (handle (transfer 12) (outgoing 0) (marked_bank.branches 0))

abbrev received_bank : Bank
unfolding flush handle do_send_money
received_bank =
    flush wiring 0 first_received marked_bank.branches (marker_letter 1 0 (outgoing 0) ∷ [])

abbrev first_marked : Branch
unfolding flush handle do_send_money
first_marked =
    after first_branch (handle (Messages.marker 1) (outgoing 0) (received_bank.branches 0))

abbrev last_bank : Bank
unfolding flush handle do_send_money
last_bank = flush wiring 0 first_marked received_bank.branches []

abbrev messages : ℕ → ReturnSnapshot
messages zero = record {
  name = "";
  snapshot_id = 1;
  balance = 1000;
  channel_state = ("b2", 12) ∷ [];
}
messages (suc i) = record {
  name = "";
  snapshot_id = 1;
  balance = 488;
  channel_state = ("b1", 0) ∷ [];
}

returned : (i : ℕ) → i < 2 → Returned 1 (last_bank.branches i) (messages i)
unfolding flush handle do_send_money to_message lookup emplace put
returned zero h = record {
  s = record { states = ("b2", completed 12) ∷ []; id = 1; balance = 1000 };
  held = refl;
  numbered = refl;
  made = refl;
}
returned (suc zero) h = record {
  s = record { states = ("b1", completed 0) ∷ []; id = 1; balance = 488 };
  held = refl;
  numbered = refl;
  made = refl;
}
returned (suc (suc i)) h = absurd (omega arith)

snapshot_consistent_example : total_returned messages 2 ≡ 1500
unfolding flush handle do_send_money
snapshot_consistent_example =
    snapshot_consistent 2 wiring 1 bank last_bank messages branches-IsJoined bank-IsBefore
      (omega arith)
      (then {b₁ = received_bank}
        (then {b₁ = marked_bank}
          (then {b₁ = paid_bank}
            (then {b₁ = begun_bank}
              (then {b₁ = bank} idle (begins 0 (accepted 0) (omega arith) refl refl))
              (pays 1 0 [] fortieth (omega arith) refl tt (λ b. omega arith) refl))
            (arrives (marker_letter 1 1 (accepted 0)) (letter 0 (outgoing 0) 12 ∷ []) first refl))
          (arrives (letter 0 (outgoing 0) 12) (marker_letter 1 0 (outgoing 0) ∷ []) first refl))
        (arrives (marker_letter 1 0 (outgoing 0)) [] first refl))
      returned
