-- ===== src/Bank/Global/Arrivals.antt =====
-- The arrival of a letter at a branch (bank/src/branch.cpp) keeps what holds between the events.
use cs.Prelude.{
  ℕ, zero, suc, ◌+◌, ◌^◌, ◌≤◌, ◌<◌, ◌≡◌, refl, ap, sym, ◌∙◌, String, false, ◌||◌, ◌==◌, List, arith,
  inl, inr, All, Bool-cases, fun_ext, subst,
}
use cs.Prelude.Eq.{string_eq, beq}
use cs.Prelude.Outcome.{ok, ok-injective}
use cs.Bank.Messages.{
  BranchMessage, unset, init_branch, transfer, init_snapshot, retrieve_snapshot, return_snapshot,
  hello,
}
use cs.Bank.Messages
use cs.Bank.Branch.{Link, Branch, name_of, mark, transfer_handler}
use cs.Bank.Network.{Letter, Wiring, Taken, first, later, letter}
use cs.Bank.Global.{Bank, flush, handle, Wired, IsJoined, begun, value, done_in, total}
use cs.Bank.Global.Cut.{weight, marker_letter, weight-transfer, marker_in-transfer}
use cs.Bank.Global.Local.{done_in_fresh}
use cs.Bank.Global.Events.{
  Joins, calm, handle-init_snapshot, handle-marker, handle-transfer, begin-Joins, mark-Joins,
  mark-Goes,
}
use cs.Bank.Global.Transfers.{transfer-Goes}
use cs.Bank.Global.Markers.{IsFine, IsOf}
use cs.Bank.Global.Invariant.{recorded, Holds}
use cs.Bank.Global.Ends.{peer_known, Front-marker, weighs_marker}
use cs.Bank.Global.Kept.{recorded-same, Front-same, keeps-Joins, keeps-Goes}

All-Taken :
    (P : Letter → Type 0) (l : Letter) (letters left : List Letter)
    → Taken l letters left
    → All P letters
    → P l × All P left
All-Taken P l _ _ first all = all
All-Taken P l _ _ (later {m = m} {letters = letters} {left = left} other taken) all =
    let rest = All-Taken P l letters left taken all.1 in (rest.0, (all.0, rest.1))

total-member :
    (worth : Branch → ℕ) (branches : ℕ → Branch) (i n : ℕ)
    → i < n
    → worth (branches i) ≤ total worth branches n
total-member worth branches i zero inside = absurd (omega arith)
total-member worth branches i (suc n) inside = elim (Bool-cases (n == i)) [
  | inl last ↦ let e : n ≡ i = ground (arith, last) in omega (arith, ap (λ k. worth (branches k)) e)
  | inr other ↦ ground (arith, other, total-member worth branches i n)
]

module _ (n : ℕ) (wiring : Wiring) (id : ℕ) (start : ℕ → Branch)
    (joined : IsJoined n wiring start) where
  kept_marker :
      (sum : ℕ) (bank : Bank) (i : ℕ) (ci : Link) (left : List Letter)
      → i < n
      → Holds n wiring id start sum bank
      → Wired n wiring start i ci
      → Taken (marker_letter id i ci) bank.letters left
      → All (IsFine n wiring id start) left
      → Holds n wiring id start sum (
          flush wiring i
            (mark id (name_of ci (bank.branches i)) (calm (bank.branches i)))
            bank.branches
            left)
  kept_marker sum bank i ci left inside holds wired taken fine =
      let b = bank.branches i in
      let from = name_of ci b in
      let b' = mark id from (calm b) in
      let peer = peer_known n wiring id start joined sum bank i ci holds wired in
      elim (Bool-cases (begun id b)) [
        | inr fresh ↦
            let joins = mark-Joins id from b (holds.ready i inside) fresh peer in
            let known : (name : String)
                → done_in id name b'.snapshot ≡ (beq from name || done_in id name b.snapshot) =
              λ name. ground (arith, joins.recorded name, done_in_fresh id name b.snapshot fresh) in
            keeps-Joins n wiring id start joined sum bank i b' left _ inside holds
              (Front-marker n wiring id start joined sum bank i ci b' left holds wired taken fine
                joins.links joins.ready known)
              joins
              (weighs_marker n wiring id start joined sum bank i ci b' left holds wired taken fine
                joins.links known joins.same_value)
        | inl takes_part ↦
            let (goes, same, quiet) = mark-Goes id from b (holds.ready i inside) takes_part peer in
            keeps-Goes n wiring id start joined sum bank i b' left _ inside holds
              (Front-marker n wiring id start joined sum bank i ci b' left holds wired taken fine
                goes.links goes.ready goes.recorded)
              goes quiet
              (weighs_marker n wiring id start joined sum bank i ci b' left holds wired taken fine
                goes.links goes.recorded same)
      ]

  kept_transfer :
      (sum : ℕ) (bank : Bank) (i money : ℕ) (ci : Link) (left : List Letter)
      → sum < 2 ^ 64
      → i < n
      → Holds n wiring id start sum bank
      → Wired n wiring start i ci
      → Taken (letter i ci money) bank.letters left
      → All (IsFine n wiring id start) left
      → Holds n wiring id start sum (
          flush wiring i
            (transfer_handler money (name_of ci (bank.branches i)) (bank.branches i))
            bank.branches
            left)
  kept_transfer sum bank i money ci left small inside holds wired taken fine =
      let b = bank.branches i in
      let from = name_of ci b in
      let b' = transfer_handler money from b in
      let moved =
        weight-transfer id i money ci (recorded id bank.branches) bank.letters left taken in
      let part = total-member (value id) bank.branches i n inside in
      let (goes, adds, quiet) =
        transfer-Goes id money from b (holds.ready i inside)
          (peer_known n wiring id start joined sum bank i ci holds wired)
          (λ unrecorded. ground (arith, unrecorded, moved, part, holds.adds_up, small)) in
      let same = recorded-same n wiring id start joined bank i b' goes.links goes.recorded in
      keeps-Goes n wiring id start joined sum bank i b' left _ inside holds
        (Front-same n wiring id start joined sum bank i b' left holds goes.links goes.ready
          goes.recorded fine
          (λ j ch. sym (marker_in-transfer id j i money ci ch bank.letters left taken)))
        goes quiet (rw (fun_ext (λ j. fun_ext (λ ch. same j ch))) (omega (arith, moved, adds)))

  -- Whatever letter comes first on its channel.
  kept_content :
      (sum : ℕ) (bank : Bank) (b' : Branch) (i : ℕ) (ci : Link) (msg : BranchMessage)
      (left : List Letter)
      → sum < 2 ^ 64
      → i < n
      → Holds n wiring id start sum bank
      → Wired n wiring start i ci
      → All (IsFine n wiring id start) left
      → IsOf id msg
      → Taken (record { destination = i; channel = ci; content = msg }) bank.letters left
      → handle msg ci (bank.branches i) ≡ ok b'
      → Holds n wiring id start sum (flush wiring i b' bank.branches left)
  kept_content sum bank b' i ci (transfer money) left small inside holds wired fine of taken h =
      let e =
        ok-injective
          (sym (handle-transfer money ci (bank.branches i) (holds.ready i inside).tasks) ∙ h) in
      subst (λ b'. Holds n wiring id start sum (flush wiring i b' bank.branches left)) e
        (kept_transfer sum bank i money ci left small inside holds wired taken fine)
  kept_content sum bank b' i ci (Messages.marker k) left small inside holds wired fine of taken h =
      let taken' =
        subst
          (λ k.
            Taken (record { destination = i; channel = ci; content = Messages.marker k })
              bank.letters left)
          of taken in
      let h' = subst (λ k. handle (Messages.marker k) ci (bank.branches i) ≡ ok b') of h in
      let e =
        ok-injective
          (sym (handle-marker id ci (bank.branches i) (holds.ready i inside).tasks) ∙ h') in
      subst (λ b'. Holds n wiring id start sum (flush wiring i b' bank.branches left)) e
        (kept_marker sum bank i ci left inside holds wired taken' fine)
  kept_content sum bank b' i ci unset left small inside holds wired fine of taken h = absurd of
  kept_content sum bank b' i ci (init_branch m) left small inside holds wired fine of taken h =
      absurd of
  kept_content sum bank b' i ci (init_snapshot k) left small inside holds wired fine of taken h =
      absurd of
  kept_content sum bank b' i ci (retrieve_snapshot k) left small inside holds wired fine of taken
        h =
      absurd of
  kept_content sum bank b' i ci (return_snapshot m) left small inside holds wired fine of taken h =
      absurd of
  kept_content sum bank b' i ci (hello name) left small inside holds wired fine of taken h =
      absurd of

  pub kept_arrives :
      (sum : ℕ) (bank : Bank) (b' : Branch) (l : Letter) (left : List Letter)
      → sum < 2 ^ 64
      → Holds n wiring id start sum bank
      → Taken l bank.letters left
      → handle l.content l.channel (bank.branches l.destination) ≡ ok b'
      → Holds n wiring id start sum (flush wiring l.destination b' bank.branches left)
  kept_arrives sum bank b' l left small holds taken h =
      let (fine, rest) =
        All-Taken (IsFine n wiring id start) l bank.letters left taken holds.fine in
      kept_content sum bank b' l.destination l.channel l.content left small
        (joined.inside l.destination l.channel fine.0) holds fine.0 rest fine.1 taken h

  -- The controller asks a branch for a snapshot.
  pub kept_begins :
      (sum : ℕ) (bank : Bank) (b' : Branch) (i : ℕ) (ci : Link)
      → i < n
      → Holds n wiring id start sum bank
      → begun id (bank.branches i) ≡ false
      → handle (init_snapshot id) ci (bank.branches i) ≡ ok b'
      → Holds n wiring id start sum (flush wiring i b' bank.branches bank.letters)
  kept_begins sum bank b' i ci inside holds fresh h =
      let b = bank.branches i in
      let e = ok-injective (sym (handle-init_snapshot id ci b (holds.ready i inside).tasks) ∙ h) in
      let joins =
        subst (Joins id (λ name. false) b) e (begin-Joins id b (holds.ready i inside) fresh) in
      let known : (name : String) → done_in id name b'.snapshot ≡ done_in id name b.snapshot =
        λ name. joins.recorded name ∙ sym (done_in_fresh id name b.snapshot fresh) in
      let same = recorded-same n wiring id start joined bank i b' joins.links known in
      keeps-Joins n wiring id start joined sum bank i b' bank.letters _ inside holds
        (Front-same n wiring id start joined sum bank i b' bank.letters holds joins.links
          joins.ready known holds.fine (λ j ch. refl))
        joins
        (rw (fun_ext (λ j. fun_ext (λ ch. same j ch)))
          (ap (λ v. v + weight id (recorded id bank.branches) bank.letters) joins.same_value))
