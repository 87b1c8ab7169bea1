-- ===== src/Bank/Global/Kept.antt =====
-- Each event of a bank (bank/src/branch.cpp) keeps what holds between the events.
use cs.Prelude.{
  ℕ, ◌+◌, ◌<◌, ◌≡◌, refl, ap, ◌∙◌, String, Bool, ◌==◌, if◌then◌else◌, List, [], ◌∷◌, arith, inl,
  inr, All, Bool-cases, append-nil, fun_ext, subst,
}
use cs.Prelude.Eq.{string_eq}
use cs.Bank.Messages.{BranchMessage, transfer, init_snapshot}
use cs.Bank.Messages
use cs.Bank.Branch.{Link, Branch, to_channels, name_of}
use cs.Bank.Network.{Letter, Wiring, addressed}
use cs.Bank.Global.{Bank, update, flush, address_all, HasChannel, IsJoined, begun, value, done_in}
use cs.Bank.Global.Cut.{weight, weight-append, marker_in}
use cs.Bank.Global.Local.{IsReady, SameLinks}
use cs.Bank.Global.Events.{Joins, Goes}
use cs.Bank.Global.Transfers.{Pays}
use cs.Bank.Global.Markers.{
  IsFine, markers, weight-markers, marker_in-markers, markers-marker_in, markers-IsFine,
}
use cs.Bank.Global.Invariant.{recorded, name_of-SameLinks, SameLinks-sent, Holds, Front, keeps}

module _ (n : ℕ) (wiring : Wiring) (id : ℕ) (start : ℕ → Branch)
    (joined : IsJoined n wiring start) where
  -- The branch takes part from now on.
  pub keeps-Joins :
      (sum : ℕ) (bank : Bank) (i : ℕ) (b' : Branch) (left : List Letter) (done : String → Bool)
      → i < n
      → Holds n wiring id start sum bank
      → Front n wiring id start bank i b' left
      → Joins id done (bank.branches i) b'
      → value id b'
          + weight id (recorded id (update bank.branches i (record b' { sent = [] }))) left
        ≡ value id (bank.branches i) + weight id (recorded id bank.branches) bank.letters
      → Holds n wiring id start sum (flush wiring i b' bank.branches left)
  keeps-Joins sum bank i b' left done inside holds front joins weighs =
      let sent : address_all wiring i b'.sent ≡ markers wiring i id (start i).channels =
        ap (address_all wiring i)
          (joins.told ∙ ap (to_channels (Messages.marker id)) (holds.links i).channels) in
      keeps n wiring id start sum bank i b' left inside holds front
        (rw sent (markers-IsFine n wiring i id start (start i).channels inside (λ ch has. has)))
        (λ k ch k_inside has. elim (Bool-cases (k == i)) [
          | inl here ↦
              let e : k ≡ i = ground (arith, here) in
              let mine : HasChannel ch (start i).channels =
                subst (λ m. HasChannel ch (start m).channels) e has in
              let there = marker_in-markers wiring i id (start i).channels ch mine in
              rw (sent, e) (ground (arith, there, joins.joined))
          | inr other ↦
              elim (Bool-cases (
                marker_in id (wiring k ch).0 (wiring k ch).1
                  (markers wiring i id (start i).channels))) [
                    | inl there ↦
                        let (d, mine, e) =
                          markers-marker_in wiring i id (wiring k ch).0 (wiring k ch).1
                            (start i).channels there in
                        absurd (ground (arith, other, joined.one_sender i k d ch mine has e))
                    | inr none_there ↦
                        rw (sent, none_there)
                          (ground (arith, other, holds.senders k ch k_inside has))
                  ]
        ])
        (rw sent (
          ap (λ w. value id b' + w) (weight-markers wiring i id (start i).channels left _)
          ∙ weighs))

  -- The branch sends nothing, and takes part if it did.
  pub keeps-Goes :
      (sum : ℕ) (bank : Bank) (i : ℕ) (b' : Branch) (left : List Letter) (done : String → Bool)
      → i < n
      → Holds n wiring id start sum bank
      → Front n wiring id start bank i b' left
      → Goes id done (bank.branches i) b'
      → b'.sent ≡ []
      → value id b'
          + weight id (recorded id (update bank.branches i (record b' { sent = [] }))) left
        ≡ value id (bank.branches i) + weight id (recorded id bank.branches) bank.letters
      → Holds n wiring id start sum (flush wiring i b' bank.branches left)
  keeps-Goes sum bank i b' left done inside holds front goes quiet weighs =
      let sent : address_all wiring i b'.sent ≡ [] =
        ap (address_all wiring i) quiet ∙ unfold address_all in refl in
      keeps n wiring id start sum bank i b' left inside holds front (rw sent tt)
        (λ k ch k_inside has. elim (Bool-cases (k == i)) [
          | inl here ↦
              let e : k ≡ i = ground (arith, here) in
              rw sent (
                ground (
                  arith,
                  here,
                  goes.same_part,
                  holds.senders k ch k_inside has,
                  ap (λ m. begun id (bank.branches m)) e,
                ))
          | inr other ↦ rw sent (ground (arith, other, holds.senders k ch k_inside has))
        ])
        (rw (sent, append-nil left) weighs)

  pub recorded-update :
      (bank : Bank) (i : ℕ) (b' : Branch) (done : String → Bool)
      → SameLinks (bank.branches i) b'
      → ((name : String) → done_in id name b'.snapshot ≡ done name)
      → (j : ℕ) (ch : Link)
      → recorded id (update bank.branches i (record b' { sent = [] })) j ch
        ≡ (if j == i then done (name_of ch (bank.branches i)) else recorded id bank.branches j ch)
  recorded-update bank i b' done links known j ch = elim (Bool-cases (j == i)) [
    | inl here ↦ rw here (
        ap (λ name. done_in id name b'.snapshot)
          (name_of-SameLinks ch (bank.branches i) (record b' { sent = [] })
            (SameLinks-sent (bank.branches i) b' [] links))
        ∙ known (name_of ch (bank.branches i)))
    | inr other ↦ rw other refl
  ]

  -- No channel is recorded that was not.
  pub recorded-same :
      (bank : Bank) (i : ℕ) (b' : Branch)
      → SameLinks (bank.branches i) b'
      → ((name : String) → done_in id name b'.snapshot ≡ done_in id name (bank.branches i).snapshot)
      → (j : ℕ) (ch : Link)
      → recorded id (update bank.branches i (record b' { sent = [] })) j ch
        ≡ recorded id bank.branches j ch
  recorded-same bank i b' links known j ch =
      recorded-update bank i b' (λ name. done_in id name (bank.branches i).snapshot) links known j
        ch
      ∙ elim (Bool-cases (j == i)) [
        | inl here ↦ let e : j ≡ i = ground (arith, here) in rw (here, e) refl
        | inr other ↦ rw other refl
      ]

  pub Front-same :
      (sum : ℕ) (bank : Bank) (i : ℕ) (b' : Branch) (left : List Letter)
      → Holds n wiring id start sum bank
      → SameLinks (bank.branches i) b'
      → IsReady id (record b' { sent = [] })
      → ((name : String) → done_in id name b'.snapshot ≡ done_in id name (bank.branches i).snapshot)
      → All (IsFine n wiring id start) left
      → ((j : ℕ) (ch : Link) → marker_in id j ch left ≡ marker_in id j ch bank.letters)
      → Front n wiring id start bank i b' left
  Front-same sum bank i b' left holds links ready known fine same = record {
    links = links;
    ready = ready;
    fine = fine;
    seen = λ j ch wired. ground (arith, same j ch, recorded-same bank i b' links known j ch);
  }

  -- The branch sends a transfer, and no letter has arrived.
  pub keeps-Pays :
      (sum : ℕ) (bank : Bank) (i : ℕ) (b' : Branch)
      → i < n
      → Holds n wiring id start sum bank
      → Goes id (λ name. done_in id name (bank.branches i).snapshot) (bank.branches i) b'
      → Pays id (bank.branches i) b'
      → Holds n wiring id start sum (flush wiring i b' bank.branches bank.letters)
  keeps-Pays sum bank i b' inside holds goes (inl (quiet, same)) =
      let recorded_same = recorded-same bank i b' goes.links goes.recorded in
      keeps-Goes sum bank i b' bank.letters _ inside holds
        (Front-same sum bank i b' bank.letters holds goes.links goes.ready goes.recorded holds.fine
          (λ j ch. refl))
        goes quiet
        (rw (fun_ext (λ j. fun_ext (λ ch. recorded_same j ch)))
          (ap (λ v. v + weight id (recorded id bank.branches) bank.letters) same))
  keeps-Pays sum bank i b' inside holds goes (inr (ch, money, has, sends, taken)) =
      let recorded_same : recorded id (update bank.branches i (record b' { sent = [] }))
          ≡ recorded id bank.branches =
        fun_ext (λ j. fun_ext (λ ch. recorded-same bank i b' goes.links goes.recorded j ch)) in
      let l = addressed wiring i ch (transfer money) in
      let sent : address_all wiring i b'.sent ≡ l ∷ [] =
        ap (address_all wiring i) sends ∙ unfold address_all in refl in
      let mine : HasChannel ch (start i).channels =
        subst (HasChannel ch) (holds.links i).channels has in
      keeps n wiring id start sum bank i b' bank.letters inside holds
        (Front-same sum bank i b' bank.letters holds goes.links goes.ready goes.recorded holds.fine
          (λ j ch. refl))
        (rw sent ((record { i = i; far = ch; inside = inside; has = mine; ends = refl }, tt), tt))
        (λ k c k_inside has_c. elim (Bool-cases (k == i)) [
          | inl here ↦
              let e : k ≡ i = ground (arith, here) in
              rw sent (
                ground (
                  arith,
                  here,
                  goes.same_part,
                  holds.senders k c k_inside has_c,
                  ap (λ m. begun id (bank.branches m)) e,
                ))
          | inr other ↦ rw sent (ground (arith, other, holds.senders k c k_inside has_c))
        ])
        (rw (sent, recorded_same)
          (ground (
            arith,
            weight-append id (recorded id bank.branches) bank.letters l,
            holds.senders i ch inside mine,
            taken,
          )))
