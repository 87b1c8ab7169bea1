-- ===== src/Bank/Global/Ends.antt =====
-- The end of a channel's recording when its marker comes (marker_handler of bank/src/branch.cpp).
use cs.Prelude.{
  ℕ, ◌+◌, ◌≡◌, ap, sym, ◌∙◌, String, eq_iff, true, ◌||◌, ◌==◌, List, [], ◌∷◌, arith, inl, inr, All,
  Bool-cases, subst,
}
use cs.Prelude.Eq.{string_eq, beq}
use cs.Bank.Snapshot.Recorded.{is_peer}
use cs.Bank.Branch.{Link, link_beq, link_beq_iff, Branch, name_of}
use cs.Bank.Network.{Letter, Wiring, Taken}
use cs.Bank.Global.{Bank, update, Wired, IsJoined, value, done_in}
use cs.Bank.Global.Cut.{weight, weight-ext, cuts, marker_letter, weight-marker, marker_in-marker}
use cs.Bank.Global.Local.{IsReady, SameLinks}
use cs.Bank.Global.Markers.{IsFine}
use cs.Bank.Global.Invariant.{recorded, name_of-SameLinks, Holds, Front}
use cs.Bank.Global.Kept.{recorded-update}

module _ (n : ℕ) (wiring : Wiring) (id : ℕ) (start : ℕ → Branch)
    (joined : IsJoined n wiring start) where
  pub peer_known :
      (sum : ℕ) (bank : Bank) (i : ℕ) (ci : Link)
      → Holds n wiring id start sum bank
      → Wired n wiring start i ci
      → is_peer (name_of ci (bank.branches i)) (bank.branches i).known_peers ≡ true
  peer_known sum bank i ci holds wired =
      rw
        (
          name_of-SameLinks ci (start i) (bank.branches i) (holds.links i),
          (holds.links i).known_peers,
        )
        (joined.known i ci wired)

  -- The channel of a marker that came, and no other, is recorded more.
  cut_marker :
      (sum : ℕ) (bank : Bank) (i : ℕ) (ci : Link) (b' : Branch)
      → Holds n wiring id start sum bank
      → Wired n wiring start i ci
      → SameLinks (bank.branches i) b'
      → ((name : String)
          → done_in id name b'.snapshot ≡ (
              beq (name_of ci (bank.branches i)) name
              || done_in id name (bank.branches i).snapshot))
      → (j : ℕ) (ch : Link) → Wired n wiring start j ch
      → recorded id (update bank.branches i (record b' { sent = [] })) j ch
        ≡ cuts id (marker_letter id i ci) (recorded id bank.branches) j ch
  cut_marker sum bank i ci b' holds wired links known j ch other_wired =
      recorded-update n wiring id start joined bank i b' _ links known j ch
      ∙ elim (Bool-cases (j == i)) [
        | inr other ↦ ground (arith, other)
        | inl here ↦
            let e : j ≡ i = ground (arith, here) in
            let wired_here : Wired n wiring start i ch =
              subst (λ m. Wired n wiring start m ch) e other_wired in
            let named = joined.named i ci ch wired wired_here in
            let same₁ = name_of-SameLinks ci (start i) (bank.branches i) (holds.links i) in
            let same₂ = name_of-SameLinks ch (start i) (bank.branches i) (holds.links i) in
            elim (Bool-cases (link_beq ci ch)) [
              | inl equal ↦
                  let c : ci ≡ ch = (link_beq_iff ci ch).0 equal in
                  ground (
                    arith,
                    here,
                    equal,
                    ap (λ l. name_of l (bank.branches i)) c,
                    eq_iff (name_of ci (bank.branches i)) (name_of ch (bank.branches i)),
                  )
              | inr apart ↦
                  elim (Bool-cases
                    (beq (name_of ci (bank.branches i)) (name_of ch (bank.branches i)))) [
                      | inl alike ↦
                          let c : ci ≡ ch = named (
                            sym same₁
                            ∙ (eq_iff (name_of ci (bank.branches i))
                                  (name_of ch (bank.branches i))).0
                                alike
                            ∙ same₂) in
                          absurd (cc (apart, (link_beq_iff ci ch).1 c))
                      | inr unlike ↦ rw (here, e, unlike, apart) (ground arith)
                    ]
            ]
      ]

  pub All-Wired :
      (letters : List Letter)
      → All (IsFine n wiring id start) letters
      → All (λ l. Wired n wiring start l.destination l.channel) letters
  All-Wired [] all = tt
  All-Wired (l ∷ letters) all = (all.0.0, All-Wired letters all.1)

  pub Front-marker :
      (sum : ℕ) (bank : Bank) (i : ℕ) (ci : Link) (b' : Branch) (left : List Letter)
      → Holds n wiring id start sum bank
      → Wired n wiring start i ci
      → Taken (marker_letter id i ci) bank.letters left
      → All (IsFine n wiring id start) left
      → SameLinks (bank.branches i) b'
      → IsReady id (record b' { sent = [] })
      → ((name : String)
          → done_in id name b'.snapshot ≡ (
              beq (name_of ci (bank.branches i)) name
              || done_in id name (bank.branches i).snapshot))
      → Front n wiring id start bank i b' left
  Front-marker sum bank i ci b' left holds wired taken fine links ready known = record {
    links = links;
    ready = ready;
    fine = fine;
    seen = λ j ch w. ground (
      arith,
      cut_marker sum bank i ci b' holds wired links known j ch w,
      marker_in-marker id j i ci ch bank.letters left taken,
    );
  }

  pub weighs_marker :
      (sum : ℕ) (bank : Bank) (i : ℕ) (ci : Link) (b' : Branch) (left : List Letter)
      → Holds n wiring id start sum bank
      → Wired n wiring start i ci
      → Taken (marker_letter id i ci) bank.letters left
      → All (IsFine n wiring id start) left
      → SameLinks (bank.branches i) b'
      → ((name : String)
          → done_in id name b'.snapshot ≡ (
              beq (name_of ci (bank.branches i)) name
              || done_in id name (bank.branches i).snapshot))
      → value id b' ≡ value id (bank.branches i)
      → value id b'
          + weight id (recorded id (update bank.branches i (record b' { sent = [] }))) left
        ≡ value id (bank.branches i) + weight id (recorded id bank.branches) bank.letters
  weighs_marker sum bank i ci b' left holds wired taken fine links known same = omega (
    arith,
    same,
    weight-marker id i ci (recorded id bank.branches) bank.letters left taken,
    weight-ext id (Wired n wiring start)
        (recorded id (update bank.branches i (record b' { sent = [] })))
        (cuts id (marker_letter id i ci) (recorded id bank.branches)) left
        (cut_marker sum bank i ci b' holds wired links known) (All-Wired left fine),
  )
