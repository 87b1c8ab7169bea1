-- ===== src/Bank/Global/Invariant.antt =====
-- What holds between the events of a bank (bank/src/branch.cpp) that takes one snapshot.
use cs.Prelude.{
  ℕ, ◌+◌, ◌<◌, ◌≡◌, refl, ◌∙◌, Bool, ◌||◌, ◌==◌, if◌then◌else◌, List, [], ◌∷◌, ◌++◌, arith, inl,
  inr, All, Bool-cases,
}
use cs.Bank.Messages.{BranchMessage}
use cs.Bank.Branch.{Link, outgoing, accepted, link_eq, Branch, name_of}
use cs.Bank.Network.{Letter, Wiring}
use cs.Bank.Global.{Bank, update, flush, address_all, HasChannel, Wired, ended, begun, value, total}
use cs.Bank.Global.Cut.{Marks, weight, marker_in, marker_in-append}
use cs.Bank.Global.Local.{IsReady, SameLinks}
use cs.Bank.Global.Markers.{IsFine, total-update}

-- The channels that are recorded already.
abbrev pub recorded : ℕ → (ℕ → Branch) → Marks
recorded id branches j ch = ended id (branches j) ch

-- The marker of the channel is on its way, or has come.
abbrev pub behind : ℕ → (ℕ → Branch) → List Letter → ℕ → Link → Bool
behind id branches letters j ch = ended id (branches j) ch || marker_in id j ch letters

pub name_of-SameLinks : (ch : Link) (b b' : Branch) → SameLinks b b' → name_of ch b' ≡ name_of ch b
name_of-SameLinks (outgoing i) b b' same = rw (same.names, same.dials) refl
name_of-SameLinks (accepted i) b b' same = rw same.names refl

SameLinks-trans : (a b c : Branch) → SameLinks a b → SameLinks b c → SameLinks a c
SameLinks-trans a b c p q = record {
  channels = q.channels ∙ p.channels;
  known_peers = q.known_peers ∙ p.known_peers;
  names = q.names ∙ p.names;
  dials = q.dials ∙ p.dials;
}

pub SameLinks-sent :
    (b b' : Branch) (sent : List (Link × BranchMessage))
    → SameLinks b b'
    → SameLinks b (record b' { sent = sent })
SameLinks-sent b b' sent p = record {
  channels = p.channels;
  known_peers = p.known_peers;
  names = p.names;
  dials = p.dials;
}

module _ (n : ℕ) (wiring : Wiring) (id : ℕ) (start : ℕ → Branch) where
  -- A sender takes part exactly if its channels are behind a marker, and all that is counted, with
  -- the letters that no marker is before, comes to one sum.
  pub record Holds (sum : ℕ) (bank : Bank) : Type 0 where
    pub ready : (i : ℕ) → i < n → IsReady id (bank.branches i)
    pub links : (i : ℕ) → SameLinks (start i) (bank.branches i)
    pub fine : All (IsFine n wiring id start) bank.letters
    pub senders :
        (i : ℕ) (ch : Link)
        → i < n
        → HasChannel ch (start i).channels
        → behind id bank.branches bank.letters (wiring i ch).0 (wiring i ch).1
          ≡ begun id (bank.branches i)
    pub adds_up :
        total (value id) bank.branches n + weight id (recorded id bank.branches) bank.letters ≡ sum

  -- What an event at branch i has done before what it sends is on its way.
  pub record Front (bank : Bank) (i : ℕ) (b' : Branch) (left : List Letter) : Type 0 where
    pub links : SameLinks (bank.branches i) b'
    pub ready : IsReady id (record b' { sent = [] })
    pub fine : All (IsFine n wiring id start) left
    pub seen :
        (j : ℕ) (ch : Link)
        → Wired n wiring start j ch
        → behind id (update bank.branches i (record b' { sent = [] })) left j ch
          ≡ behind id bank.branches bank.letters j ch

  All-append :
      (xs ys : List Letter)
      → All (IsFine n wiring id start) xs
      → All (IsFine n wiring id start) ys
      → All (IsFine n wiring id start) (xs ++ ys)
  All-append [] ys p q = q
  All-append (x ∷ xs) ys p q = (p.0, All-append xs ys p.1 q)

  -- The whole event, from its front and from what it sent.
  pub keeps :
      (sum : ℕ) (bank : Bank) (i : ℕ) (b' : Branch) (left : List Letter)
      → i < n
      → Holds sum bank
      → Front bank i b' left
      → All (IsFine n wiring id start) (address_all wiring i b'.sent)
      → ((k : ℕ) (ch : Link)
          → k < n
          → HasChannel ch (start k).channels
          → (behind id bank.branches bank.letters (wiring k ch).0 (wiring k ch).1
              || marker_in id (wiring k ch).0 (wiring k ch).1 (address_all wiring i b'.sent))
            ≡ (if k == i then begun id b' else begun id (bank.branches k)))
      → value id b'
          + weight id
              (recorded id (update bank.branches i (record b' { sent = [] })))
              (left ++ address_all wiring i b'.sent)
        ≡ value id (bank.branches i) + weight id (recorded id bank.branches) bank.letters
      → Holds sum (flush wiring i b' bank.branches left)
  unfolding flush
  keeps sum bank i b' left inside holds front fine told weighs = record {
    ready = λ k k_inside. elim (Bool-cases (k == i)) [
      | inl here ↦ rw here front.ready
      | inr other ↦ rw other (holds.ready k k_inside)
    ];
    links = λ k. elim (Bool-cases (k == i)) [
      | inl here ↦
          let e : k ≡ i = ground (arith, here) in
          rw (here, e)
            (SameLinks-trans (start i) (bank.branches i) (record b' { sent = [] }) (holds.links i)
              (SameLinks-sent (bank.branches i) b' [] front.links))
      | inr other ↦ rw other (holds.links k)
    ];
    fine = All-append left (address_all wiring i b'.sent) front.fine fine;
    senders = λ k ch k_inside has. ground (
      arith,
      front.seen (wiring k ch).0 (wiring k ch).1
          (record { i = k; far = ch; inside = k_inside; has = has; ends = refl }),
      marker_in-append id (wiring k ch).0 (wiring k ch).1 left (address_all wiring i b'.sent),
      told k ch k_inside has,
    );
    adds_up = omega (
      arith,
      total-update (value id) bank.branches i (record b' { sent = [] }) n inside,
      weighs,
      holds.adds_up,
    );
  }
