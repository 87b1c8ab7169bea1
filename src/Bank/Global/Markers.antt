-- ===== src/Bank/Global/Markers.antt =====
-- The markers that a branch sends to all its channels (bank/src/branch.cpp), among the letters.
use cs.Prelude.{
  ℕ, zero, suc, ◌+◌, ◌≤◌, ◌<◌, ◌≡◌, refl, ap, String, true, ◌==◌, if◌then◌else◌, List, [], ◌∷◌,
  ◌++◌, arith, inl, inr, All, Bool-cases,
}
use mathlib.Core.Path.{ap₂}
use cs.Prelude.Dict.{Dict}
use cs.Bank.Messages.{BranchMessage, transfer}
use cs.Bank.Messages
use cs.Bank.Branch.{Link, link_beq_iff, Branch, to_channels}
use cs.Bank.Branch.Conserves.{amount}
use cs.Bank.Network.{Letter, Wiring, addressed}
use cs.Bank.Global.{address_all, HasChannel, Wired, total, update}
use cs.Bank.Global.Cut.{Marks, weight, cuts, is_at, marker_in}

abbrev pub IsOf : ℕ → BranchMessage → Type 0
IsOf id (transfer money) = Unit {0}
IsOf id (Messages.marker k) = k ≡ id
IsOf id _ = ⊥

-- A transfer or a marker of the snapshot, on a channel between branches.
abbrev pub IsFine : (n : ℕ) → Wiring → ℕ → (ℕ → Branch) → Letter → Type 0
IsFine n wiring id start l = Wired n wiring start l.destination l.channel × IsOf id l.content

-- What a branch tells all its channels.
abbrev pub markers : Wiring → ℕ → ℕ → Dict String Link → List Letter
markers wiring i id channels = address_all wiring i (to_channels (Messages.marker id) channels)

pub weight-markers :
    (wiring : Wiring) (i id : ℕ) (channels : Dict String Link) (letters : List Letter) (cut : Marks)
    → weight id cut (letters ++ markers wiring i id channels) ≡ weight id cut letters
unfolding to_channels address_all
weight-markers wiring i id [] [] cut = refl
weight-markers wiring i id ((name, ch) ∷ channels) [] cut = ground (
  arith,
  weight-markers wiring i id channels [] (cuts id (addressed wiring i ch (Messages.marker id)) cut),
)
weight-markers wiring i id channels (l ∷ letters) cut =
    ap (λ w. (if cut l.destination l.channel then 0 else amount l.content) + w)
      (weight-markers wiring i id channels letters (cuts id l cut))

pub marker_in-markers :
    (wiring : Wiring) (i id : ℕ) (channels : Dict String Link) (ch : Link)
    → HasChannel ch channels
    → marker_in id (wiring i ch).0 (wiring i ch).1 (markers wiring i id channels) ≡ true
unfolding to_channels address_all
marker_in-markers wiring i id [] ch has = absurd has
marker_in-markers wiring i id ((name, c) ∷ channels) ch (inl same) =
    rw same (ground (arith, link_beq_iff (wiring i ch).1 (wiring i ch).1))
marker_in-markers wiring i id ((name, c) ∷ channels) ch (inr later) =
    ground (arith, marker_in-markers wiring i id channels ch later)

pub markers-marker_in :
    (wiring : Wiring) (i id j : ℕ) (c : Link) (channels : Dict String Link)
    → marker_in id j c (markers wiring i id channels) ≡ true
    → (ch : Link) × HasChannel ch channels × (wiring i ch ≡ (j, c))
unfolding to_channels address_all
markers-marker_in wiring i id j c [] h = cc h
markers-marker_in wiring i id j c ((name, ch) ∷ channels) h =
    elim (Bool-cases (is_at j c (addressed wiring i ch (Messages.marker id)))) [
      | inl here ↦
          let e₀ : (wiring i ch).0 ≡ j = ground (arith, here) in
          let e₁ : (wiring i ch).1 ≡ c = ground (arith, here, link_beq_iff (wiring i ch).1 c) in
          (ch, inl refl, ap₂ (λ x y. (x, y)) e₀ e₁)
      | inr elsewhere ↦
          let (d, has, e) =
            markers-marker_in wiring i id j c channels (ground (arith, elsewhere, h)) in
          (d, inr has, e)
    ]

pub markers-IsFine :
    (n : ℕ) (wiring : Wiring) (i id : ℕ) (start : ℕ → Branch) (channels : Dict String Link)
    → i < n
    → ((ch : Link) → HasChannel ch channels → HasChannel ch (start i).channels)
    → All (IsFine n wiring id start) (markers wiring i id channels)
unfolding to_channels address_all
markers-IsFine n wiring i id start [] inside sub = tt
markers-IsFine n wiring i id start ((name, ch) ∷ channels) inside sub = (
  (record { i = i; far = ch; inside = inside; has = sub ch (inl refl); ends = refl }, refl),
  markers-IsFine n wiring i id start channels inside (λ d has. sub d (inr has)),
)

total-update_outside :
    (worth : Branch → ℕ) (branches : ℕ → Branch) (i : ℕ) (b : Branch) (n : ℕ)
    → n ≤ i
    → total worth (update branches i b) n ≡ total worth branches n
total-update_outside worth branches i b zero outside = refl
total-update_outside worth branches i b (suc n) outside =
    ground (arith, total-update_outside worth branches i b n)

pub total-update :
    (worth : Branch → ℕ) (branches : ℕ → Branch) (i : ℕ) (b : Branch) (n : ℕ)
    → i < n
    → total worth (update branches i b) n + worth (branches i) ≡ total worth branches n + worth b
total-update worth branches i b zero inside = absurd (omega arith)
total-update worth branches i b (suc n) inside = elim (Bool-cases (n == i)) [
  | inl last ↦
      let e : n ≡ i = ground (arith, last) in
      ground
        (arith, last, e, ap (λ k. worth (branches k)) e, total-update_outside worth branches i b n)
  | inr other ↦ ground (arith, other, total-update worth branches i b n)
]
