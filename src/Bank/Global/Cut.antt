-- ===== src/Bank/Global/Cut.antt =====
-- The letters on their way, cut by the markers of a snapshot into those before and those behind.
use cs.Prelude.{
  ℕ, ◌+◌, ◌≡◌, refl, ap, Bool, false, ◌&&◌, ◌||◌, if◌then◌else◌, ◌==◌, List, [], ◌∷◌, ◌++◌, All,
  arith, fun_ext,
}
use cs.Bank.Messages.{BranchMessage, transfer}
use cs.Bank.Messages
use cs.Bank.Branch.{Link, link_beq, link_beq_iff}
use cs.Bank.Branch.Conserves.{amount}
use cs.Bank.Network.{Letter, Taken, first, later, letter}

-- The channels that are cut already.
abbrev pub Marks : Type 0
Marks = ℕ → Link → Bool

abbrev pub is_marker : ℕ → BranchMessage → Bool
is_marker id (Messages.marker k) = id == k
is_marker id _ = false

abbrev pub is_at : ℕ → Link → Letter → Bool
is_at j ch l = l.destination == j && link_beq l.channel ch

abbrev pub cuts : ℕ → Letter → Marks → Marks
cuts id l cut j ch = (is_marker id l.content && is_at j ch l) || cut j ch

-- The money of the letters that no marker is before.
abbrev pub weight : ℕ → Marks → List Letter → ℕ
weight id cut [] = 0
weight id cut (l ∷ letters) =
    (if cut l.destination l.channel then 0 else amount l.content)
    + weight id (cuts id l cut) letters

abbrev pub marker_in : ℕ → ℕ → Link → List Letter → Bool
marker_in id j ch [] = false
marker_in id j ch (l ∷ letters) =
    (is_marker id l.content && is_at j ch l) || marker_in id j ch letters

abbrev pub marker_letter : ℕ → ℕ → Link → Letter
marker_letter id j ch = record { destination = j; channel = ch; content = Messages.marker id }

pub weight-ext :
    (id : ℕ) (P : ℕ → Link → Type 0) (cut cut' : Marks) (letters : List Letter)
    → ((j : ℕ) (ch : Link) → P j ch → cut j ch ≡ cut' j ch)
    → All (λ l. P l.destination l.channel) letters
    → weight id cut letters ≡ weight id cut' letters
weight-ext id P cut cut' [] same all = refl
weight-ext id P cut cut' (l ∷ letters) same all =
    let here = same l.destination l.channel all.0 in
    let rest =
      weight-ext id P (cuts id l cut) (cuts id l cut') letters
        (λ j ch p. ap (λ c. (is_marker id l.content && is_at j ch l) || c) (same j ch p)) all.1 in
    rw (here, rest) refl

pub weight-append :
    (id : ℕ) (cut : Marks) (letters : List Letter) (l : Letter)
    → weight id cut (letters ++ l ∷ [])
      ≡ weight id cut letters
        + (if cut l.destination l.channel || marker_in id l.destination l.channel letters
            then 0
            else amount l.content)
weight-append id cut [] l = ground arith
weight-append id cut (m ∷ letters) l = ground (arith, weight-append id (cuts id m cut) letters l)

pub marker_in-append :
    (id j : ℕ) (ch : Link) (letters more : List Letter)
    → marker_in id j ch (letters ++ more) ≡ (marker_in id j ch letters || marker_in id j ch more)
marker_in-append id j ch [] more = refl
marker_in-append id j ch (l ∷ letters) more = ground (arith, marker_in-append id j ch letters more)

-- A transfer that arrives cuts nothing.
pub weight-transfer :
    (id j money : ℕ) (ch : Link) (cut : Marks) (letters left : List Letter)
    → Taken (letter j ch money) letters left
    → weight id cut letters ≡ (if cut j ch then 0 else money) + weight id cut left
weight-transfer id j money ch cut _ _ first = refl
weight-transfer id j money ch cut _ _
      (later {m = m} {letters = letters} {left = left} other taken) =
    let ih = weight-transfer id j money ch (cuts id m cut) letters left taken in
    ground (arith, ih, other)

pub marker_in-transfer :
    (id i j money : ℕ) (ch c : Link) (letters left : List Letter)
    → Taken (letter j ch money) letters left
    → marker_in id i c letters ≡ marker_in id i c left
marker_in-transfer id i j money ch c _ _ first = refl
marker_in-transfer id i j money ch c _ _
      (later {m = m} {letters = letters} {left = left} other taken) =
    ap (λ x. (is_marker id m.content && is_at i c m) || x)
      (marker_in-transfer id i j money ch c letters left taken)

cuts_swap :
    (id : ℕ) (l m : Letter) (cut : Marks) → cuts id l (cuts id m cut) ≡ cuts id m (cuts id l cut)
cuts_swap id l m cut = fun_ext (λ j. fun_ext (λ ch. ground arith))

-- A marker that arrives has cut its channel for those behind it.
pub weight-marker :
    (id j : ℕ) (ch : Link) (cut : Marks) (letters left : List Letter)
    → Taken (marker_letter id j ch) letters left
    → weight id cut letters ≡ weight id (cuts id (marker_letter id j ch) cut) left
weight-marker id j ch cut _ _ first = ground arith
weight-marker id j ch cut _ _ (later {m = m} {letters = letters} {left = left} other taken) =
    let l = marker_letter id j ch in
    let ih = weight-marker id j ch (cuts id m cut) letters left taken in
    let swap = ap (λ c. weight id c left) (cuts_swap id l m cut) in
    ground (arith, ih, swap, other, link_beq_iff m.channel ch, link_beq_iff ch m.channel)

pub marker_in-marker :
    (id i j : ℕ) (ch c : Link) (letters left : List Letter)
    → Taken (marker_letter id j ch) letters left
    → marker_in id i c letters ≡ (is_at i c (marker_letter id j ch) || marker_in id i c left)
marker_in-marker id i j ch c _ _ first = ground arith
marker_in-marker id i j ch c _ _ (later {m = m} {letters = letters} {left = left} other taken) =
    ground (arith, marker_in-marker id i j ch c letters left taken)
