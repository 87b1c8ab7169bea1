-- ===== src/Chord/Node/Owner.antt =====
-- Which nodes of a ring own a key (is_successor of chord/include/chord.h).
use cs.Prelude.{
  ℕ, ◌+◌, ◌≡◌, refl, Bool, true, false, ◌&&◌, ◌||◌, ◌⊎◌, some, List, [], ◌∷◌, arith, if◌then◌else◌,
  Bool-cases, inl, inr,
}
use cs.Prelude.Eq.{Bytes, bytes_eq, bytes_eq_iff}
use cs.Prelude.Outcome.{ok, fault}
use cs.Chord.Hash.{before, before_irrefl, before_trans, before_total}
use cs.Chord.Node.{NodeId, LocalNode, is_successor}

-- Nodes in the order of their identifiers after one with identifier p.
abbrev pub Ascending : Bytes → List NodeId → Type 0
Ascending p [] = Unit {0}
Ascending p (n ∷ ns) = (before p n.id ≡ true) × Ascending n.id ns

abbrev pub last_of : NodeId → List NodeId → NodeId
last_of n [] = n
last_of n (m ∷ ns) = last_of m ns

-- The node of the ring that has been told of its predecessor.
abbrev pub told : NodeId → NodeId → LocalNode
told p n = record { node = n; fingertable = []; predecessor = some p; calls = [] }

abbrev pub owns : Bytes → LocalNode → ℕ
owns key n = elim (is_successor key n) [ ok b ↦ if b then 1 else 0 | fault e ↦ 0 ]

abbrev pub owners_after : Bytes → NodeId → List NodeId → ℕ
owners_after key p [] = 0
owners_after key p (n ∷ ns) = owns key (told p n) + owners_after key n ns

-- How many nodes of the ring take the key for theirs.
abbrev pub owners : Bytes → NodeId → List NodeId → ℕ
owners key n ns = owns key (told (last_of n ns) n) + owners_after key n ns

-- Whether the key is the identifier of a node but the last.
abbrev pub is_inner : Bytes → List NodeId → Bool
is_inner key [] = false
is_inner key (n ∷ []) = false
is_inner key (n ∷ m ∷ ns) = bytes_eq key n.id || is_inner key (m ∷ ns)

abbrev strictly : Bytes → Bytes → Bytes → Bool
strictly lower key upper = before lower key && before key upper

last-above :
    (n : NodeId) (ns : List NodeId)
    → Ascending n.id ns
    → (ns ≡ []) ⊎ (before n.id (last_of n ns).id ≡ true)
last-above n [] h = inl refl
last-above n (m ∷ ns) h = elim (last-above m ns h.1) [
  | inl end ↦ inr (rw end h.0)
  | inr above ↦ inr (before_trans n.id m.id (last_of m ns).id h.0 above)
]

is_inner-above :
    (key : Bytes) (n : NodeId) (ns : List NodeId)
    → Ascending n.id ns
    → is_inner key ns ≡ true
    → before n.id key ≡ true
is_inner-above key n [] h inner = absurd (cc inner)
is_inner-above key n (m ∷ []) h inner = absurd (cc inner)
is_inner-above key n (m ∷ k ∷ ns) h inner = elim (Bool-cases (bytes_eq key m.id)) [
  | inl same ↦ rw ((bytes_eq_iff key m.id).0 same) h.0
  | inr other ↦
      before_trans n.id m.id key h.0
        (is_inner-above key m (k ∷ ns) h.1 (ground (arith, inner, other)))
]

-- A node after another in the order owns what is strictly between them.
owns-ascending :
    (key : Bytes) (p n : NodeId)
    → before p.id n.id ≡ true
    → owns key (told p n) ≡ (if strictly p.id key n.id then 1 else 0)
unfolding is_successor
owns-ascending key p n h = ground (arith, h)

owners_after-lem :
    (key : Bytes) (p : NodeId) (ns : List NodeId)
    → Ascending p.id ns
    → owners_after key p ns
      ≡ (if is_inner key ns then 0 else if strictly p.id key (last_of p ns).id then 1 else 0)
owners_after-lem key p [] h = ground (arith, before_trans p.id key p.id, before_irrefl p.id)
owners_after-lem key p (n ∷ []) h = ground (arith, owns-ascending key p n h.0)
owners_after-lem key p (n ∷ m ∷ ns) h =
    let later = owners_after-lem key n (m ∷ ns) h.1 in
    let first = owns-ascending key p n h.0 in
    let top = (last_of n (m ∷ ns)).id in
    let high : before n.id top ≡ true = elim (last-above n (m ∷ ns) h.1) [
      | inl e ↦ absurd (cc e)
      | inr above ↦ above
    ] in
    elim (Bool-cases (bytes_eq key n.id)) [
      | inl same ↦
          let e : key ≡ n.id = (bytes_eq_iff key n.id).0 same in
          ground (arith, first, later, same, e, before_irrefl n.id)
      | inr other ↦ elim (Bool-cases (is_inner key (m ∷ ns))) [
        | inl inner ↦
            let above = is_inner-above key n (m ∷ ns) h.1 inner in
            ground
              (arith, first, later, inner, above, before_trans n.id key n.id, before_irrefl n.id)
        | inr outer ↦ ground (
          arith,
          first,
          later,
          other,
          outer,
          h.0,
          high,
          before_trans p.id n.id key,
          before_trans key n.id top,
          before_trans n.id key n.id,
          before_irrefl n.id,
          before_total key n.id,
          bytes_eq_iff key n.id,
        )
      ]
    ]

is_inner-below :
    (key : Bytes) (n : NodeId) (ns : List NodeId)
    → Ascending n.id ns
    → is_inner key (n ∷ ns) ≡ true
    → before key (last_of n ns).id ≡ true
is_inner-below key n [] h inner = absurd (cc inner)
is_inner-below key n (m ∷ ns) h inner = elim (Bool-cases (bytes_eq key n.id)) [
  | inl same ↦
      let high : before n.id (last_of n (m ∷ ns)).id ≡ true = elim (last-above n (m ∷ ns) h) [
        | inl e ↦ absurd (cc e)
        | inr above ↦ above
      ] in
      rw ((bytes_eq_iff key n.id).0 same) high
  | inr other ↦ is_inner-below key m ns h.1 (ground (arith, inner, other))
]

-- The first node, after the last in the ring.
owns-first :
    (key : Bytes) (top n : NodeId)
    → before n.id top.id ≡ true
    → owns key (told top n) ≡ (if strictly n.id key top.id then 0 else 1)
unfolding is_successor
owns-first key top n high = ground (arith, high, before_trans n.id top.id n.id, before_irrefl n.id)

-- In a ring of nodes with ascending identifiers, each of which has been told of the node before it
-- (the first of the last), every key has exactly one owner, unless it is the identifier of a node
-- that is neither the first nor the last: no node takes that key for its own.
pub one_owner :
    (key : Bytes) (n : NodeId) (ns : List NodeId)
    → Ascending n.id ns
    → owners key n ns ≡ (if is_inner key ns then 0 else 1)
unfolding is_successor
one_owner key n [] h = ground (arith, before_irrefl n.id, before_trans n.id key n.id)
one_owner key n (m ∷ ns) h =
    let top = (last_of n (m ∷ ns)).id in
    let high : before n.id top ≡ true = elim (last-above n (m ∷ ns) h) [
      | inl e ↦ absurd (cc e)
      | inr above ↦ above
    ] in
    let rest = owners_after-lem key n (m ∷ ns) h in
    let first = owns-first key (last_of n (m ∷ ns)) n high in
    elim (Bool-cases (is_inner key (m ∷ ns))) [
      | inl inner ↦ ground (
        arith,
        first,
        rest,
        inner,
        is_inner-above key n (m ∷ ns) h inner,
        is_inner-below key m ns h.1 inner,
      )
      | inr outer ↦ ground (arith, first, rest, outer)
    ]
