-- ===== src/Chord/Node/Finger.antt =====
-- The node that is asked next (find_successor and closest_preceding_node of chord/include/chord.h).
use cs.Prelude.{
  ◌≡◌, refl, ap, true, false, Option, none, some, List, [], ◌∷◌, ◌++◌, All, arith, ◌⊎◌, inl, inr,
  Bool-cases, Option-cases,
}
use cs.Prelude.Eq.{Bytes}
use cs.Prelude.Outcome.{ok}
use cs.Chord.Node.{NodeId, LocalNode, asks, id_between, last_between, find_successor}

abbrev pub IsOutside : Bytes → Bytes → NodeId → Type 0
IsOutside id key f = id_between id f.id key ≡ false

-- An entry of the table between the node and the key, with only entries that are not so after it.
pub record IsClosest (id key : Bytes) (table : List NodeId) (f : NodeId) : Type 0 where
  pub front : List NodeId
  pub back : List NodeId
  pub split : table ≡ front ++ f ∷ back
  pub between : id_between id f.id key ≡ true
  pub others : All (IsOutside id key) back

-- What the search of the table returns.
abbrev pub IsLast : Bytes → Bytes → List NodeId → Option NodeId → Type 0
IsLast id key table none = All (IsOutside id key) table
IsLast id key table (some f) = IsClosest id key table f

IsLast-cons :
    (id key : Bytes) (f : NodeId) (fs : List NodeId) (later : Option NodeId)
    → last_between id key fs ≡ later
    → IsLast id key fs later
    → IsLast id key (f ∷ fs) (last_between id key (f ∷ fs))
IsLast-cons id key f fs (some n) e h =
    rw (e, last_between)
      (record {
        front = f ∷ h.front;
        back = h.back;
        split = ap (◌∷◌ f) h.split;
        between = h.between;
        others = h.others;
      })
IsLast-cons id key f fs none e h = elim (Bool-cases (id_between id f.id key)) [
  | inl yes_it_is ↦
      rw (e, yes_it_is, last_between)
        (record { front = []; back = fs; split = refl; between = yes_it_is; others = h })
  | inr outside ↦ rw (e, outside, last_between) (outside, h)
]

last_between-IsLast :
    (id key : Bytes) (table : List NodeId) → IsLast id key table (last_between id key table)
last_between-IsLast id key [] = tt
last_between-IsLast id key (f ∷ fs) =
    IsLast-cons id key f fs (last_between id key fs) refl (last_between-IsLast id key fs)

-- A node that has a predecessor and a table, and that does not own the key, asks the last entry
-- of the table that is between itself and the key, or the first entry of the table if none is.
pub find_successor-IsClosest :
    (key : Bytes) (n : LocalNode) (p front : NodeId) (rest : List NodeId)
    → n.predecessor ≡ some p
    → n.fingertable ≡ front ∷ rest
    → id_between p.id key n.node.id ≡ false
    → (f : NodeId) × (find_successor key n ≡ ok (asks f key))
      × (IsClosest n.node.id key n.fingertable f
          ⊎ (All (IsOutside n.node.id key) n.fingertable × (f ≡ front)))
unfolding find_successor
find_successor-IsClosest key n p front rest known table foreign =
    elim (Option-cases (last_between n.node.id key n.fingertable)) [
      | inl nothing ↦ (
        front,
        ground (arith, known, table, foreign, nothing),
        inr (rw nothing at (last_between-IsLast n.node.id key n.fingertable), refl),
      )
      | inr (f, there) ↦ (
        f,
        ground (arith, known, table, foreign, there),
        inl (rw there at (last_between-IsLast n.node.id key n.fingertable)),
      )
    ]
