-- ===== src/Chord/Node/Ring.antt =====
-- The nodes of a ring with their tables (chord/include/chord.h).
use cs.Prelude.{
  ℕ, zero, suc, ◌-◌, ◌<◌, ◌≡◌, ◌∙◌, true, ◌==◌, ltb, if◌then◌else◌, some, List, ◌∷◌, All, arith,
  inl, inr, Bool-cases,
}
use native.Mathlib.Decide.{dec_lt}
use cs.Chord.Hash.{before, before_irrefl, before_trans}
use cs.Chord.Node.{NodeId, LocalNode}

abbrev pub next_of : ℕ → ℕ → ℕ
next_of count i = if suc i == count then 0 else suc i

abbrev pub previous : ℕ → ℕ → ℕ
previous count zero = count - 1
previous count (suc i) = i

-- A node of the ring other than number i, which may be that one if it is alone.
abbrev pub IsFinger : ℕ → (ℕ → LocalNode) → ℕ → NodeId → Type 0
IsFinger count ring i f = (j : ℕ) × (j < count) × (j ≡ i → count ≡ 1) × (f ≡ (ring j).node)

-- Nodes in the order of their identifiers, each with the one before it as predecessor, the next one
-- as the front of its table, and other nodes of the ring in the table.
pub record IsRing (count : ℕ) (at : NodeId → LocalNode) (ring : ℕ → LocalNode) : Type 0 where
  pub ascending : (i j : ℕ) → i < j → j < count → before (ring i).node.id (ring j).node.id ≡ true
  pub reached : (i : ℕ) → i < count → at (ring i).node ≡ ring i
  pub behind : (i : ℕ) → i < count → (ring i).predecessor ≡ some (ring (previous count i)).node
  pub front :
      (i : ℕ)
      → i < count
      → (rest : List NodeId) × ((ring i).fingertable ≡ (ring (next_of count i)).node ∷ rest)
  pub fingers : (i : ℕ) → i < count → All (IsFinger count ring i) (ring i).fingertable

module _ (count : ℕ) (at : NodeId → LocalNode) (ring : ℕ → LocalNode)
    (is_ring : IsRing count at ring) where
  pub order : (i j : ℕ) → i < count → j < count → before (ring i).node.id (ring j).node.id ≡ ltb i j
  order i j i_in j_in = elim (dec_lt i j) [
    | yes below ↦ ground (arith, is_ring.ascending i j below j_in)
    | no above ↦ elim (dec_lt j i) [
      | yes after ↦
          let p = is_ring.ascending j i after i_in in
          elim (Bool-cases (before (ring i).node.id (ring j).node.id)) [
            | inl q ↦ absurd (
                cc (
                  before_irrefl (ring i).node.id,
                  before_trans (ring i).node.id (ring j).node.id (ring i).node.id q p,
                ))
            | inr q ↦ ground (arith, q)
          ]
      | no below ↦
          let e : i ≡ j = omega arith in rw e (before_irrefl (ring j).node.id ∙ ground arith)
    ]
  ]
