-- ===== src/Chord/Node/Joined.antt =====
-- How a ring is set up: each node is given its table, and tells its successor so
-- (LocalNode::set_fingertable of chord/include/chord.h).
pub mod Formed
pub mod Searched
use cs.Prelude.{ℕ, ◌≡◌, Bool, false, ◌||◌, ◌==◌, if◌then◌else◌, List, [], ◌∷◌, map}
use cs.Prelude.Eq.{Bytes}
use cs.Prelude.Outcome.{Outcome, ok, ◌>>=◌}
use cs.Chord.Hash.{Hash}
use cs.Chord.Node.{NodeId, LocalNode, Call, new, set_fingertable, set_predecessor}

abbrev pub put_at : ℕ → LocalNode → (ℕ → LocalNode) → ℕ → LocalNode
put_at i n ring j = if j == i then n else ring j

abbrev pub among : ℕ → List ℕ → Bool
among j [] = false
among j (i ∷ order) = j == i || among j order

-- The calls that a node makes, each at the node with that number.
unfoldable pub deliver : (NodeId → ℕ) → List Call → (ℕ → LocalNode) → ℕ → LocalNode
unfolding set_predecessor
deliver number [] ring = ring
deliver number (call ∷ calls) ring =
    let i = number call.dest in
    deliver number calls (put_at i (set_predecessor call.predecessor (ring i)) ring)

module _ ⦃h : Hash⦄ where
  -- Node i is given a table; the call returns when its own call of the successor has.
  unfoldable pub join : (NodeId → ℕ) → ℕ → List NodeId → (ℕ → LocalNode) → Outcome (ℕ → LocalNode)
  unfolding set_fingertable deliver
  join number i table ring = do
    n ← set_fingertable table (record (ring i) { calls = [] })
    ok (deliver number n.calls (put_at i n ring))

  -- The nodes of `order`, one after another, with the tables of a list.
  unfoldable pub join_all :
      (NodeId → ℕ) → List ℕ → (ℕ → List NodeId) → (ℕ → LocalNode) → Outcome (ℕ → LocalNode)
  unfolding join
  join_all number [] table ring = ok ring
  join_all number (i ∷ order) table ring = do
    joined ← join number i (table i) ring
    join_all number order table joined

  -- The nodes as they are started.
  abbrev pub fresh : (ℕ → Bytes) → (ℕ → ℕ) → ℕ → LocalNode
  fresh ip port i = new (ip i) (port i)

  abbrev pub node_at : (ℕ → Bytes) → (ℕ → ℕ) → ℕ → NodeId
  node_at ip port i = (new (ip i) (port i)).node
