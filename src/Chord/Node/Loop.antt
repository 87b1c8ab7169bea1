-- ===== src/Chord/Node/Loop.antt =====
-- A search that comes back to the node that it is at (closest_preceding_node of
-- chord/include/chord.h).
use cs.Prelude.{ℕ, zero, suc, ◌≡◌, refl, false, none, some, List, [], ◌∷◌, ◌++◌, arith}
use cs.Prelude.Eq.{Bytes}
use cs.Prelude.Outcome.{ok}
use cs.Chord.Hash.{before, before_irrefl}
use cs.Chord.Node.{NodeId, LocalNode, asks, id_between, last_between, find_successor}
use cs.Chord.Node.Search.{search}

last_between_self :
    (key : Bytes) (n : NodeId) (fs : List NodeId)
    → before n.id key ≡ false
    → last_between n.id key (fs ++ n ∷ []) ≡ some n
last_between_self key n [] low = ground (arith, low, before_irrefl n.id)
last_between_self key n (f ∷ fs) low = rw (last_between_self key n fs low, last_between) refl

asks_self :
    (key : Bytes) (n : LocalNode) (p : NodeId) (fs : List NodeId)
    → n.predecessor ≡ some p
    → n.fingertable ≡ fs ++ n.node ∷ []
    → id_between p.id key n.node.id ≡ false
    → before n.node.id key ≡ false
    → find_successor key n ≡ ok (asks n.node key)
unfolding find_successor
asks_self key n p [] known table foreign low =
    ground (arith, known, table, foreign, last_between_self key n.node [] low)
asks_self key n p (f ∷ fs) known table foreign low =
    ground (arith, known, table, foreign, last_between_self key n.node (f ∷ fs) low)

-- A node that has itself at the end of its table, where a key that it does not own is not after
-- its identifier, asks itself, so that the search does not end.
pub search_self :
    (at : NodeId → LocalNode) (calls : ℕ) (key : Bytes) (n : LocalNode) (p : NodeId)
    (fs : List NodeId)
    → at n.node ≡ n
    → n.predecessor ≡ some p
    → n.fingertable ≡ fs ++ n.node ∷ []
    → id_between p.id key n.node.id ≡ false
    → before n.node.id key ≡ false
    → search at calls key n ≡ ok none
unfolding search
search_self at zero key n p fs here known table foreign low = refl
search_self at (suc calls) key n p fs here known table foreign low =
    rw (asks_self key n p fs known table foreign low, here)
      (search_self at calls key n p fs here known table foreign low)
