-- ===== src/Chord/Examples/Rings.antt =====
-- A ring of three nodes, and a node that has itself in its table.
use cs.Prelude.{ℕ, ◌<◌, ◌≡◌, ◌≢◌, refl, arith, true, some, none, List, [], ◌∷◌, map, All}
use cs.Prelude.Eq.{Bytes}
use cs.Prelude.Outcome.{ok}
use cs.Chord.Hash.{before}
use cs.Chord.Node.{NodeId, LocalNode, new, is_successor}
use cs.Chord.Node.Ring.{next_of}
use cs.Chord.Node.Search.{search}
use cs.Chord.Node.Joined.{among, join_all, fresh, node_at}
use cs.Chord.Node.Joined.Searched.{joined_ring_searched}
use cs.Chord.Examples.{plain}
use cs.Chord.Node.Loop.{search_self}

abbrev node : ℕ → NodeId
node i = record { id = i ∷ []; ip = []; port = i }

abbrev joined : ℕ → ℕ → List ℕ → LocalNode
joined i p fs = record {
  node = node i;
  fingertable = map node fs;
  predecessor = some (node p);
  calls = [];
}

abbrev count : ℕ
count = 3

-- Three nodes whose identifiers start with their number.
abbrev ip : ℕ → Bytes
ip i = i ∷ []

abbrev port : ℕ → ℕ
port i = i

abbrev fingers : ℕ → List ℕ
fingers i = next_of 3 i ∷ next_of 3 (next_of 3 i) ∷ []

abbrev number : NodeId → ℕ
number f = f.port

abbrev order : List ℕ
order = 1 ∷ 0 ∷ 2 ∷ 1 ∷ []

-- A key between the second node and the third.
abbrev key : Bytes
key = 1 ∷ 200 ∷ []

number-node_at : (j : ℕ) → j < 3 → number (node_at ip port j) ≡ j
unfolding new
number-node_at j h = refl

ascending : (j k : ℕ) → j < k → k < 3 → before (node_at ip port j).id (node_at ip port k).id ≡ true
unfolding new
ascending j k below h = ground arith

fingers_front : (j : ℕ) → j < 3 → (rest : List ℕ) × (fingers j ≡ next_of 3 j ∷ rest)
fingers_front j h = (next_of 3 (next_of 3 j) ∷ [], refl)

fingers_other : (j : ℕ) → j < 3 → All (λ k. (k < 3) × (k ≡ j → count ≡ 1)) (fingers j)
fingers_other j h =
    ((ground arith, λ e. absurd (ground arith)), ((ground arith, λ e. absurd (ground arith)), tt))

order_complete : (j : ℕ) → j < 3 → among j order ≡ true
order_complete j h = ground arith

key_apart : (j : ℕ) → j < 3 → key ≢ (node_at ip port j).id
unfolding new
key_apart j h e = cc e

joined_ring_searched_example :
    (ring : ℕ → LocalNode) × (o : ℕ) × (join_all number order
        (λ j. map (node_at ip port) (fingers j))
        (fresh ip port)
      ≡ ok ring)
    × (o < 3)
    × (is_successor key (ring o) ≡ ok true)
    × (search (λ f. ring (number f)) 3 key (ring 2) ≡ ok (some (node_at ip port o)))
joined_ring_searched_example =
    joined_ring_searched 3 ip port fingers number order key 2 number-node_at ascending fingers_front
      fingers_other (omega arith, (omega arith, (omega arith, (omega arith, tt)))) order_complete
      key_apart (omega arith)

-- Two nodes next to each other: half of the ring after the second one comes back to it.
abbrev second : LocalNode
second = joined 1 0 (0 ∷ 1 ∷ [])

search_self_example : search (λ f. second) 50 [] second ≡ ok none
search_self_example =
    search_self (λ f. second) 50 [] second (node 0) (node 0 ∷ []) refl refl refl refl refl
