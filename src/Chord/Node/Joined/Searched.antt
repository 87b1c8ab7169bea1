-- ===== src/Chord/Node/Joined/Searched.antt =====
-- Searches in a ring that has been set up (chord/include/chord.h).
use cs.Prelude.{ℕ, ◌<◌, ◌≡◌, ◌≢◌, refl, true, false, some, List, ◌∷◌, map, All}
use cs.Prelude.Eq.{Bytes}
use cs.Prelude.Outcome.{ok}
use cs.Chord.Hash.{Hash, before}
use cs.Chord.Node.{NodeId, LocalNode, is_successor}
use cs.Chord.Node.Ring.{next_of}
use cs.Chord.Node.Search.{search, search_ends}
use cs.Chord.Node.Joined.{among, join_all, fresh, node_at}
use cs.Chord.Node.Joined.Formed.{Formed, join_all-Formed, Formed-IsRing}

-- Nodes, numbered by their identifiers, that are started and then given, in whatever order and
-- perhaps more than once, tables of other nodes with the next one in front: the set-up runs to its
-- end, and after it a search from any node for a key that is no identifier ends, after at most as
-- many nodes as there are, at a node that owns the key.
pub joined_ring_searched :
    ⦃h : Hash⦄ (count : ℕ) (ip : ℕ → Bytes) (port : ℕ → ℕ) (fingers : ℕ → List ℕ)
    (number : NodeId → ℕ) (order : List ℕ) (key : Bytes) (i : ℕ)
    → ((j : ℕ) → j < count → number (node_at ip port j) ≡ j)
    → ((j k : ℕ) → j < k → k < count → before (node_at ip port j).id (node_at ip port k).id ≡ true)
    → ((j : ℕ) → j < count → (rest : List ℕ) × (fingers j ≡ next_of count j ∷ rest))
    → ((j : ℕ) → j < count → All (λ k. (k < count) × (k ≡ j → count ≡ 1)) (fingers j))
    → All (λ j. j < count) order
    → ((j : ℕ) → j < count → among j order ≡ true)
    → ((j : ℕ) → j < count → key ≢ (node_at ip port j).id)
    → i < count
    → (ring : ℕ → LocalNode) × (o : ℕ) × (join_all number order
          (λ j. map (node_at ip port) (fingers j))
          (fresh ip port)
        ≡ ok ring)
      × (o < count)
      × (is_successor key (ring o) ≡ ok true)
      × (search (λ f. ring (number f)) count key (ring i) ≡ ok (some (node_at ip port o)))
joined_ring_searched ⦃h = h⦄ count ip port fingers number order key i numbered ascending front
      others within complete apart i_in =
    let started : Formed count (node_at ip port) fingers (λ j. false) (fresh ip port) = record {
      named = λ j. refl;
      tabled = λ j its. cc its;
      known = λ j j_in its. cc its;
    } in
    let (ring, run, know) =
      join_all-Formed count ip port fingers number numbered front order (fresh ip port) (λ j. false)
        within started in
    let is_ring =
      Formed-IsRing count ip port fingers number numbered front ring (λ j. among j order) ascending
        others know complete in
    let (o, o_in, owns, found_it) =
      search_ends count (λ f. ring (number f)) ring key i is_ring
        (λ j j_in. rw (know.named j) (apart j j_in)) i_in in
    (ring, o, run, o_in, owns, rw (know.named o) at found_it)
