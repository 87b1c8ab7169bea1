-- ===== src/Chord/Node/Search.antt =====
-- A search that goes from node to node of a ring (find_successor of chord/include/chord.h).
use cs.Prelude.{
  ℕ, zero, suc, ◌+◌, ◌-◌, ◌≤◌, ◌<◌, ◌≡◌, ◌≢◌, ap, ◌∙◌, true, false, not, ◌==◌, ltb, if◌then◌else◌,
  Option, none, some, List, [], ◌∷◌, ◌++◌, All, arith, inl, inr, Bool-cases, subst,
}
use native.Mathlib.Decide.{dec_lt}
use cs.Prelude.Eq.{Bytes}
use cs.Prelude.Outcome.{Outcome, ok, ◌>>=◌}
use cs.Chord.Hash.{before, before_irrefl, before_trans, before_total}
use cs.Chord.Node.{NodeId, LocalNode, found, asks, id_between, is_successor, find_successor}
use cs.Chord.Node.Ring.{next_of, previous, IsFinger, IsRing, order}
use cs.Chord.Node.Finger.{find_successor-IsClosest}

-- The calls one after another, each to the node that `at` has for the one that is asked; `none`
-- where the calls go on.
unfoldable pub search : (NodeId → LocalNode) → ℕ → Bytes → LocalNode → Outcome (Option NodeId)
unfolding find_successor
search at zero key n = ok none
search at (suc calls) key n = do
  answer ← find_successor key n
  elim answer [ found m ↦ ok (some m) | asks f k ↦ search at calls k (at f) ]

All-split : (P : NodeId → Type 0) (xs ys : List NodeId) (f : NodeId) → All P (xs ++ f ∷ ys) → P f
All-split P [] ys f all = all.0
All-split P (x ∷ xs) ys f all = All-split P xs ys f all.1

module _ (count : ℕ) (at : NodeId → LocalNode) (ring : ℕ → LocalNode)
    (is_ring : IsRing count at ring) where
  module _ (key : Bytes) (apart : (i : ℕ) → i < count → key ≢ (ring i).node.id) where
    -- The number of nodes before the key, among the first n.
    record Rank (n : ℕ) : Type 0 where
      r : ℕ
      within : r ≤ n
      below : (j : ℕ) → j < n → before (ring j).node.id key ≡ ltb j r

    rank : (n : ℕ) → n ≤ count → Rank n
    rank zero h = record { r = 0; within = omega arith; below = λ j k. absurd (omega arith) }
    rank (suc n) h = elim (Bool-cases (before (ring n).node.id key)) [
      | inl yes_it_is ↦ record {
        r = suc n;
        within = omega arith;
        below = λ j k. elim (dec_lt j n) [
          | yes less ↦
              before_trans (ring j).node.id (ring n).node.id key
                (is_ring.ascending j n less (omega arith)) yes_it_is
              ∙ ground arith
          | no more ↦ let e : j ≡ n = omega arith in rw e (yes_it_is ∙ ground arith)
        ];
      }
      | inr no_it_is_not ↦
          let rest = rank n (omega arith) in
          record {
            r = rest.r;
            within = omega (arith, rest.within);
            below = λ j k. elim (dec_lt j n) [
              | yes less ↦ rest.below j less
              | no more ↦
                  let e : j ≡ n = omega arith in rw e (no_it_is_not ∙ ground (arith, rest.within))
            ];
          }
    ]

    -- A key that is no node's identifier is before a node or after it.
    above : (k : Rank count) (j : ℕ) → j < count → before key (ring j).node.id ≡ not (ltb j k.r)
    above k j j_in = elim (Bool-cases (before key (ring j).node.id)) [
      | inl after ↦ elim (Bool-cases (before (ring j).node.id key)) [
        | inl q ↦ absurd (cc (before_irrefl key, before_trans key (ring j).node.id key after q))
        | inr q ↦ ground (arith, q, k.below j j_in, after)
      ]
      | inr not_after ↦ elim (Bool-cases (before (ring j).node.id key)) [
        | inl q ↦ ground (arith, q, k.below j j_in, not_after)
        | inr q ↦ absurd (apart j j_in (before_total key (ring j).node.id not_after q))
      ]
    ]

    abbrev owner : Rank count → ℕ
    owner k = if k.r == count then 0 else k.r

    is_successor-owner :
        (k : Rank count) (i : ℕ) → i < count → is_successor key (ring i) ≡ ok (i == owner k)
    unfolding is_successor
    is_successor-owner k zero i_in = ground (
      arith,
      is_ring.behind 0 i_in,
      order count at ring is_ring (count - 1) 0 (omega arith) i_in,
      k.below (count - 1) (omega arith),
      k.below 0 i_in,
      above k (count - 1) (omega arith),
      above k 0 i_in,
      k.within,
    )
    is_successor-owner k (suc i) i_in = ground (
      arith,
      is_ring.behind (suc i) i_in,
      order count at ring is_ring i (suc i) (omega arith) i_in,
      k.below i (omega arith),
      above k (suc i) i_in,
      k.within,
    )

    -- How far the owner is ahead of node i.
    abbrev ahead : Rank count → ℕ → ℕ
    ahead k i = if i == owner k then 0 else if ltb i k.r then k.r - i else count + k.r - i

    -- A finger between the node and the key is nearer to the owner.
    between-ahead :
        (k : Rank count) (i j : ℕ)
        → i < count
        → j < count
        → (i == owner k) ≡ false
        → (j ≡ i → count ≡ 1)
        → id_between (ring i).node.id (ring j).node.id key ≡ true
        → ahead k j < ahead k i
    between-ahead k i j i_in j_in foreign other between = ground (
      arith,
      order count at ring is_ring i j i_in j_in,
      order count at ring is_ring j i j_in i_in,
      k.below i i_in,
      k.below j j_in,
      above k j j_in,
      k.within,
      between,
      foreign,
      other,
    )

    next-ahead :
        (k : Rank count) (i : ℕ)
        → i < count
        → (i == owner k) ≡ false
        → ahead k (next_of count i) < ahead k i
    next-ahead k i i_in foreign = ground (arith, k.within, foreign)

    owner_in : (k : Rank count) → 0 < count → owner k < count
    owner_in k some_node = ground (arith, k.within)

    -- The node that is asked: an other node of the ring, which is nearer to the owner.
    record Hop (k : Rank count) (i : ℕ) : Type 0 where
      j : ℕ
      inside : j < count
      nearer : ahead k j < ahead k i
      asked : find_successor key (ring i) ≡ ok (asks (ring j).node key)

    hop : (k : Rank count) (i : ℕ) → i < count → (i == owner k) ≡ false → Hop k i
    unfolding is_successor
    hop k i i_in foreign =
        let (rest, table) = is_ring.front i i_in in
        let not_between : id_between (ring (previous count i)).node.id key (ring i).node.id
            ≡ false =
          ground (arith, is_successor-owner k i i_in, is_ring.behind i i_in, foreign) in
        let (f, asked, which) =
          find_successor-IsClosest key (ring i) (ring (previous count i)).node
            (ring (next_of count i)).node rest (is_ring.behind i i_in) table not_between in
        elim which [
          | inl c ↦
              let (j, j_in, other, e) =
                All-split (IsFinger count ring i) c.front c.back f
                  (subst (All (IsFinger count ring i)) c.split (is_ring.fingers i i_in)) in
              record {
                j = j;
                inside = j_in;
                nearer = between-ahead k i j i_in j_in foreign other (rw e at c.between);
                asked = asked ∙ ap (λ m. ok (asks m key)) e;
              }
          | inr (outside, e) ↦ record {
            j = next_of count i;
            inside = ground arith;
            nearer = next-ahead k i i_in foreign;
            asked = asked ∙ ap (λ m. ok (asks m key)) e;
          }
        ]

    search-owner :
        (k : Rank count) (calls i : ℕ)
        → i < count
        → ahead k i < calls
        → search at calls key (ring i) ≡ ok (some (ring (owner k)).node)
    unfolding search find_successor
    search-owner k zero i i_in near = absurd (omega arith)
    search-owner k (suc calls) i i_in near = elim (Bool-cases (i == owner k)) [
      | inl mine ↦
          let e : i ≡ owner k = ground (arith, mine) in
          rw (is_successor-owner k i i_in, mine) (ap (λ m. ok (some (ring m).node)) e)
      | inr foreign ↦
          let h = hop k i i_in foreign in
          rw (h.asked, is_ring.reached h.j h.inside)
            (search-owner k calls h.j h.inside (omega (arith, h.nearer, near)))
    ]

-- In a ring whose tables have other nodes of the ring, with the successor in front, a search for a
-- key that is no node's identifier ends at the node that owns the key, from whatever node it starts
-- and after at most as many nodes as there are.
pub search_ends :
    (count : ℕ) (at : NodeId → LocalNode) (ring : ℕ → LocalNode) (key : Bytes) (i : ℕ)
    → IsRing count at ring
    → ((j : ℕ) → j < count → key ≢ (ring j).node.id)
    → i < count
    → (o : ℕ) × (o < count)
      × (is_successor key (ring o) ≡ ok true)
      × (search at count key (ring i) ≡ ok (some (ring o).node))
search_ends count at ring key i is_ring apart i_in =
    let k = rank count at ring is_ring key apart count (omega arith) in
    let o = owner count at ring is_ring key apart k in
    let inside = owner_in count at ring is_ring key apart k (omega arith) in
    (
      o,
      inside,
      is_successor-owner count at ring is_ring key apart k o inside ∙ ground arith,
      search-owner count at ring is_ring key apart k count i i_in (ground (arith, k.within)),
    )
