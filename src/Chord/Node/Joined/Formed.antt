-- ===== src/Chord/Node/Joined/Formed.antt =====
-- What the nodes of a ring know while they are given their tables.
use cs.Prelude.{
  ℕ, zero, suc, ◌<◌, ◌≡◌, ◌∙◌, refl, ap, sym, subst, All, Bool, true, false, ◌||◌, ◌==◌, some, List,
  [], ◌∷◌, map, arith, inl, inr, Bool-cases,
}
use cs.Prelude.Eq.{Bytes}
use cs.Prelude.Outcome.{ok}
use cs.Chord.Hash.{Hash, before}
use cs.Chord.Node.{NodeId, LocalNode, id_of, new, set_fingertable, set_predecessor}
use cs.Chord.Node.Ring.{next_of, previous, IsFinger, IsRing}
use cs.Chord.Node.Joined.{put_at, among, deliver, join, join_all, node_at}

-- The nodes keep their names; those that are done have their tables, and are known to their
-- successors.
pub record Formed (count : ℕ) (node : ℕ → NodeId) (fingers : ℕ → List ℕ) (done : ℕ → Bool)
    (ring : ℕ → LocalNode) : Type 0 where
  pub named : (j : ℕ) → (ring j).node ≡ node j
  pub tabled : (j : ℕ) → done j ≡ true → (ring j).fingertable ≡ map node (fingers j)
  pub known :
      (j : ℕ) → j < count → done j ≡ true → (ring (next_of count j)).predecessor ≡ some (node j)

put_at-elim :
    (P : LocalNode → Type 0) (i : ℕ) (n : LocalNode) (ring : ℕ → LocalNode) (j : ℕ)
    → (j ≡ i → P n)
    → ((j == i) ≡ false → P (ring j))
    → P (put_at i n ring j)
put_at-elim P i n ring j here elsewhere = elim (Bool-cases (j == i)) [
  | inl same ↦ rw same (here (ground arith))
  | inr other ↦ rw other (elsewhere other)
]

next_of-injective :
    (count i j : ℕ) → i < count → j < count → next_of count i ≡ next_of count j → i ≡ j
next_of-injective count i j i_in j_in e = ground arith

next_of-previous : (count i : ℕ) → i < count → next_of count (previous count i) ≡ i
next_of-previous count zero h = ground arith
next_of-previous count (suc i) h = ground arith

module _ ⦃h : Hash⦄ (count : ℕ) (ip : ℕ → Bytes) (port : ℕ → ℕ) (fingers : ℕ → List ℕ)
    (number : NodeId → ℕ) (numbered : (j : ℕ) → j < count → number (node_at ip port j) ≡ j)
    (front : (j : ℕ) → j < count → (rest : List ℕ) × (fingers j ≡ next_of count j ∷ rest)) where
  abbrev node : ℕ → NodeId
  node = node_at ip port

  rehashed :
      (js : List ℕ)
      → map (λ (f : NodeId). record f { id = id_of f.ip f.port }) (map node js) ≡ map node js
  unfolding new
  rehashed [] = refl
  rehashed (j ∷ js) = ap (λ fs. node j ∷ fs) (rehashed js)

  -- Node i with its table, and its successor that has been told.
  abbrev joined : (ℕ → LocalNode) → ℕ → ℕ → LocalNode
  joined ring i =
      let n = record (ring i) {
        fingertable = map node (fingers i);
        calls = record { dest = node (next_of count i); predecessor = (ring i).node } ∷ [];
      } in
      let tabled = put_at i n ring in
      let next = next_of count i in
      put_at next (record (tabled next) { predecessor = some (ring i).node }) tabled

  join-joined :
      (ring : ℕ → LocalNode) (i : ℕ)
      → i < count
      → join number i (map node (fingers i)) ring ≡ ok (joined ring i)
  unfolding join set_fingertable deliver set_predecessor new
  join-joined ring i i_in =
      let (rest, e) = front i i_in in
      rw (e, rehashed rest, numbered (next_of count i) (ground arith)) refl

  joined-Formed :
      (ring : ℕ → LocalNode) (i : ℕ) (done : ℕ → Bool)
      → i < count
      → Formed count node fingers done ring
      → Formed count node fingers (λ j. j == i || done j) (joined ring i)
  joined-Formed ring i done i_in was =
      let n = record (ring i) {
        fingertable = map node (fingers i);
        calls = record { dest = node (next_of count i); predecessor = (ring i).node } ∷ [];
      } in
      let tabled = put_at i n ring in
      let next = next_of count i in
      let told = record (tabled next) { predecessor = some (ring i).node } in
      let named : (j : ℕ) → (tabled j).node ≡ node j = λ j.
        put_at-elim (λ m. m.node ≡ node j) i n ring j (λ e. rw e (was.named i))
          (λ e. was.named j) in
      let given : (j : ℕ)
          → (j == i || done j) ≡ true
          → (tabled j).fingertable ≡ map node (fingers j) =
        λ j its.
          put_at-elim (λ m. m.fingertable ≡ map node (fingers j)) i n ring j (λ e. rw e refl)
            (λ e. was.tabled j (ground (arith, e, its))) in
      record {
        named = λ j.
            put_at-elim (λ m. m.node ≡ node j) next told tabled j (λ e. rw e (named next))
              (λ e. named j);
        tabled = λ j its.
            put_at-elim (λ m. m.fingertable ≡ map node (fingers j)) next told tabled j
              (λ e. rw e (given next (rw e at its))) (λ e. given j its);
        known = λ j j_in its.
            put_at-elim (λ m. m.predecessor ≡ some (node j)) next told tabled (next_of count j)
              (λ e.
                let same : j ≡ i = next_of-injective count j i j_in i_in e in
                rw same (ap some (was.named i)))
              (λ e.
                put_at-elim (λ m. m.predecessor ≡ some (node j)) i n ring (next_of count j)
                  (λ at_i.
                    subst (λ k. (ring k).predecessor ≡ some (node j)) at_i
                      (was.known j j_in (ground (arith, e, its))))
                  (λ other. was.known j j_in (ground (arith, e, its))));
      }

  pub join_all-Formed :
      (order : List ℕ) (ring : ℕ → LocalNode) (done : ℕ → Bool)
      → All (λ i. i < count) order
      → Formed count node fingers done ring
      → (formed : ℕ → LocalNode) × (join_all number order (λ i. map node (fingers i)) ring
          ≡ ok formed)
        × Formed count node fingers (λ j. done j || among j order) formed
  unfolding join_all
  join_all-Formed [] ring done within was = (
    ring,
    refl,
    record {
      named = was.named;
      tabled = λ j its. was.tabled j (ground (arith, its));
      known = λ j j_in its. was.known j j_in (ground (arith, its));
    },
  )
  join_all-Formed (i ∷ order) ring done (i_in, within) was =
      let (formed, run, know) =
        join_all-Formed order (joined ring i) (λ j. j == i || done j) within
          (joined-Formed ring i done i_in was) in
      (
        formed,
        rw (join-joined ring i i_in) run,
        record {
          named = know.named;
          tabled = λ j its. know.tabled j (ground (arith, its));
          known = λ j j_in its. know.known j j_in (ground (arith, its));
        },
      )

  fingers-IsFinger :
      (ring : ℕ → LocalNode) (i : ℕ) (js : List ℕ)
      → ((j : ℕ) → (ring j).node ≡ node j)
      → All (λ j. (j < count) × (j ≡ i → count ≡ 1)) js
      → All (IsFinger count ring i) (map node js)
  fingers-IsFinger ring i [] named others = tt
  fingers-IsFinger ring i (j ∷ js) named ((j_in, alone), others) =
      ((j, j_in, alone, sym (named j)), fingers-IsFinger ring i js named others)

  -- Tables of other nodes of the ring, once each node has been given its own, make a ring.
  pub Formed-IsRing :
      (ring : ℕ → LocalNode) (done : ℕ → Bool)
      → ((i j : ℕ) → i < j → j < count → before (node i).id (node j).id ≡ true)
      → ((i : ℕ) → i < count → All (λ j. (j < count) × (j ≡ i → count ≡ 1)) (fingers i))
      → Formed count node fingers done ring
      → ((i : ℕ) → i < count → done i ≡ true)
      → IsRing count (λ f. ring (number f)) ring
  Formed-IsRing ring done ascending others know complete = record {
    ascending = λ i j i_j j_in. rw (know.named i, know.named j) (ascending i j i_j j_in);
    reached = λ i i_in. ap ring (ap number (know.named i) ∙ numbered i i_in);
    behind = λ i i_in.
        let p = previous count i in
        rw (know.named p) (
          subst (λ k. (ring k).predecessor ≡ some (node p)) (next_of-previous count i i_in)
            (know.known p (ground arith) (complete p (ground arith))));
    front = λ i i_in.
        let (rest, e) = front i i_in in
        (
          map node rest,
          know.tabled i (complete i i_in)
              ∙ ap (map node) e
              ∙ rw (know.named (next_of count i)) refl,
        );
    fingers = λ i i_in.
        rw (know.tabled i (complete i i_in))
          (fingers-IsFinger ring i (fingers i) know.named (others i i_in));
  }
