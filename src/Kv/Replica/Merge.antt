-- ===== src/Kv/Replica/Merge.antt =====
-- What the queued updates of a replica leave in its store (kv/server/src/replica.cpp): slot by
-- slot, and whatever their order.
use cs.Prelude.{
  ℕ, ◌≡◌, refl, Option, none, some, List, [], ◌∷◌, arith, get_elem?, set, Option-cases, inl, inr,
  Bool-cases, get_elem?-set_self, get_elem?-set_ne, get_elem?-lt, ◌==◌, if◌then◌else◌, String,
}
use cs.Kv.Messages.{TimeOps, Timestamp, DoWrite}
use cs.Kv.Messages.Order.{not_after_total, not_after_antisym, not_after_trans}
use cs.Kv.Replica.{Element, element_of, merge}

-- Updates whose value is a function of their key and time.
abbrev pub Determined : (ℕ → Timestamp → String) → List DoWrite → Type 0
Determined value [] = Unit {0}
Determined value (msg ∷ msgs) = (msg.val ≡ value msg.key msg.timestamp) × Determined value msgs

module _ ⦃tm : TimeOps⦄ where
  -- One update of the store, and all of them in order.
  abbrev pub update : List (Option Element) → DoWrite → List (Option Element)
  update store msg = elim (get_elem? store msg.key) [
    | none ↦ store
    | some slot ↦ set store msg.key (merge slot (element_of msg))
  ]

  unfoldable pub settle : List (Option Element) → List DoWrite → List (Option Element)
  settle store [] = store
  settle store (msg ∷ msgs) = settle (update store msg) msgs

  -- What the updates do to the slot of one key.
  abbrev pub touch : ℕ → Option (Option Element) → DoWrite → Option (Option Element)
  touch j none msg = none
  touch j (some slot) msg = if msg.key == j then some (merge slot (element_of msg)) else some slot

  unfoldable pub touch_all : ℕ → Option (Option Element) → List DoWrite → Option (Option Element)
  touch_all j slot [] = slot
  touch_all j slot (msg ∷ msgs) = touch_all j (touch j slot msg) msgs

  get_elem?-update :
      (store : List (Option Element)) (msg : DoWrite) (j : ℕ)
      → get_elem? (update store msg) j ≡ touch j (get_elem? store j) msg
  get_elem?-update store msg j = elim (Bool-cases (msg.key == j)) [
    | inl same ↦ elim (Option-cases (get_elem? store msg.key)) [
      | inl missing ↦ ground (arith, missing, same)
      | inr (slot, there) ↦ ground (
        arith,
        there,
        same,
        get_elem?-set_self store msg.key (merge slot (element_of msg)),
        get_elem?-lt store msg.key slot,
      )
    ]
    | inr other ↦ elim (Option-cases (get_elem? store msg.key)) [
      | inl missing ↦ ground (arith, missing, other)
      | inr (slot, there) ↦
          ground
            (arith, there, other, get_elem?-set_ne store msg.key j (merge slot (element_of msg)))
    ]
  ]

  pub get_elem?-settle :
      (store : List (Option Element)) (msgs : List DoWrite) (j : ℕ)
      → get_elem? (settle store msgs) j ≡ touch_all j (get_elem? store j) msgs
  unfolding settle touch_all
  get_elem?-settle store [] j = refl
  get_elem?-settle store (msg ∷ msgs) j =
      rw (← get_elem?-update store msg j) (get_elem?-settle (update store msg) msgs j)

  merge_swap :
      (slot : Option Element) (a b : Element)
      → (a.timestamp ≡ b.timestamp → a.content ≡ b.content)
      → merge (merge slot a) b ≡ merge (merge slot b) a
  merge_swap none a b same =
      ground
        (arith, not_after_antisym a.timestamp b.timestamp, not_after_total a.timestamp b.timestamp)
  merge_swap (some s) a b same = ground (
    arith,
    not_after_antisym a.timestamp b.timestamp,
    not_after_total a.timestamp b.timestamp,
    not_after_total a.timestamp s.timestamp,
    not_after_total b.timestamp s.timestamp,
    not_after_trans a.timestamp b.timestamp s.timestamp,
    not_after_trans b.timestamp a.timestamp s.timestamp,
  )

  pub touch_swap :
      (j : ℕ) (slot : Option (Option Element)) (a b : DoWrite)
      → (a.key ≡ b.key → a.timestamp ≡ b.timestamp → a.val ≡ b.val)
      → touch j (touch j slot a) b ≡ touch j (touch j slot b) a
  touch_swap j none a b same = refl
  touch_swap j (some slot) a b same = ground (arith, merge_swap slot (element_of a) (element_of b))
