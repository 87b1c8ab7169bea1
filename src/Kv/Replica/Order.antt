-- ===== src/Kv/Replica/Order.antt =====
-- The store does not depend on the order of the updates, and none of them is lost to an older one
-- (kv/server/src/replica.cpp).
use mathlib.Core.List.{Perm, Permᴰ}
use mathlib.Core.Logic.{∥∥₁_elim}
use cs.Prelude.{
  ℕ, ◌≡◌, refl, sym, ap, ◌∙◌, true, Bool, Option, none, some, List, [], ◌∷◌, ◌++◌, arith, get_elem?,
  get_elem?-ext, String, subst,
}
use cs.Prelude.Eq.{String-set}
use cs.Kv.Messages.{TimeOps, Timestamp, DoWrite}
use cs.Kv.Messages.Order.{not_after_refl, not_after_total, not_after_trans}
use cs.Kv.Replica.{Element, holds_newer}
use cs.Kv.Replica.Merge.{settle, touch, touch_all, get_elem?-settle, touch_swap, Determined}

Determined-perm :
    (value : ℕ → Timestamp → String) {xs ys : List DoWrite}
    → Permᴰ xs ys
    → Determined value xs
    → Determined value ys
Determined-perm value Permᴰ.nil d = d
Determined-perm value (Permᴰ.cons e p) d =
    (subst (λ (m : DoWrite). m.val ≡ value m.key m.timestamp) e d.0, Determined-perm value p d.1)
Determined-perm value (Permᴰ.swap e f) d = (
  subst (λ (m : DoWrite). m.val ≡ value m.key m.timestamp) f d.1.0,
  (subst (λ (m : DoWrite). m.val ≡ value m.key m.timestamp) e d.0, d.1.1),
)
Determined-perm value (Permᴰ.trans p q) d = Determined-perm value q (Determined-perm value p d)

Store-set : IsSet (List (Option Element))
Store-set = hlevel String-set

module _ ⦃tm : TimeOps⦄ where
  touch_all-append :
      (j : ℕ) (slot : Option (Option Element)) (xs ys : List DoWrite)
      → touch_all j slot (xs ++ ys) ≡ touch_all j (touch_all j slot xs) ys
  unfolding touch_all
  touch_all-append j slot [] ys = refl
  touch_all-append j slot (x ∷ xs) ys = touch_all-append j (touch j slot x) xs ys

  touch_all-perm :
      (value : ℕ → Timestamp → String) (j : ℕ) (slot : Option (Option Element))
      {xs ys : List DoWrite}
      → Permᴰ xs ys
      → Determined value xs
      → touch_all j slot xs ≡ touch_all j slot ys
  unfolding touch_all
  touch_all-perm value j slot Permᴰ.nil d = refl
  touch_all-perm value j slot (Permᴰ.cons {a = a} {l₂ = rest} e p) d =
      touch_all-perm value j (touch j slot a) p d.1 ∙ ap (λ m. touch_all j (touch j slot m) rest) e
  touch_all-perm value j slot (Permᴰ.swap {a = a} {b = b} {l = l} e f) d =
      ap (λ s. touch_all j s l)
        (touch_swap j slot a b (λ k t. ground (arith, d.0, d.1.0, ap (value a.key) t))
          ∙ rw (e, f) refl)
  touch_all-perm value j slot (Permᴰ.trans p q) d =
      touch_all-perm value j slot p d ∙ touch_all-perm value j slot q (Determined-perm value p d)

  -- Updates whose value is determined by their key and time leave the same store in every order.
  pub settle-perm :
      (value : ℕ → Timestamp → String) (store : List (Option Element)) (xs ys : List DoWrite)
      → Perm xs ys
      → Determined value xs
      → settle store xs ≡ settle store ys
  settle-perm value store xs ys p d =
      ∥∥₁_elim p (Store-set (settle store xs) (settle store ys)) λ q.
        get_elem?-ext (settle store xs) (settle store ys) λ j.
          get_elem?-settle store xs j
          ∙ touch_all-perm value j (get_elem? store j) q d
          ∙ sym (get_elem?-settle store ys j)

  -- Whether the slot holds a value that is at least as new.
  abbrev pub up_to_date : Option (Option Element) → Timestamp → Bool
  up_to_date none t = true
  up_to_date (some slot) t = holds_newer slot t

  touch-up_to_date :
      (j : ℕ) (slot : Option (Option Element)) (msg : DoWrite) (t : Timestamp)
      → up_to_date slot t ≡ true
      → up_to_date (touch j slot msg) t ≡ true
  touch-up_to_date j none msg t h = refl
  touch-up_to_date j (some none) msg t h = cc
  touch-up_to_date j (some (some e)) msg t h = ground (
    arith,
    not_after_total msg.timestamp e.timestamp,
    not_after_trans t e.timestamp msg.timestamp,
  )

  touch-up_to_date_self :
      (slot : Option (Option Element)) (msg : DoWrite)
      → up_to_date (touch msg.key slot msg) msg.timestamp ≡ true
  touch-up_to_date_self none msg = refl
  touch-up_to_date_self (some slot) msg = ground (arith, not_after_refl msg.timestamp)

  touch_all-up_to_date :
      (j : ℕ) (slot : Option (Option Element)) (msgs : List DoWrite) (t : Timestamp)
      → up_to_date slot t ≡ true
      → up_to_date (touch_all j slot msgs) t ≡ true
  unfolding touch_all
  touch_all-up_to_date j slot [] t h = h
  touch_all-up_to_date j slot (msg ∷ msgs) t h =
      touch_all-up_to_date j (touch j slot msg) msgs t (touch-up_to_date j slot msg t h)

  touch-of_up_to_date :
      (slot : Option (Option Element)) (j : ℕ) (msg : DoWrite)
      → (msg.key ≡ j → up_to_date slot msg.timestamp ≡ true)
      → touch j slot msg ≡ slot
  touch-of_up_to_date none j msg h = refl
  touch-of_up_to_date (some none) j msg h = ground arith
  touch-of_up_to_date (some (some e)) j msg h = ground arith

  -- Every update of the list is reflected in a slot that is up to date for all of them.
  abbrev Reflected : ℕ → Option (Option Element) → List DoWrite → Type 0
  Reflected j slot [] = Unit {0}
  Reflected j slot (msg ∷ msgs) =
      (msg.key ≡ j → up_to_date slot msg.timestamp ≡ true) × Reflected j slot msgs

  Reflected-absorb :
      (j : ℕ) (slot : Option (Option Element)) (msgs : List DoWrite)
      → Reflected j slot msgs
      → touch_all j slot msgs ≡ slot
  unfolding touch_all
  Reflected-absorb j slot [] h = refl
  Reflected-absorb j slot (msg ∷ msgs) h =
      rw (touch-of_up_to_date slot j msg h.0) (Reflected-absorb j slot msgs h.1)

  touch_all-Reflected :
      (j : ℕ) (slot : Option (Option Element)) (msgs : List DoWrite)
      → Reflected j (touch_all j slot msgs) msgs
  unfolding touch_all
  touch_all-Reflected j slot [] = tt
  touch_all-Reflected j slot (msg ∷ msgs) = (
    λ same. touch_all-up_to_date j (touch j slot msg) msgs msg.timestamp (
        subst (λ k. up_to_date (touch k slot msg) msg.timestamp ≡ true) same
          (touch-up_to_date_self slot msg)),
    touch_all-Reflected j (touch j slot msg) msgs,
  )

  -- Running the same updates once more changes nothing.
  pub settle-settle :
      (store : List (Option Element)) (msgs : List DoWrite)
      → settle (settle store msgs) msgs ≡ settle store msgs
  settle-settle store msgs =
      get_elem?-ext (settle (settle store msgs) msgs) (settle store msgs) λ j.
        get_elem?-settle (settle store msgs) msgs j
        ∙ ap (λ s. touch_all j s msgs) (get_elem?-settle store msgs j)
        ∙ Reflected-absorb j (touch_all j (get_elem? store j) msgs) msgs
            (touch_all-Reflected j (get_elem? store j) msgs)
        ∙ sym (get_elem?-settle store msgs j)
