-- ===== src/Kv/Replica/Atomic.antt =====
-- The compare-and-exchange loop of `Replica::write` (kv/server/src/replica.cpp) under updates of
-- other threads.
use cs.Prelude.{
  ℕ, suc, ◌≤◌, ◌≡◌, refl, false, ◌||◌, Option, some, List, [], ◌∷◌, ◌++◌, append-nil, if◌then◌else◌,
  length, take, arith, Bool-cases, inl, inr,
}
use cs.Kv.Messages.{TimeOps}
use cs.Kv.Replica.{Element, Attempt, quiet, holds_newer, merge, merge_all, replaces, cas_loop}

-- The updates of other threads in these rounds, in their order.
abbrev pub interference : List Attempt → List Element
interference [] = []
interference (a ∷ attempts) = a.others ++ interference attempts

module _ ⦃tm : TimeOps⦄ where
  merge_all-append :
      (slot : Option Element) (xs ys : List Element)
      → merge_all slot (xs ++ ys) ≡ merge_all (merge_all slot xs) ys
  unfolding merge_all
  merge_all-append slot [] ys = refl
  merge_all-append slot (x ∷ xs) ys = merge_all-append (merge slot x) xs ys

  replaces-false :
      (slot : Option Element) (es : List Element)
      → replaces slot es ≡ false
      → merge_all slot es ≡ slot
  unfolding merge_all replaces
  replaces-false slot [] h = refl
  replaces-false slot (e ∷ es) h = ground (arith, replaces-false slot es)

  -- How many exchanges the loop tries.
  abbrev pub exchanges : List Attempt → Option Element → Element → ℕ
  exchanges [] dest e = 0
  exchanges (a ∷ attempts) dest e =
      let again = exchanges attempts (merge_all dest a.others) e in
      if holds_newer dest e.timestamp
      then 0
      else if a.spurious || replaces dest a.others
      then suc again
      else 1

  -- If one of the rounds meets no interference the loop ends after it at the latest, and it leaves
  -- what the updates of other threads up to its last exchange and then its own leave when they run
  -- one after the other: no newer update is overwritten.
  pub cas_loop_atomic :
      (xs ys : List Attempt) (dest : Option Element) (e : Element)
      → (exchanges (xs ++ quiet ∷ ys) dest e ≤ suc (length xs))
        × (cas_loop (xs ++ quiet ∷ ys) dest e
            ≡ some (
                merge
                  (merge_all dest
                    (interference (take (exchanges (xs ++ quiet ∷ ys) dest e) (xs ++ quiet ∷ ys))))
                  e))
  unfolding cas_loop
  cas_loop_atomic [] ys dest e = (ground arith, ground arith)
  cas_loop_atomic (a ∷ xs) ys dest e = elim (Bool-cases (holds_newer dest e.timestamp)) [
    | inl held ↦ (ground arith, ground arith)
    | inr old ↦ elim (Bool-cases (a.spurious || replaces dest a.others)) [
      | inl failed ↦
          let (bound, rest) = cas_loop_atomic xs ys (merge_all dest a.others) e in
          (
            rw (old, failed) (omega (arith, bound)),
            rw (old, failed, merge_all-append dest a.others) rest,
          )
      | inr exchanged ↦
          (ground arith, ground (arith, replaces-false dest a.others, append-nil a.others))
    ]
  ]
