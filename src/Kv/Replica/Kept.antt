-- ===== src/Kv/Replica/Kept.antt =====
-- An update that a replica has taken stays (kv/server/src/replica.cpp): no later one, of whatever
-- thread, puts an older element in its place.
use cs.Prelude.{
  ℕ, ◌≡◌, refl, ap, ◌∙◌, sym, String, Bool, true, false, ◌||◌, ◌&&◌, ◌==◌, Option, none, some, List,
  [], ◌∷◌, ◌++◌, arith, get_elem?, set, Option-cases, Bool-cases, inl, inr, get_elem?-set_self,
  get_elem?-set_ne, get_elem?-lt,
}
use mathlib.Core.Option.{some-injective}
use cs.Prelude.Outcome.{ok, ok-injective, >>=-eq-ok}
use cs.Kv.Messages.{Timestamp, TimeOps, DoWrite}
use cs.Kv.Messages.Order.{not_after_refl, not_after_total, not_after_trans}
use cs.Kv.Replica.{
  Element, Replica, Attempt, element_of, read, holds_newer, write, merge, merge_all, replaces,
  cas_loop, run_update,
}

module _ ⦃tm : TimeOps⦄ where
  -- The slot of the key has an element that is not older.
  abbrev pub slot_newer : ℕ → Timestamp → List (Option Element) → Bool
  slot_newer key time store = elim (get_elem? store key) [
    | none ↦ false
    | some slot ↦ holds_newer slot time
  ]

  abbrev pub waits : ℕ → Timestamp → List DoWrite → Bool
  waits key time [] = false
  waits key time (msg ∷ msgs) =
      (msg.key == key && tm.not_after time msg.timestamp) || waits key time msgs

  -- The store has such an element, or an update with one waits on the strand of the log.
  abbrev pub keeps : ℕ → Timestamp → Replica → Bool
  keeps key time r = slot_newer key time r.store || waits key time r.queued

  waits-append :
      (key : ℕ) (time : Timestamp) (xs ys : List DoWrite)
      → waits key time (xs ++ ys) ≡ (waits key time xs || waits key time ys)
  waits-append key time [] ys = refl
  waits-append key time (x ∷ xs) ys = ground (arith, waits-append key time xs ys)

  -- A slot that is not older than one time is not older than an earlier one.
  holds_earlier :
      (slot : Option Element) (s t : Timestamp)
      → holds_newer slot t ≡ true
      → tm.not_after s t ≡ true
      → holds_newer slot s ≡ true
  holds_earlier none s t h k = h
  holds_earlier (some e) s t h k = not_after_trans s t e.timestamp k h

  -- An element that is newer than the slot has all that the slot had.
  replaced_newer :
      (slot : Option Element) (e : Element) (t : Timestamp)
      → holds_newer slot e.timestamp ≡ false
      → holds_newer slot t ≡ true
      → holds_newer (some e) t ≡ true
  replaced_newer none e t old h = absurd (cc h)
  replaced_newer (some d) e t old h =
      not_after_trans t d.timestamp e.timestamp h (not_after_total e.timestamp d.timestamp old)

  merge_newer :
      (slot : Option Element) (e : Element) (t : Timestamp)
      → holds_newer slot t ≡ true
      → holds_newer (merge slot e) t ≡ true
  merge_newer slot e t h = elim (Bool-cases (holds_newer slot e.timestamp)) [
    | inl held ↦ rw held h
    | inr old ↦ rw old (replaced_newer slot e t old h)
  ]

  merge_all_newer :
      (slot : Option Element) (es : List Element) (t : Timestamp)
      → holds_newer slot t ≡ true
      → holds_newer (merge_all slot es) t ≡ true
  unfolding merge_all
  merge_all_newer slot [] t h = h
  merge_all_newer slot (e ∷ es) t h = merge_all_newer (merge slot e) es t (merge_newer slot e t h)

  cas_loop_newer :
      (attempts : List Attempt) (dest slot' : Option Element) (e : Element)
      → cas_loop attempts dest e ≡ some slot'
      → (holds_newer slot' e.timestamp ≡ true)
        × ((t : Timestamp) → holds_newer dest t ≡ true → holds_newer slot' t ≡ true)
  unfolding cas_loop
  cas_loop_newer [] dest slot' e h = elim (Bool-cases (holds_newer dest e.timestamp)) [
    | inl held ↦
        let same = some-injective _ _ (rw (held, cas_loop) at h) in
        (rw (← same) held, λ t k. rw (← same) k)
    | inr old ↦ absurd (cc (rw (old, cas_loop) at h))
  ]
  cas_loop_newer (a ∷ attempts) dest slot' e h = elim (Bool-cases (holds_newer dest e.timestamp)) [
    | inl held ↦
        let same = some-injective _ _ (rw (held, cas_loop) at h) in
        (rw (← same) held, λ t k. rw (← same) k)
    | inr old ↦ elim (Bool-cases (a.spurious || replaces dest a.others)) [
      | inl failed ↦
          let (mine, more) =
            cas_loop_newer attempts (merge_all dest a.others) slot' e
              (rw (old, failed, cas_loop) at h) in
          (mine, λ t k. more t (merge_all_newer dest a.others t k))
      | inr exchanged ↦
          let same = some-injective _ _ (rw (old, exchanged, cas_loop) at h) in
          (
            rw (← same) (not_after_refl e.timestamp),
            λ t k. rw (← same) (replaced_newer dest e t old k),
          )
    ]
  ]

  -- A write keeps what was kept, and it keeps what it writes.
  pub write-keeps :
      (r r' : Replica) (key k : ℕ) (content : String) (time t : Timestamp)
      → write r k content t ≡ ok r'
      → keeps key time r ≡ true
      → keeps key time r' ≡ true
  unfolding write
  write-keeps r r' key k content time t h kept =
      let (current, found, h₁) = >>=-eq-ok (read r k) _ h in
      elim (Bool-cases (holds_newer current t)) [
        | inl held ↦ rw (← ok-injective (rw held at h₁)) kept
        | inr old ↦
            let same = ok-injective (rw old at h₁) in
            ground (
              arith,
              ap (λ (q : Replica). q.store) same,
              ap (λ (q : Replica). q.queued) same,
              kept,
              waits-append key time r.queued
                  (record { uuid = ""; key = k; timestamp = t; val = content } ∷ []),
            )
      ]

  pub write-keeps_own :
      (r r' : Replica) (key : ℕ) (content : String) (time : Timestamp)
      → write r key content time ≡ ok r'
      → keeps key time r' ≡ true
  unfolding write read
  write-keeps_own r r' key content time h =
      let (current, found, h₁) = >>=-eq-ok (read r key) _ h in
      elim (Bool-cases (holds_newer current time)) [
        | inl held ↦ rw (← ok-injective (rw held at h₁)) (ground (arith, found, held))
        | inr old ↦
            let msg : DoWrite = record { uuid = ""; key = key; timestamp = time; val = content } in
            rw (← ok-injective (rw old at h₁))
              (ground (arith, waits-append key time r.queued (msg ∷ []), not_after_refl time))
      ]

  slot_keeps :
      (key : ℕ) (time : Timestamp) (store : List (Option Element)) (slot slot' : Option Element)
      (msg : DoWrite) (rest : List DoWrite)
      → get_elem? store msg.key ≡ some slot
      → holds_newer slot' msg.timestamp ≡ true
      → ((t : Timestamp) → holds_newer slot t ≡ true → holds_newer slot' t ≡ true)
      → (slot_newer key time store || waits key time (msg ∷ rest)) ≡ true
      → (slot_newer key time (set store msg.key slot') || waits key time rest) ≡ true
  slot_keeps key time store slot slot' msg rest there mine more kept =
      elim (Bool-cases (msg.key == key)) [
        | inr other ↦
            let apart = get_elem?-set_ne store msg.key key slot' (λ e. ground (arith, other, e)) in
            ground (arith, apart, other, kept)
        | inl same ↦
            let e : msg.key ≡ key = ground (arith, same) in
            let now =
              get_elem?-set_self store msg.key slot' (get_elem?-lt store msg.key slot there) in
            let at_key : get_elem? (set store msg.key slot') key ≡ some slot' =
              ap (get_elem? (set store msg.key slot')) (sym e) ∙ now in
            let before : get_elem? store key ≡ some slot = ap (get_elem? store) (sym e) ∙ there in
            ground (
              arith,
              at_key,
              before,
              same,
              kept,
              more time,
              holds_earlier slot' time msg.timestamp mine,
            )
      ]

  -- So does an update that runs, whatever other threads do meanwhile.
  pub run_update-keeps :
      (attempts : List Attempt) (r r' : Replica) (key : ℕ) (time : Timestamp)
      (queued : List DoWrite)
      → r.queued ≡ queued
      → run_update attempts r ≡ some r'
      → keeps key time r ≡ true
      → keeps key time r' ≡ true
  unfolding run_update
  run_update-keeps attempts r r' key time [] q h kept = absurd (cc (rw (q, run_update) at h))
  run_update-keeps attempts r r' key time (msg ∷ rest) q h kept =
      elim (Option-cases (get_elem? r.store msg.key)) [
        | inl missing ↦ absurd (cc (rw (q, missing, run_update) at h))
        | inr (slot, there) ↦ elim (Option-cases (cas_loop attempts slot (element_of msg))) [
          | inl runs ↦ absurd (cc (rw (q, there, runs, run_update) at h))
          | inr (slot', ends) ↦
              let (mine, more) = cas_loop_newer attempts slot slot' (element_of msg) ends in
              let same = some-injective _ _ (rw (q, there, ends, run_update) at h) in
              rw (← same)
                (slot_keeps key time r.store slot slot' msg rest there mine more (rw q at kept))
        ]
      ]

  -- Once no update waits, what is kept is read.
  pub keeps-read :
      (r : Replica) (key : ℕ) (time : Timestamp)
      → r.queued ≡ []
      → keeps key time r ≡ true
      → (e : Element) × (read r key ≡ ok (some e)) × (tm.not_after time e.timestamp ≡ true)
  unfolding read
  keeps-read r key time idle kept = elim (Option-cases (get_elem? r.store key)) [
    | inl missing ↦ absurd (ground (arith, missing, idle, kept))
    | inr (none, there) ↦ absurd (ground (arith, there, idle, kept))
    | inr (some e, there) ↦ (e, rw there refl, ground (arith, there, idle, kept))
  ]
