-- ===== src/Kv/Replica/Durable.antt =====
-- What a replica has stored survives a restart (kv/server/src/replica.cpp).
use mathlib.Core.Option.{some-injective}
use cs.Prelude.{
  length-map, ◌+◌, ℕ, ◌≡◌, ◌<◌, refl, sym, ap, ◌∙◌, Option, some, ◌⊎◌, List, [], ◌∷◌, ◌++◌, map,
  arith, append-nil, append_assoc, String, inl, inr, length, length-append, length-replicate, subst,
  get_elem?, get_elem?-lt, Option-cases,
}
use cs.Prelude.Outcome.{ok, ok-injective}
use cs.Kv.Messages.{TimeOps, Timestamp, DoWrite}
use cs.Kv.Replica.{Element, Replica, store_size, quiet, read, write, run_update, start}
use cs.Kv.Replica.Merge.{update, settle}
use cs.Kv.Replica.Order.{settle-settle}
use cs.Kv.Replica.Recovery.{
  Keys, strip, empty_store, drain, length-update, run_update-quiet, restarted, start-eq-restarted,
  start_settles, empty_slot, Keys-strip, settle-strip,
}

module _ ⦃tm : TimeOps⦄ where
  -- The states that a program with one thread goes through.
  pub data Reach : Replica → Type 0 where
    started : (log : List DoWrite) {r : Replica} → Keys log → start log ≡ ok r → Reach r
    wrote :
        {r r' : Replica} (key : ℕ) (content : String) (t : Timestamp)
        → Reach r
        → write r key content t ≡ ok r'
        → Reach r'
    updated : {r r' : Replica} → Reach r → run_update (quiet ∷ []) r ≡ some r' → Reach r'

  record Durable (r : Replica) : Type 0 where
    sized : length r.store ≡ store_size
    log_keys : Keys r.log
    queue_keys : Keys r.queued
    agrees : settle empty_store (r.log ++ r.queued) ≡ settle r.store r.queued

  settle-append :
      (store : List (Option Element)) (xs ys : List DoWrite)
      → settle store (xs ++ ys) ≡ settle (settle store xs) ys
  unfolding settle
  settle-append store [] ys = refl
  settle-append store (x ∷ xs) ys = settle-append (update store x) xs ys

  Keys-append : (xs ys : List DoWrite) → Keys xs → Keys ys → Keys (xs ++ ys)
  Keys-append [] ys h k = k
  Keys-append (x ∷ xs) ys h k = (h.0, Keys-append xs ys h.1 k)

  write_cases :
      (r r' : Replica) (key : ℕ) (content : String) (t : Timestamp)
      → write r key content t ≡ ok r'
      → (key < length r.store)
        × ((r' ≡ r)
            ⊎ (r' ≡ record r {
              queued =
                  r.queued ++ record { uuid = ""; key = key; timestamp = t; val = content } ∷ [];
            }))
  unfolding write read
  write_cases r r' key content t h = elim (Option-cases (get_elem? r.store key)) [
    | inl missing ↦ absurd (ground (arith, missing))
    | inr (slot, there) ↦ (get_elem?-lt r.store key slot there, ground (arith, there))
  ]

  queue-Durable :
      (r : Replica) (msg : DoWrite)
      → msg.key < store_size
      → Durable r
      → Durable (record r { queued = r.queued ++ msg ∷ [] })
  queue-Durable r msg h d = record {
    sized = d.sized;
    log_keys = d.log_keys;
    queue_keys = Keys-append r.queued (msg ∷ []) d.queue_keys (h, tt);
    agrees =
        ap (settle empty_store) (sym (append_assoc r.log r.queued (msg ∷ [])))
        ∙ settle-append empty_store (r.log ++ r.queued) (msg ∷ [])
        ∙ ap (λ s. settle s (msg ∷ [])) d.agrees
        ∙ sym (settle-append r.store r.queued (msg ∷ []));
  }

  write-Durable :
      (r r' : Replica) (key : ℕ) (content : String) (t : Timestamp)
      → write r key content t ≡ ok r'
      → Durable r
      → Durable r'
  write-Durable r r' key content t h d =
      let (inside, moved) = write_cases r r' key content t h in
      elim moved [
        | inl same ↦ subst Durable (sym same) d
        | inr queued ↦ subst Durable (sym queued) (
            queue-Durable r (record { uuid = ""; key = key; timestamp = t; val = content })
              (omega (arith, d.sized)) d)
      ]

  run-Durable :
      (store : List (Option Element)) (log queued : List DoWrite) (r' : Replica)
      → run_update (quiet ∷ []) (record { store = store; log = log; queued = queued }) ≡ some r'
      → Durable (record { store = store; log = log; queued = queued })
      → Durable r'
  unfolding run_update settle
  run-Durable store log [] r' h d = absurd (cc h)
  run-Durable store log (msg ∷ rest) r' h d =
      subst Durable
        (some-injective _ _
          (sym (run_update-quiet store log msg rest (omega (arith, d.sized, d.queue_keys.0))) ∙ h))
        (record {
          sized = length-update store msg ∙ d.sized;
          log_keys = Keys-append log (msg ∷ []) d.log_keys (d.queue_keys.0, tt);
          queue_keys = d.queue_keys.1;
          agrees = rw append_assoc d.agrees;
        })

  restarted-Durable : (log : List DoWrite) → Keys log → Durable (restarted log)
  restarted-Durable log keys = record {
    sized = length-replicate store_size empty_slot;
    log_keys = keys;
    queue_keys = Keys-strip log keys;
    agrees =
        settle-append empty_store log (map strip log)
        ∙ settle-strip (settle empty_store log) log
        ∙ settle-settle empty_store log
        ∙ sym (settle-strip empty_store log);
  }

  Reach-Durable : {r : Replica} → Reach r → Durable r
  Reach-Durable (started log {r = r} keys h) =
      subst Durable (ok-injective (sym (start-eq-restarted log keys) ∙ h))
        (restarted-Durable log keys)
  Reach-Durable (wrote {r = r} {r' = r'} key content t reach h) =
      write-Durable r r' key content t h (Reach-Durable reach)
  Reach-Durable (updated {r = r} {r' = r'} reach h) =
      run-Durable r.store r.log r.queued r' h (Reach-Durable reach)

  -- In every state that a replica reaches and in which no update waits, a start on its log ends,
  -- once its updates have run, with the same store and with a log of twice the length.
  pub restart_recovers :
      (r : Replica)
      → Reach r
      → r.queued ≡ []
      → (s : Replica) × (t : Replica) × (start r.log ≡ ok s)
        × (drain (length s.queued) s ≡ some t)
        × (t.store ≡ r.store)
        × (length t.log ≡ length r.log + length r.log)
  restart_recovers r reach idle =
      let d = Reach-Durable reach in
      let (s, begun, done) = start_settles r.log d.log_keys in
      (
        s,
        record { store = settle empty_store r.log; log = r.log ++ map strip r.log; queued = [] },
        begun,
        done,
        unfold settle in
            sym (ap (settle empty_store) (ap (◌++◌ r.log) idle ∙ append-nil r.log))
            ∙ d.agrees
            ∙ ap (settle r.store) idle,
        length-append r.log (map strip r.log) ∙ ap (◌+◌ (length r.log)) (length-map r.log strip),
      )
