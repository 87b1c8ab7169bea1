-- ===== src/Kv/Replica/Recovery.antt =====
-- A replica that starts again on its log (kv/server/src/replica.cpp, kv/server/include/log.hpp).
use cs.Prelude.{
  ℕ, zero, suc, ◌<◌, ◌≡◌, refl, ◌∙◌, Option, none, some, List, [], ◌∷◌, ◌++◌, map, arith,
  append-nil, append_assoc, inl, inr, length, length-set, length-replicate, replicate, get_elem?,
  get_elem?-some, Option-cases,
}
use cs.Prelude.Outcome.{ok}
use cs.Kv.Messages.{TimeOps, DoWrite}
use cs.Kv.Replica.{
  Element, merge, element_of, Replica, store_size, init, quiet, read, cas_loop, run_update,
  replay_handler, replay, start,
}
use cs.Kv.Replica.Merge.{update, settle}

abbrev pub Keys : List DoWrite → Type 0
Keys [] = Unit {0}
Keys (msg ∷ msgs) = (msg.key < store_size) × Keys msgs

-- A replayed record is written again without its uuid.
abbrev pub strip : DoWrite → DoWrite
strip msg = record msg { uuid = "" }

abbrev pub empty_store : List (Option Element)
empty_store = replicate store_size none

module _ ⦃tm : TimeOps⦄ where
  -- The strand runs n queued updates; no other thread touches the store.
  unfoldable pub drain : ℕ → Replica → Option Replica
  drain zero r = some r
  drain (suc n) r = elim (run_update (quiet ∷ []) r) [ none ↦ none | some r' ↦ drain n r' ]

  pub length-update :
      (store : List (Option Element)) (msg : DoWrite) → length (update store msg) ≡ length store
  length-update store msg = elim (Option-cases (get_elem? store msg.key)) [
    | inl missing ↦ ground (arith, missing)
    | inr (slot, there) ↦
        ground (arith, there, length-set store msg.key (merge slot (element_of msg)))
  ]

  pub run_update-quiet :
      (store : List (Option Element)) (log : List DoWrite) (msg : DoWrite) (rest : List DoWrite)
      → msg.key < length store
      → run_update (quiet ∷ []) (record { store = store; log = log; queued = msg ∷ rest })
        ≡ some (record { store = update store msg; log = log ++ msg ∷ []; queued = rest })
  unfolding run_update cas_loop
  run_update-quiet store log msg rest h =
      let (slot, there) = get_elem?-some store msg.key h in ground (arith, there)

  pub drain_all :
      (store : List (Option Element)) (log msgs : List DoWrite)
      → length store ≡ store_size
      → Keys msgs
      → drain (length msgs) (record { store = store; log = log; queued = msgs })
        ≡ some (record { store = settle store msgs; log = log ++ msgs; queued = [] })
  unfolding drain settle
  drain_all store log [] sized keys = rw append-nil
  drain_all store log (msg ∷ msgs) sized keys =
      rw (run_update-quiet store log msg msgs (omega arith), drain)
        (drain_all (update store msg) (log ++ msg ∷ []) msgs (length-update store msg ∙ sized)
            keys.1
          ∙ rw append_assoc)

  -- No slot of the store holds a value yet.
  abbrev Blank : List (Option Element) → Type 0
  Blank store = (k : ℕ) → k < store_size → get_elem? store k ≡ some none

  write-Blank :
      (store : List (Option Element)) (log queue : List DoWrite) (msg : DoWrite)
      → get_elem? store msg.key ≡ some none
      → replay_handler (record { store = store; log = log; queued = queue }) msg
        ≡ ok (record { store = store; log = log; queued = queue ++ strip msg ∷ [] })
  unfolding replay_handler read
  write-Blank store log queue msg h = ground (arith, h)

  replay-Blank :
      (store : List (Option Element)) (log queue msgs : List DoWrite)
      → Blank store
      → Keys msgs
      → replay msgs (record { store = store; log = log; queued = queue })
        ≡ ok (record { store = store; log = log; queued = queue ++ map strip msgs })
  unfolding replay
  replay-Blank store log queue [] blank keys = rw append-nil
  replay-Blank store log queue (msg ∷ msgs) blank keys =
      rw (write-Blank store log queue msg (blank msg.key keys.0))
        (replay-Blank store log (queue ++ strip msg ∷ []) msgs blank keys.1 ∙ rw append_assoc)

  pub settle-strip :
      (store : List (Option Element)) (msgs : List DoWrite)
      → settle store (map strip msgs) ≡ settle store msgs
  unfolding settle
  settle-strip store [] = refl
  settle-strip store (msg ∷ msgs) = settle-strip (update store msg) msgs

  pub Keys-strip : (msgs : List DoWrite) → Keys msgs → Keys (map strip msgs)
  Keys-strip [] h = tt
  Keys-strip (msg ∷ msgs) h = (h.0, Keys-strip msgs h.1)

abbrev pub empty_slot : Option Element
empty_slot = none

get_elem?-blank : (n k : ℕ) → k < n → get_elem? (replicate n empty_slot) k ≡ some none
get_elem?-blank zero k h = elim h [ ]
get_elem?-blank (suc n) zero h = refl
get_elem?-blank (suc n) (suc k) h = get_elem?-blank n k (omega arith)

module _ ⦃tm : TimeOps⦄ where
  abbrev pub restarted : List DoWrite → Replica
  restarted log = record { store = empty_store; log = log; queued = map strip log }

  pub start-eq-restarted : (log : List DoWrite) → Keys log → start log ≡ ok (restarted log)
  unfolding start init
  start-eq-restarted log keys =
      replay-Blank empty_store log [] log (get_elem?-blank store_size) keys

  -- A start on a log whose keys are all keys of the store, below 256, is defined, and once the strand
  -- has run what the replay queued it has the store that the records leave in their order, and a log
  -- that holds every record twice.
  pub start_settles :
      (log : List DoWrite)
      → Keys log
      → (r : Replica) × (start log ≡ ok r)
        × (drain (length r.queued) r
            ≡ some (record {
              store = settle empty_store log;
              log = log ++ map strip log;
              queued = [];
            }))
  start_settles log keys = (
    restarted log,
    start-eq-restarted log keys,
    drain_all empty_store log (map strip log) (length-replicate store_size empty_slot)
          (Keys-strip log keys)
        ∙ rw (settle-strip empty_store log),
  )
