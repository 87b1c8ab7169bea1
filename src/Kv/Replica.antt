-- ===== src/Kv/Replica.antt =====
-- kv/server/include/replica.hpp and kv/server/src/replica.cpp: the local copy of the store, its
-- log, and the updates that wait on the log's strand.
pub mod Merge
pub mod Order
pub mod Recovery
pub mod Durable
pub mod Atomic
pub mod Kept
use cs.Prelude.{
  ℕ, String, Bool, true, false, ◌||◌, Option, none, some, List, [], ◌∷◌, ◌++◌, get_elem?, set,
  replicate, if◌then◌else◌,
}
use cs.Prelude.Outcome.{Outcome, ok, undefined, or_fault, ◌>>=◌}
use cs.Kv.Messages.{Timestamp, TimeOps, DoWrite}

-- `storage_element`
pub record Element : Type 0 where
  pub content : String
  pub timestamp : Timestamp

-- `log` is the content of the log file, oldest record first, and `queued` holds the
-- `write_update` calls that its strand has still to run.
pub record Replica : Type 0 where
  pub store : List (Option Element)
  pub log : List DoWrite
  pub queued : List DoWrite

-- `std::array<std::shared_ptr<storage_element>, 256>`
abbrev pub store_size : ℕ
store_size = 256

unfoldable pub init : List DoWrite → Replica
init log = record { store = replicate store_size none; log = log; queued = [] }

abbrev pub element_of : DoWrite → Element
element_of msg = record { content = msg.val; timestamp = msg.timestamp }

-- One round of the update's loop as its thread meets it: the updates of other threads that reach
-- the slot between the load and the exchange, and whether the exchange fails without a reason.
pub record Attempt : Type 0 where
  pub others : List Element
  pub spurious : Bool

abbrev pub quiet : Attempt
quiet = record { others = []; spurious = false }

-- `m_store[key]` is not checked.
unfoldable pub read : Replica → ℕ → Outcome (Option Element)
read r key = or_fault (get_elem? r.store key) undefined

module _ ⦃tm : TimeOps⦄ where
  -- `current && timestamp <= current->timestamp`
  abbrev pub holds_newer : Option Element → Timestamp → Bool
  holds_newer none timestamp = false
  holds_newer (some current) timestamp = tm.not_after timestamp current.timestamp

  unfoldable pub write : Replica → ℕ → String → Timestamp → Outcome Replica
  unfolding read
  write r key content timestamp = do
    current ← read r key
    if holds_newer current timestamp
        then ok r
        else ok (record r {
          queued =
              r.queued
              ++ record { uuid = ""; key = key; timestamp = timestamp; val = content } ∷ [];
        })

  -- An update that runs alone.
  abbrev pub merge : Option Element → Element → Option Element
  merge slot e = if holds_newer slot e.timestamp then slot else some e

  unfoldable pub merge_all : Option Element → List Element → Option Element
  merge_all slot [] = slot
  merge_all slot (e ∷ es) = merge_all (merge slot e) es

  -- Whether one of the updates exchanges the slot's pointer.
  unfoldable pub replaces : Option Element → List Element → Bool
  replaces slot [] = false
  replaces slot (e ∷ es) = if holds_newer slot e.timestamp then replaces slot es else true

  -- The loop of the completion handler in `Replica::write`, from a load of `dest` on: the slot as
  -- the loop leaves it, or `none` where it still runs after these rounds. A failed exchange loads
  -- the slot's content into `dest`.
  unfoldable pub cas_loop : List Attempt → Option Element → Element → Option (Option Element)
  unfolding merge_all replaces
  cas_loop [] dest e = if holds_newer dest e.timestamp then some dest else none
  cas_loop (a ∷ attempts) dest e =
      let again = cas_loop attempts (merge_all dest a.others) e in
      if holds_newer dest e.timestamp
      then some dest
      else if a.spurious || replaces dest a.others
      then again
      else some (some e)

  -- The strand runs the oldest queued `write_update`: it appends to the file, then the handler
  -- updates the slot. `none` where nothing is queued, or the loop still runs.
  unfoldable pub run_update : List Attempt → Replica → Option Replica
  run_update attempts r = elim r.queued [
    | [] ↦ none
    | msg ∷ rest ↦ elim (get_elem? r.store msg.key) [
      | none ↦ none
      | some slot ↦ elim (cas_loop attempts slot (element_of msg)) [
        | none ↦ none
        | some slot' ↦
            some
              (record { store = set r.store msg.key slot'; log = r.log ++ msg ∷ []; queued = rest })
      ]
    ]
  ]

  unfoldable pub replay_handler : Replica → DoWrite → Outcome Replica
  unfolding write
  replay_handler r msg = write r msg.key msg.val msg.timestamp

  -- The constructor replays the file's records as they stand when the replay starts.
  unfoldable pub replay : List DoWrite → Replica → Outcome Replica
  unfolding replay_handler
  replay [] r = ok r
  replay (msg ∷ log) r = do r' ← replay_handler r msg; replay log r'

  unfoldable pub start : List DoWrite → Outcome Replica
  unfolding init replay
  start log = replay log (init log)
