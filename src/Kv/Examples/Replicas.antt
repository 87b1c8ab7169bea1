-- ===== src/Kv/Examples/Replicas.antt =====
-- Updates of a replica, their races, and a restart.
use mathlib.Core.List.{Permᴰ}
use cs.Prelude.{
  arith, if◌then◌else◌, ◌==◌, ℕ, ◌≡◌, refl, ◌≤◌, String, some, none, List, [], ◌∷◌, ◌++◌, length,
  false, true,
}
use cs.Prelude.Outcome.{ok}
use cs.Kv.Messages.{Timestamp, DoWrite}
use cs.Kv.Messages.Order.{by_seconds}
use cs.Kv.Replica.{
  Attempt, Replica, quiet, merge, merge_all, replaces, cas_loop, start, write, run_update,
}
use cs.Kv.Replica.Merge.{settle}
use cs.Kv.Replica.Order.{settle-perm, settle-settle}
use cs.Kv.Replica.Atomic.{exchanges, cas_loop_atomic}
use cs.Kv.Replica.Recovery.{empty_store, strip, drain, start_settles}
use cs.Kv.Replica.Durable.{Reach, started, wrote, updated, restart_recovers}
use cs.Kv.Examples.{value_or, at_second, old, newer, holding}

abbrev race : List Attempt
race = record { others = old ∷ []; spurious = false } ∷ record { others = []; spurious = true } ∷ []

cas_loop_atomic_example :
    (exchanges (race ++ quiet ∷ []) none newer ≤ 3)
    × (cas_loop (race ++ quiet ∷ []) none newer ≡ some (merge (merge_all none (old ∷ [])) newer))
unfolding replaces merge_all
cas_loop_atomic_example = cas_loop_atomic race [] none newer

abbrev first : DoWrite
first = record { uuid = "a"; key = 7; timestamp = at_second 3; val = "old" }

abbrev second : DoWrite
second = record { uuid = "b"; key = 7; timestamp = at_second 5; val = "new" }

abbrev value_of : ℕ → Timestamp → String
value_of key t = if t.seconds == 3 then "old" else "new"

settle-perm_example :
    settle empty_store (first ∷ second ∷ []) ≡ settle empty_store (second ∷ first ∷ [])
settle-perm_example =
    settle-perm value_of empty_store (first ∷ second ∷ []) (second ∷ first ∷ [])
      ∣ Permᴰ.swap refl refl ∣₁ (refl, (refl, tt))

settle-settle_example :
    settle (settle (holding (some old)).store (second ∷ first ∷ [])) (second ∷ first ∷ [])
    ≡ settle (holding (some old)).store (second ∷ first ∷ [])
settle-settle_example = settle-settle (holding (some old)).store (second ∷ first ∷ [])

start_settles_example :
    (r : Replica) × (start (second ∷ first ∷ []) ≡ ok r)
    × (drain (length r.queued) r
        ≡ some (record {
          store = settle empty_store (second ∷ first ∷ []);
          log = (second ∷ first ∷ []) ++ strip second ∷ strip first ∷ [];
          queued = [];
        }))
start_settles_example = start_settles (second ∷ first ∷ []) (omega arith, (omega arith, tt))

abbrev new_replica : Replica
unfolding start
new_replica = value_or (holding none) (start [])

abbrev written : Replica
unfolding start write
written = value_or new_replica (write new_replica 7 "new" (at_second 5))

abbrev updated_replica : Replica
unfolding start write run_update cas_loop
updated_replica = elim (run_update (quiet ∷ []) written) [ none ↦ written | some r ↦ r ]

updated-Reach : Reach updated_replica
unfolding start write run_update cas_loop
updated-Reach =
    updated {r = written} (wrote {r = new_replica} 7 "new" (at_second 5) (started [] tt refl) refl)
      refl

restart_recovers_example :
    (s : Replica) × (t : Replica) × (start updated_replica.log ≡ ok s)
    × (drain (length s.queued) s ≡ some t)
    × (t.store ≡ updated_replica.store)
    × (length t.log ≡ 2)
unfolding start write run_update cas_loop
restart_recovers_example = restart_recovers updated_replica updated-Reach refl
