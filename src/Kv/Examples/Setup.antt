-- ===== src/Kv/Examples/Setup.antt =====
-- A server that starts, is told who connects, and is sent a write.
use cs.Prelude.{◌<◌, ◌≡◌, refl, none, List, [], ◌∷◌}
use cs.Prelude.Eq.{string_eq, nat_eq}
use cs.Prelude.Dict.{lookup, put}
use cs.Prelude.Outcome.{ok}
use cs.Kv.Messages.{DoWrite, intro, do_write, write_complete, HintMessage, add_hint}
use cs.Kv.Messages.Order.{by_seconds}
use cs.Kv.Config.{hinted_handoff}
use cs.Kv.Replica.{Replica, write}
use cs.Kv.Replica
use cs.Kv.Coordinator.State.{Coordinator, outgoing, to_server, send}
use cs.Kv.Coordinator.Server.{accepted_msg, find_replica, initialize_outgoing}
use cs.Kv.Coordinator.Hints.{load_hints}
use cs.Kv.Coordinator.Events.{Event, run, on_accepted}
use cs.Kv.Coordinator.Wired.{new, start}
use cs.Kv.Coordinator.Wired.Answered.{write_acknowledged}
use cs.Kv.Examples.{value_or, at_second, config, server, holding}

abbrev hint_log : List HintMessage
hint_log = add_hint 1 7 ∷ []

abbrev built : Coordinator
unfolding new Replica.start
built = value_or (server hinted_handoff none) (new (config hinted_handoff) [] hint_log)

abbrev started : Coordinator
unfolding start load_hints initialize_outgoing new Replica.start
started = value_or built (start built)

abbrev greeting : List Event
greeting = on_accepted (intro "10.0.0.2" 9000) 5 ∷ []

abbrev greeted : Coordinator
unfolding run start load_hints initialize_outgoing new Replica.start put find_replica lookup
greeted = value_or started (run greeting started)

abbrev sent_write : DoWrite
sent_write = record { uuid = "u9"; key = 7; timestamp = at_second 6; val = "theirs" }

abbrev taken : Replica
unfolding write run start load_hints initialize_outgoing new Replica.start put find_replica lookup
taken = value_or (holding none) (write greeted.replica 7 "theirs" (at_second 6))

write_acknowledged_example :
    (1 < 3)
    × (accepted_msg (do_write sent_write) 5 greeted
        ≡ ok (
            send
              (to_server (outgoing 1) (write_complete "u9"))
              (record greeted { replica = taken })))
unfolding write run start load_hints initialize_outgoing new Replica.start put find_replica lookup
write_acknowledged_example =
    write_acknowledged (config hinted_handoff) [] hint_log built started greeted greeting sent_write
      5 1 taken refl refl refl refl refl refl
