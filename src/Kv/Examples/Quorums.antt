-- ===== src/Kv/Examples/Quorums.antt =====
-- A put that two of three servers keep.
use cs.Prelude.{arith, ◌≤◌, refl, some, List, [], ◌∷◌, length, All, false}
use cs.Prelude.Eq.{string_eq}
use cs.Prelude.Dict.{lookup, emplace}
use cs.Kv.Messages.{PutKey}
use cs.Kv.Messages.Order.{by_seconds}
use cs.Kv.Replica.{quiet, run_update, cas_loop}
use cs.Kv.Config.{hinted_handoff}
use cs.Kv.Coordinator.State.{Coordinator, accepted}
use cs.Kv.Coordinator.Client.{Draw, handle_put}
use cs.Kv.Coordinator.Server.{handle_do_write}
use cs.Kv.Coordinator.Events.{Event, run, update_runs}
use cs.Kv.Coordinator.Acks.{acks}
use cs.Kv.Coordinator.Quorum.{Peer, Holds, answered_put_held}
use cs.Kv.Examples.{value_or, at_second, server, old, newer}

abbrev draw : Draw
draw = record { uuid = "u1"; now = at_second 9 }

abbrev put_two : PutKey
put_two = record { stream = 4; key = 7; val = "x"; consistency = 2 }

abbrev asked : Coordinator
asked = server hinted_handoff (some old)

abbrev after_put : Coordinator
unfolding handle_put
after_put = value_or asked (handle_put draw put_two 20 asked)

abbrev after_ack : Coordinator
unfolding acks handle_put lookup
after_ack = value_or after_put (acks "u1" (1 ∷ []) after_put)

abbrev one_update : List Event
one_update = update_runs (record { others = old ∷ []; spurious = false } ∷ quiet ∷ []) ∷ []

abbrev asked_later : Coordinator
unfolding run acks handle_put lookup run_update cas_loop
asked_later = value_or after_ack (run one_update after_ack)

abbrev other : Coordinator
other = server hinted_handoff (some newer)

abbrev other_after : Coordinator
unfolding handle_do_write
other_after = value_or other (
    handle_do_write (record { uuid = "u1"; key = 7; timestamp = at_second 9; val = "x" })
      (accepted 3) 0 other)

abbrev other_later : Coordinator
unfolding run handle_do_write run_update cas_loop
other_later = value_or other_after (run one_update other_after)

abbrev peers : List Peer
peers =
    record {
      id = 1;
      link = accepted 3;
      from = 0;
      before = other;
      after = other_after;
      final = other_later;
      later = one_update;
    }
    ∷ []

answered_put_held_example :
    (2 ≤ length (asked_later ∷ other_later ∷ []))
    × All (Holds 7 (at_second 9)) (asked_later ∷ other_later ∷ [])
unfolding run acks handle_put handle_do_write lookup emplace run_update cas_loop
answered_put_held_example =
    answered_put_held draw put_two 20 asked after_put after_ack asked_later peers one_update refl
      refl (omega arith) (omega arith) (record { took = refl; ran = refl; idle = refl }, tt) refl
      refl refl refl
