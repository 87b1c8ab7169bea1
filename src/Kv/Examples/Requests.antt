-- ===== src/Kv/Examples/Requests.antt =====
-- Requests of clients to one of three servers.
use cs.Prelude.{arith, ◌+◌, ◌%◌, ◌^◌, ◌<◌, ℕ, ◌≡◌, refl, String, some, List, [], ◌∷◌, true, false}
use cs.Prelude.Eq.{string_eq}
use cs.Prelude.Dict.{lookup, emplace}
use cs.Prelude.Outcome.{ok}
use cs.Kv.Messages.{
  Timestamp, PutKey, GetKey, put_key, get_key_resp, put_key_resp, read_repair_response,
  write_complete,
}
use cs.Kv.Messages.Order.{by_seconds}
use cs.Kv.Replica.{Element, quiet, read, run_update, cas_loop}
use cs.Kv.Config.{hinted_handoff}
use cs.Kv.Coordinator.State.{Coordinator, to_all_unchecked}
use cs.Kv.Coordinator.Client.{Draw, handle_put, handle_get}
use cs.Kv.Coordinator.Hints.{no_hints, load_hints, hint_at}
use cs.Kv.Coordinator.Tally.{adds, drops}
use cs.Kv.Coordinator.Events.{Event, run, from_client, on_outgoing, hint_runs, update_runs}
use cs.Kv.Coordinator.Acks.{acks, replies, put_answered_once}
use cs.Kv.Coordinator.Reads.{completions, get_answered_locally}
use cs.Kv.Coordinator.Recount.{hints_recovered}
use cs.Kv.Coordinator.Kept.{puts, acknowledged_kept}
use cs.Kv.Examples.{value_or, at_second, server, old}

abbrev draw : Draw
draw = record { uuid = "u1"; now = at_second 9 }

abbrev put_two : PutKey
put_two = record { stream = 4; key = 7; val = "x"; consistency = 2 }

abbrev start : Coordinator
start = server hinted_handoff (some old)

abbrev after_put : Coordinator
unfolding handle_put
after_put = value_or start (handle_put draw put_two 20 start)

put_answered_once_example :
    (t : Coordinator) × (acks "u1" (0 ∷ 2 ∷ 1 ∷ []) after_put ≡ ok t)
    × (replies t.sent ≡ (20, put_key_resp 4 7) ∷ [])
unfolding handle_put lookup
put_answered_once_example =
    put_answered_once draw put_two 20 start after_put (0 ∷ 2 ∷ 1 ∷ []) refl refl (omega arith)
      (omega arith)

abbrev get_two : GetKey
get_two = record { stream = 5; key = 7; consistency = 2 }

abbrev after_get : Coordinator
unfolding handle_get to_all_unchecked
after_get = value_or start (handle_get draw get_two 20 start)

abbrev answers : List (Timestamp × String × ℕ)
answers = (at_second 8, "theirs", 1) ∷ []

get_answered_locally_example :
    (t : Coordinator) × (completions "u1" answers after_get ≡ ok t)
    × (replies t.sent ≡ (20, get_key_resp 5 7 "old") ∷ [])
unfolding handle_get lookup to_all_unchecked
get_answered_locally_example =
    get_answered_locally draw get_two 20 start after_get (some old) answers refl refl refl
      (λ e. omega arith) (omega arith) (omega arith)

abbrev events : List Event
events =
    from_client draw (put_key put_two) 20
    ∷ hint_runs
    ∷ hint_runs
    ∷ on_outgoing (write_complete "u1") 1
    ∷ hint_runs
    ∷ hint_runs
    ∷ []

abbrev after_events : Coordinator
unfolding run
after_events = value_or start (run events start)

hints_recovered_example :
    (load_hints (record after_events { hints = no_hints }) ≡ ok after_events)
    × (n : ℕ) × (hint_at after_events.hints 1 7 ≡ ok n)
    × (n < 2 ^ 64)
    × ((n + drops 1 7 after_events.hint_log) % 2 ^ 64 ≡ adds 1 7 after_events.hint_log % 2 ^ 64)
unfolding load_hints run lookup emplace
hints_recovered_example =
    hints_recovered start start after_events events 1 7 refl refl refl refl (omega arith)
      (omega arith)

abbrev later : List Event
later =
    from_client (record { uuid = "u2"; now = at_second 4 }) (put_key put_two) 21
    ∷ update_runs (record { others = old ∷ []; spurious = false } ∷ quiet ∷ [])
    ∷ on_outgoing (read_repair_response 7 (at_second 6) "stale") 1
    ∷ update_runs (quiet ∷ [])
    ∷ []

abbrev after_later : Coordinator
unfolding run handle_put cas_loop run_update
after_later = value_or after_put (run later after_put)

acknowledged_kept_example :
    (e : Element) × (read after_later.replica 7 ≡ ok (some e))
    × (by_seconds.not_after (at_second 9) e.timestamp ≡ true)
unfolding run handle_put cas_loop run_update
acknowledged_kept_example =
    acknowledged_kept start after_put after_later 7 (at_second 9) later (puts draw put_two 20 refl)
      refl refl
