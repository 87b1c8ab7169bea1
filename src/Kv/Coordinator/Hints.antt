-- ===== src/Kv/Coordinator/Hints.antt =====
-- The hint counters of kv/server/src/coordinator.cpp: their log, its strand and its replay. A
-- counter, an `atomic_int_fast32_t` of 64 bits, is its bit pattern.
use cs.Prelude.{
  ℕ, zero, suc, ◌+◌, ◌-◌, ◌%◌, ◌^◌, List, [], ◌∷◌, ◌++◌, get_elem?, set, replicate, if◌then◌else◌,
}
use cs.Prelude.Outcome.{Outcome, ok, undefined, or_fault, ◌>>=◌}
use cs.Kv.Messages.{HintMessage, add_hint, drop_hint}
use cs.Kv.Coordinator.State.{Coordinator, HintTask, added, dropped, is_hinted_handoff}

abbrev pub increment : ℕ → ℕ
increment n = (n + 1) % 2 ^ 64

abbrev pub decrement : ℕ → ℕ
decrement n = (n + 2 ^ 64 - 1) % 2 ^ 64

abbrev pub no_hints : List (List ℕ)
no_hints = replicate 3 (replicate 256 0)

-- `m_hints[replica][key]` is not checked.
unfoldable pub hint_at : List (List ℕ) → ℕ → ℕ → Outcome ℕ
hint_at hints replica key = do
  row ← or_fault (get_elem? hints replica) undefined
  or_fault (get_elem? row key) undefined

unfoldable pub change_hint : (ℕ → ℕ) → ℕ → ℕ → List (List ℕ) → Outcome (List (List ℕ))
change_hint f replica key hints = do
  row ← or_fault (get_elem? hints replica) undefined
  count ← or_fault (get_elem? row key) undefined
  ok (set hints replica (set row key (f count)))

-- The handler of `start`, for a record that is read.
unfoldable pub apply_hint : HintMessage → List (List ℕ) → Outcome (List (List ℕ))
unfolding change_hint
apply_hint (add_hint replica key) hints = change_hint increment replica key hints
apply_hint (drop_hint replica key) hints = change_hint decrement replica key hints
apply_hint HintMessage.unset hints = ok hints

unfoldable pub replay_hints : List HintMessage → List (List ℕ) → Outcome (List (List ℕ))
unfolding apply_hint
replay_hints [] hints = ok hints
replay_hints (msg ∷ log) hints = do hints' ← apply_hint msg hints; replay_hints log hints'

-- `start`, as far as the hints go: only in the mode that uses them.
unfoldable pub load_hints : Coordinator → Outcome Coordinator
unfolding replay_hints
load_hints s =
    if is_hinted_handoff s.config.mode
    then (do hints ← replay_hints s.hint_log s.hints; ok (record s { hints = hints }))
    else ok s

-- The record that a task writes, and the completion handler that then runs: `++m_hints[i][key]` in
-- `handle_put`, `--m_hints[from][pending.key]` in `handle_write_complete`.
unfoldable pub record_of : HintTask → HintMessage
record_of (added replica key) = add_hint replica key
record_of (dropped replica key) = drop_hint replica key

unfoldable pub count_hint : HintTask → List (List ℕ) → Outcome (List (List ℕ))
unfolding change_hint
count_hint (added replica key) hints = change_hint increment replica key hints
count_hint (dropped replica key) hints = change_hint decrement replica key hints

-- The strand of the hint log runs its oldest task.
unfoldable pub run_hint : Coordinator → Outcome Coordinator
unfolding record_of count_hint
run_hint s = elim s.hint_queue [
  | [] ↦ ok s
  | task ∷ rest ↦ do
    hints ← count_hint task s.hints
    ok (record s { hint_log = s.hint_log ++ record_of task ∷ []; hint_queue = rest; hints = hints })
]

-- The loop of `handle_put` over the replicas from number i on.
unfoldable pub add_hints : ℕ → ℕ → ℕ → List HintTask
add_hints zero i key = []
add_hints (suc rest) i key = added i key ∷ add_hints rest (suc i) key
