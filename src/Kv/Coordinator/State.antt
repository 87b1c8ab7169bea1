-- ===== src/Kv/Coordinator/State.antt =====
-- The state of kv/server/include/coordinator.hpp, and sends on channels.
use cs.Prelude.{
  ℕ, ◌+◌, ◌-◌, ◌%◌, ◌^◌, String, Bool, true, false, Option, none, some, List, [], ◌∷◌, ◌++◌,
}
use cs.Prelude.Dict.{Dict}
use cs.Prelude.Outcome.{Outcome, ok, fault, undefined, ◌>>=◌}
use cs.Kv.Config.{Config, Mode, read_repair, hinted_handoff}
use cs.Kv.Messages.{Timestamp, ServerMessage, ClientMessage, HintMessage}
use cs.Kv.Replica.{Replica}

-- A channel between servers: one that this server opened, by its place in `m_channels`, or one
-- that it accepted.
pub data ServerLink : Type 0 where
  outgoing accepted : ℕ → ServerLink

pub data Sent : Type 0 where
  to_server : ServerLink → ServerMessage → Sent
  to_client : ℕ → ClientMessage → Sent

pub record PendingRead : Type 0 where
  pub stream : ℕ
  pub key : ℕ
  pub consistency : ℕ
  pub requestor : ℕ
  pub results : List (Timestamp × String)

pub record PendingWrite : Type 0 where
  pub stream : ℕ
  pub key : ℕ
  pub consistency : ℕ
  pub requestor : ℕ

-- A call of `write_update` on the hint log that waits on its strand: that of `handle_put`, and that of
-- `handle_write_complete`, each with its replica and key.
pub data HintTask : Type 0 where
  added dropped : ℕ → ℕ → HintTask

-- `hint_log` is the hint log's content, oldest first; `hint_queue` and `posts` are the tasks that
-- wait on its strand and in the `io_service` (the keys of read repairs to broadcast). `introduced`
-- gives the replica number of an accepted channel whose handler has been replaced. `sent` is what
-- the handlers have sent, oldest first.
pub record Coordinator : Type 0 where
  pub config : Config
  pub replica : Replica
  pub channels : List (Option ServerLink)
  pub hint_log : List HintMessage
  pub hint_queue : List HintTask
  pub pending_reads : Dict String PendingRead
  pub pending_writes : Dict String PendingWrite
  pub hints : List (List ℕ)
  pub posts : List ℕ
  pub introduced : Dict ℕ ℕ
  pub sent : List Sent

-- `uint32_t`: c - 1
abbrev pub dec32 : ℕ → ℕ
dec32 c = (c + 2 ^ 32 - 1) % 2 ^ 32

abbrev pub is_read_repair : Mode → Bool
is_read_repair read_repair = true
is_read_repair _ = false

abbrev pub is_hinted_handoff : Mode → Bool
is_hinted_handoff hinted_handoff = true
is_hinted_handoff _ = false

abbrev pub send : Sent → Coordinator → Coordinator
send m s = record s { sent = s.sent ++ m ∷ [] }

-- The loops over `m_channels`: with a test for a null pointer, and without one.
unfoldable pub to_all : ServerMessage → List (Option ServerLink) → List Sent
to_all msg [] = []
to_all msg (none ∷ channels) = to_all msg channels
to_all msg (some link ∷ channels) = to_server link msg ∷ to_all msg channels

unfoldable pub to_all_unchecked : ServerMessage → List (Option ServerLink) → Outcome (List Sent)
to_all_unchecked msg [] = ok []
to_all_unchecked msg (none ∷ channels) = fault undefined
to_all_unchecked msg (some link ∷ channels) = do
  rest ← to_all_unchecked msg channels
  ok (to_server link msg ∷ rest)

unfoldable pub broadcast : ServerMessage → Coordinator → Coordinator
unfolding to_all
broadcast msg s = record s { sent = s.sent ++ to_all msg s.channels }
