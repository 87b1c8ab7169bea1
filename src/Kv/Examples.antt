-- ===== src/Kv/Examples.antt =====
-- Data for the examples of the store: three servers, of which this one is the first.
mod Commands
mod Requests
mod Servers
mod Replicas
mod Streams
mod Quorums
mod Setup
use cs.Prelude.{ℕ, String, Option, none, some, List, [], ◌∷◌, replicate, set}
use cs.Prelude.Outcome.{Outcome, ok, fault}
use cs.Kv.Messages.{Timestamp, DoWrite}
use cs.Kv.Config.{Config, Mode, hinted_handoff, read_repair}
use cs.Kv.Replica.{Element, Replica, store_size}
use cs.Kv.Coordinator.State.{Coordinator, outgoing}
use cs.Kv.Coordinator.Hints.{no_hints}

abbrev pub value_or {ℓ} : {A : Type ℓ} → A → Outcome A → A
value_or default (ok a) = a
value_or default (fault e) = default

abbrev pub at_second : ℕ → Timestamp
at_second n = record { seconds = n; nanos = 0 }

abbrev pub config : Mode → Config
config mode = record {
  listen_ip = "10.0.0.1";
  listen_port = 9000;
  client_port = 9001;
  log_path = "log";
  hint_log = "hints";
  replicas = ("10.0.0.1", "9000") ∷ ("10.0.0.2", "9000") ∷ ("10.0.0.3", "9000") ∷ [];
  mode = mode;
}

abbrev no_element : Option Element
no_element = none

-- A replica that holds one value, under key 7.
abbrev pub holding : Option Element → Replica
holding slot = record {
  store = set (replicate store_size no_element) 7 slot;
  log = [];
  queued = [];
}

abbrev pub server : Mode → Option Element → Coordinator
server mode slot = record {
  config = config mode;
  replica = holding slot;
  channels = some (outgoing 0) ∷ some (outgoing 1) ∷ some (outgoing 2) ∷ [];
  hint_log = [];
  hint_queue = [];
  pending_reads = [];
  pending_writes = [];
  hints = no_hints;
  posts = [];
  introduced = [];
  sent = [];
}

abbrev pub old : Element
old = record { content = "old"; timestamp = at_second 3 }

abbrev pub newer : Element
newer = record { content = "new"; timestamp = at_second 5 }

abbrev pub other : Element
other = record { content = "other"; timestamp = at_second 3 }
