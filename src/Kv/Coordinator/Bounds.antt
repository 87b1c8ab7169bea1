-- ===== src/Kv/Coordinator/Bounds.antt =====
-- Keys and uuids that other machines choose (kv/server/src/coordinator.cpp).
use cs.Prelude.{ℕ, ◌≡◌, ◌≤◌, Option, none, some, arith, get_elem?-none, length}
use cs.Prelude.Eq.{string_eq}
use cs.Prelude.Outcome.{fault, undefined}
use cs.Kv.Messages.{
  TimeOps, ServerMessage, do_write, do_read, read_repair, read_repair_response, ClientMessage,
  get_key, put_key,
}
use cs.Kv.Coordinator.State.{Coordinator, ServerLink}
use cs.Kv.Coordinator.Client.{Draw, client_handler}
use cs.Kv.Coordinator.Server.{server_msg_handler}

-- The key of a message that reads or writes the store.
abbrev pub server_key : ServerMessage → Option ℕ
server_key (do_write msg) = some msg.key
server_key (do_read uuid key) = some key
server_key (read_repair key) = some key
server_key (read_repair_response key timestamp val) = some key
server_key _ = none

abbrev pub client_key : ClientMessage → Option ℕ
client_key (get_key msg) = some msg.key
client_key (put_key msg) = some msg.key
client_key _ = none

module _ ⦃tm : TimeOps⦄ where
  -- A message of another server that reads or writes a key beyond the store reads outside the
  -- array.
  pub server_key_unchecked :
      (msg : ServerMessage) (link : ServerLink) (id key : ℕ) (s : Coordinator)
      → server_key msg ≡ some key
      → length s.replica.store ≤ key
      → server_msg_handler msg link id s ≡ fault undefined
  unfolding server_msg_handler
  server_key_unchecked (do_read uuid k) link id key s h beyond =
      ground (arith, h, get_elem?-none s.replica.store k)
  server_key_unchecked (do_write msg) link id key s h beyond =
      ground (arith, h, get_elem?-none s.replica.store msg.key)
  server_key_unchecked (read_repair k) link id key s h beyond =
      ground (arith, h, get_elem?-none s.replica.store k)
  server_key_unchecked (read_repair_response k timestamp val) link id key s h beyond =
      ground (arith, h, get_elem?-none s.replica.store k)
  server_key_unchecked msg link id key s h beyond = absurd (cc h)

  -- A request of a client with a key beyond the store reads outside the array.
  pub client_key_unchecked :
      (draw : Draw) (msg : ClientMessage) (from key : ℕ) (s : Coordinator)
      → client_key msg ≡ some key
      → length s.replica.store ≤ key
      → client_handler draw msg from s ≡ fault undefined
  unfolding client_handler
  client_key_unchecked draw (get_key msg) from key s h beyond =
      ground (arith, h, get_elem?-none s.replica.store msg.key)
  client_key_unchecked draw (put_key msg) from key s h beyond =
      ground (arith, h, get_elem?-none s.replica.store msg.key)
  client_key_unchecked draw msg from key s h beyond = absurd (cc h)
