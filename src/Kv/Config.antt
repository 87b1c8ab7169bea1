-- ===== src/Kv/Config.antt =====
-- kv/server/include/config.hpp and kv/server/src/config.cpp, behind the JSON library: `Root` holds
-- what `asString`, `asUInt` and `asInt` return for the members of the file's object.
use cs.Prelude.{ℕ, zero, suc, ◌%◌, ◌^◌, String, List}

pub data Mode : Type 0 where
  read_repair hinted_handoff : Mode
  -- any other number of the file, which the cast lets through
  other : ℕ → Mode

pub record Root : Type 0 where
  pub listen_ip : String
  pub listen_port : ℕ
  pub client_port : ℕ
  pub logfile : String
  pub hintlog : String
  -- host and port
  pub replicas : List (String × String)
  pub mode : ℕ

pub record Config : Type 0 where
  pub listen_ip : String
  pub listen_port : ℕ
  pub client_port : ℕ
  pub log_path : String
  pub hint_log : String
  pub replicas : List (String × String)
  pub mode : Mode

unfoldable pub mode_of : ℕ → Mode
mode_of zero = read_repair
mode_of (suc zero) = hinted_handoff
mode_of (suc (suc n)) = other (suc (suc n))

-- The ports are `uint16_t`.
unfoldable pub load : Root → Config
unfolding mode_of
load root = record {
  listen_ip = root.listen_ip;
  listen_port = root.listen_port % 2 ^ 16;
  client_port = root.client_port % 2 ^ 16;
  log_path = root.logfile;
  hint_log = root.hintlog;
  replicas = root.replicas;
  mode = mode_of root.mode;
}
