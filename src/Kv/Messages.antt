-- ===== src/Kv/Messages.antt =====
-- The messages of kv/proto/server.proto, client.proto and hint.proto, and the timestamps that they
-- carry. A message without a set `oneof` is `unset`.
pub mod Order
use cs.Prelude.{ℕ, String, ◌≡◌, Bool, true, false, not}

-- A protobuf timestamp as its two fields' bit patterns.
pub record Timestamp : Type 0 where
  pub seconds : ℕ
  pub nanos : ℕ

abbrev pub zero_time : Timestamp
zero_time = record { seconds = 0; nanos = 0 }

-- `operator<` and `operator<=` of google/protobuf/util/time_util.h: a strict total order and its
-- negated converse.
pub record TimeOps : Type 0 where
  pub before : Timestamp → Timestamp → Bool
  pub not_after : Timestamp → Timestamp → Bool
  pub not_after_lem : (a b : Timestamp) → not_after a b ≡ not (before b a)
  pub before_irrefl : (a : Timestamp) → before a a ≡ false
  pub before_trans : (a b c : Timestamp) → before a b ≡ true → before b c ≡ true → before a c ≡ true
  pub before_total : (a b : Timestamp) → before a b ≡ false → before b a ≡ false → a ≡ b

pub record DoWrite : Type 0 where
  pub uuid : String
  pub key : ℕ
  pub timestamp : Timestamp
  pub val : String

pub data ServerMessage : Type 0 where
  unset : ServerMessage
  -- ip and port
  intro : String → ℕ → ServerMessage
  do_write : DoWrite → ServerMessage
  -- uuid
  write_complete : String → ServerMessage
  -- uuid and key
  do_read : String → ℕ → ServerMessage
  -- uuid, timestamp and value
  read_complete : String → Timestamp → String → ServerMessage
  -- key
  read_repair : ℕ → ServerMessage
  -- key, timestamp and value
  read_repair_response : ℕ → Timestamp → String → ServerMessage

pub record GetKey : Type 0 where
  pub stream : ℕ
  pub key : ℕ
  pub consistency : ℕ

pub record PutKey : Type 0 where
  pub stream : ℕ
  pub key : ℕ
  pub val : String
  pub consistency : ℕ

pub data ClientMessage : Type 0 where
  unset : ClientMessage
  get_key : GetKey → ClientMessage
  -- stream, key and value
  get_key_resp : ℕ → ℕ → String → ClientMessage
  put_key : PutKey → ClientMessage
  -- stream and key
  put_key_resp : ℕ → ℕ → ClientMessage

-- replica and key
pub data HintMessage : Type 0 where
  unset : HintMessage
  add_hint drop_hint : ℕ → ℕ → HintMessage
