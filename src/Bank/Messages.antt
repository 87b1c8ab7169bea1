-- ===== src/Bank/Messages.antt =====
-- The messages of bank/proto/bank.proto.
use cs.Prelude.{ℕ, String, List, ◌-◌, ◌+◌, ◌%◌, ◌^◌}

-- name, address and port
abbrev pub PeerInfo : Type 0
PeerInfo = String × String × ℕ

pub record InitBranch : Type 0 where
  pub balance : ℕ
  pub all_branches : List PeerInfo

-- `channel_state` holds a name and the money in transit for each channel.
pub record ReturnSnapshot : Type 0 where
  pub name : String
  pub snapshot_id : ℕ
  pub balance : ℕ
  pub channel_state : List (String × ℕ)

pub data BranchMessage : Type 0 where
  unset : BranchMessage
  init_branch : InitBranch → BranchMessage
  transfer : ℕ → BranchMessage
  init_snapshot marker retrieve_snapshot : ℕ → BranchMessage
  return_snapshot : ReturnSnapshot → BranchMessage
  hello : String → BranchMessage

-- `uint64_t` a + b
abbrev pub add64 : ℕ → ℕ → ℕ
add64 a b = (a + b) % 2 ^ 64

-- `uint64_t` a - b
abbrev pub sub64 : ℕ → ℕ → ℕ
sub64 a b = (a + 2 ^ 64 - b) % 2 ^ 64
