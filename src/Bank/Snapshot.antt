-- ===== src/Bank/Snapshot.antt =====
-- bank/include/snapshot.hpp and bank/src/snapshot.cpp. What is written to the terminal where a name
-- or a state does not fit is left out.
pub mod Recorded
pub mod Returned
use cs.Prelude.{ℕ, String, Option, none, some, List, [], ◌∷◌}
use cs.Prelude.Eq.{string_eq}
use cs.Prelude.Dict.{Dict, lookup, put, emplace}
use cs.Prelude.Outcome.{Outcome, ok, fault, bad_variant_access, ◌>>=◌}
use cs.Bank.Messages.{PeerInfo, ReturnSnapshot, add64}

-- `varstate`, with the money transferred.
pub data VarState : Type 0 where
  empty : VarState
  recording completed : ℕ → VarState

pub record Snapshot : Type 0 where
  pub states : Dict String VarState
  pub id : ℕ
  pub balance : ℕ

-- The loop of the constructor.
unfoldable pub record_all : List PeerInfo → Dict String VarState → Dict String VarState
record_all [] states = states
record_all ((name, ip, port) ∷ peers) states = record_all peers (emplace name (recording 0) states)

unfoldable pub make : ℕ → ℕ → List PeerInfo → Snapshot
unfolding record_all
make id balance peers = record { states = record_all peers []; id = id; balance = balance }

unfoldable pub record_tx : String → ℕ → Snapshot → Snapshot
record_tx from amount s = elim (lookup from s.states) [
  | none ↦ s
  | some state ↦ elim state [
    | recording transferred ↦ record s {
      states = put from (recording (add64 transferred amount)) s.states;
    }
    | _ ↦ s
  ]
]

-- `emplace` constructs from a value that it has ended; the value is taken to be carried over.
unfoldable pub marker : String → Snapshot → Snapshot
marker from s = elim (lookup from s.states) [
  | none ↦ s
  | some state ↦ elim state [
    | recording transferred ↦ record s { states = put from (completed transferred) s.states }
    | _ ↦ s
  ]
]

-- The loop of `to_message`.
unfoldable pub channel_states : Dict String VarState → Outcome (List (String × ℕ))
channel_states [] = ok []
channel_states ((name, completed transferred) ∷ states) = do
  rest ← channel_states states
  ok ((name, transferred) ∷ rest)
channel_states ((name, _) ∷ states) = fault bad_variant_access

-- The name is set by the caller.
unfoldable pub to_message : Snapshot → Outcome ReturnSnapshot
unfolding channel_states
to_message s = do
  states ← channel_states s.states
  ok (record { name = ""; snapshot_id = s.id; balance = s.balance; channel_state = states })
