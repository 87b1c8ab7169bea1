-- ===== src/Chord/Node.antt =====
-- chord/include/chord.h: a node of the ring. `call_rpc` runs a procedure on another node; the calls
-- are recorded, or stand for the answer.
pub mod Owner
pub mod Finger
pub mod Ring
pub mod Search
pub mod Loop
pub mod Joined
use cs.Prelude.{ℕ, Bool, not, ◌&&◌, Option, none, some, List, [], ◌∷◌, ◌++◌, map, if◌then◌else◌}
use cs.Prelude.Eq.{Bytes}
use cs.Prelude.Decimal.{codes, decimal}
use cs.Prelude.Outcome.{Outcome, ok, fault, undefined, system_exception, or_fault, ◌>>=◌}
use cs.Chord.Hash.{Hash, before}

pub record NodeId : Type 0 where
  pub id : Bytes
  pub ip : Bytes
  pub port : ℕ

-- A call of `setPredecessor`, with the node that it goes to.
pub record Call : Type 0 where
  pub dest : NodeId
  pub predecessor : NodeId

pub record LocalNode : Type 0 where
  pub node : NodeId
  pub fingertable : List NodeId
  pub predecessor : Option NodeId
  pub calls : List Call

-- What `find_successor` and `find_predecessor` return: a node, or the answer of another node.
pub data Answer : Type 0 where
  found : NodeId → Answer
  asks : NodeId → Bytes → Answer

abbrev pub id_between : Bytes → Bytes → Bytes → Bool
id_between lower middle upper =
    if before lower upper
    then before lower middle && before middle upper
    else not (before upper middle && before middle lower)

module _ ⦃h : Hash⦄ where
  -- The identifier of an address.
  abbrev pub id_of : Bytes → ℕ → Bytes
  id_of ip port = h.sha256 (ip ++ codes ":" ++ decimal port)

  unfoldable pub new : Bytes → ℕ → LocalNode
  new address port = record {
    node = record { id = id_of address port; ip = address; port = port };
    fingertable = [];
    predecessor = none;
    calls = [];
  }

  -- An empty table has no front.
  unfoldable pub set_fingertable : List NodeId → LocalNode → Outcome LocalNode
  set_fingertable node_list n =
      let table = map (λ (f : NodeId). record f { id = id_of f.ip f.port }) node_list in
      elim table [
        | [] ↦ fault undefined
        | successor ∷ rest ↦ ok (record n {
          fingertable = successor ∷ rest;
          calls = n.calls ++ record { dest = successor; predecessor = n.node } ∷ [];
        })
      ]

unfoldable pub set_predecessor : NodeId → LocalNode → LocalNode
set_predecessor p n = record n { predecessor = some p }

unfoldable pub is_successor : Bytes → LocalNode → Outcome Bool
is_successor identifier n = elim n.predecessor [
  | none ↦ fault (system_exception "Unknown predecessor, can't determine if is successor")
  | some p ↦ ok (id_between p.id identifier n.node.id)
]

unfoldable pub is_predecessor : Bytes → LocalNode → Outcome Bool
is_predecessor identifier n = elim n.fingertable [
  | [] ↦ fault (system_exception "Unknown successor, can't determine if is predecessor")
  | successor ∷ rest ↦ ok (id_between n.node.id identifier successor.id)
]

-- The loop from the back of the table: the last entry between the node and the key.
abbrev pub last_between : Bytes → Bytes → List NodeId → Option NodeId
last_between id key [] = none
last_between id key (f ∷ fs) =
    let later = last_between id key fs in
    elim later [ some n ↦ some n | none ↦ if id_between id f.id key then some f else none ]

unfoldable pub closest_preceding_node : Bytes → LocalNode → Outcome NodeId
closest_preceding_node key n = elim (last_between n.node.id key n.fingertable) [
  | some f ↦ ok f
  | none ↦ elim n.fingertable [ [] ↦ fault undefined | front ∷ rest ↦ ok front ]
]

-- Both searches, after the test and with the text for an empty table.
unfoldable pub ask : Bytes → LocalNode → Outcome Answer
unfolding closest_preceding_node
ask key n = elim n.fingertable [
  | [] ↦ fault (system_exception "No fingertable, can't find successor")
  | _ ∷ _ ↦ do node ← closest_preceding_node key n; ok (asks node key)
]

unfoldable pub find_successor : Bytes → LocalNode → Outcome Answer
unfolding is_successor ask
find_successor key n = do mine ← is_successor key n; if mine then ok (found n.node) else ask key n

-- The test throws where the table is empty, so that the second test of it never does.
unfoldable pub find_predecessor : Bytes → LocalNode → Outcome Answer
unfolding is_predecessor ask
find_predecessor key n = do
  mine ← is_predecessor key n
  if mine then ok (found n.node) else ask key n

unfoldable pub get_successor : LocalNode → Outcome NodeId
get_successor n = elim n.fingertable [
  | [] ↦ fault (system_exception "Empty fingertable, can't get successor")
  | successor ∷ rest ↦ ok successor
]
