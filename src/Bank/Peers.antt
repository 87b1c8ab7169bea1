-- ===== src/Bank/Peers.antt =====
-- The peers that a branch opens channels to (init_branch_handler of bank/src/branch.cpp).
pub mod Topology
use cs.Prelude.{
  get_elem?, ℕ, zero, suc, ◌+◌, ◌/◌, ◌%◌, ◌^◌, String, Bool, ◌&&◌, not, ltb, ◌==◌, if◌then◌else◌,
  Option, none, some, List, [], ◌∷◌,
}
use cs.Prelude.Eq.{string_eq, beq}
use cs.Prelude.Outcome.{Outcome, ok, out_of_range, or_fault, ◌>>=◌}
use cs.Bank.Messages.{PeerInfo, sub64}

-- `uint16_t` of a port, and the loop of `emplace_back`.
abbrev pub narrow : PeerInfo → PeerInfo
narrow (name, ip, port) = (name, ip, port % 2 ^ 16)

-- `find_if`, from number i on.
unfoldable pub find_self : String → List PeerInfo → ℕ → Option ℕ
find_self name [] i = none
find_self name ((name', ip, port) ∷ peers) i =
    let later = find_self name peers (suc i) in if beq name' name then some i else later

abbrev pub outgoing_count : ℕ → ℕ → ℕ
outgoing_count num offset =
    sub64 num 1 / 2 + (if num % 2 == 0 then (if ltb offset (num / 2) then 1 else 0) else 0)

-- The indices of the loop, i of them from `from` on, modulo the number of peers.
unfoldable pub ring : ℕ → ℕ → ℕ → List ℕ
ring size from zero = []
ring size from (suc i) = from % size ∷ ring size (suc from) i

abbrev pub targets : ℕ → ℕ → List ℕ
targets num offset = ring num (offset + 1) (outgoing_count num offset)

unfoldable pub at_all : List PeerInfo → List ℕ → Outcome (List PeerInfo)
at_all peers [] = ok []
at_all peers (i ∷ is) = do
  peer ← or_fault (get_elem? peers i) out_of_range
  rest ← at_all peers is
  ok (peer ∷ rest)

unfoldable pub erase : ℕ → List PeerInfo → List PeerInfo
erase i [] = []
erase zero (peer ∷ peers) = peers
erase (suc i) (peer ∷ peers) = peer ∷ erase i peers
