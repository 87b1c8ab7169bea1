-- ===== src/Bank/Peers/Topology.antt =====
-- The connections that the branches open (init_branch_handler of bank/src/branch.cpp).
use cs.Prelude.{ℕ, ◌+◌, ◌&&◌, List, [], ◌∷◌, ltb, leb, ◌==◌, if◌then◌else◌}

abbrev pub count : ℕ → List ℕ → ℕ
count j [] = 0
count j (i ∷ is) = (if i == j then 1 else 0) + count j is

abbrev within : ℕ → ℕ → ℕ → ℕ
within from n j = if leb from j && ltb j (from + n) then 1 else 0
