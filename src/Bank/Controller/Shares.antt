-- ===== src/Bank/Controller/Shares.antt =====
-- What the branches are given (do_read_list and do_init_branches of bank/src/controller.cpp).
use native.Mathlib.Omega.{div_any}
use cs.Prelude.{
  ℕ, suc, ◌+◌, ◌*◌, ◌/◌, ◌%◌, ◌<◌, ◌≡◌, refl, ap, sym, ◌∙◌, some, List, [], ◌∷◌, ◌++◌, map, length,
  append_assoc, append-nil, All, arith,
}
use cs.Prelude.Outcome.{ok}
use cs.Bank.Messages.{init_branch}
use cs.Bank.Controller.{
  Controller, new, do_init_branches, do_snapshot, do_read_list, numbered, connected,
}
use cs.Bank.Controller.Lines.{Row, IsRow, text, peer, read_lines-rows}

-- The channels of branches connect, in this order.
abbrev pub connect_all : List ℕ → Controller → Controller
connect_all [] c = c
connect_all (ch ∷ order) c = connect_all order (connected ch c)

connect_all_sent :
    (order : List ℕ) (c : Controller)
    → (connect_all order c).sent ≡ c.sent ++ map (λ ch. (ch, init_branch c.msg)) order
unfolding connected
connect_all_sent [] c = sym (append-nil c.sent)
connect_all_sent (ch ∷ order) c =
    connect_all_sent order (connected ch c)
    ∙ append_assoc c.sent ((ch, init_branch c.msg) ∷ []) (map (λ ch. (ch, init_branch c.msg)) order)

length-map-peer : (rows : List Row) → length (map peer rows) ≡ length rows
length-map-peer [] = refl
length-map-peer (r ∷ rows) = ap suc (length-map-peer rows)

-- A file of one or more lines, each a name, a host and a port apart by white space, is read. There
-- is then one channel for each line, and each branch that connects, in whatever order, is sent all
-- branches, as the lines have them, with the port's lowest 16 bits, and a share of the balance. The
-- shares are equal, and together they are the balance less a remainder that is smaller than the
-- number of branches, and that no branch is given.
pub shares_even :
    (r : Row) (rows : List Row) (balance : ℕ) (order : List ℕ)
    → All IsRow (r ∷ rows)
    → (c : Controller) × (share rest : ℕ) × (do_read_list (some (map text (r ∷ rows))) (new balance)
        ≡ ok c)
      × (c.channels ≡ numbered 0 (map peer (r ∷ rows)))
      × ((connect_all order c).sent
          ≡ map
              (λ ch.
                (ch, init_branch (record { balance = share; all_branches = map peer (r ∷ rows) })))
              order)
      × (length (r ∷ rows) * share + rest ≡ balance)
      × (rest < length (r ∷ rows))
unfolding do_read_list do_init_branches do_snapshot new
shares_even r rows balance order rows_ok =
    let count = length (r ∷ rows) in
    let share = balance / count in
    let peers = map peer (r ∷ rows) in
    let sized : length peers ≡ count = length-map-peer (r ∷ rows) in
    let c = do_snapshot (record (new balance) {
      peers = peers;
      msg = record { balance = share; all_branches = peers };
      channels = numbered 0 peers;
    }) in
    (
      c,
      share,
      balance % count,
      rw (do_read_list, read_lines-rows (r ∷ rows) (new balance) rows_ok, sized) refl,
      refl,
      connect_all_sent order c,
      div_any balance count,
      omega arith,
    )
