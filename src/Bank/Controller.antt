-- ===== src/Bank/Controller.antt =====
-- bank/include/controller.hpp and bank/src/controller.cpp: the controller gives the branches their
-- money and takes snapshots in rounds.
pub mod Lines
pub mod Shares
pub mod Rounds
use Prim.Native.Char.{code}
use cs.Prelude.{
  ℕ, zero, suc, ◌+◌, ◌-◌, ◌*◌, ◌/◌, ◌%◌, ◌^◌, String, Bool, true, false, ◌&&◌, ◌||◌, not, ltb, leb,
  ◌==◌, if◌then◌else◌, Option, none, some, List, [], ◌∷◌, ◌++◌, length, map,
}
use cs.Prelude.Outcome.{Outcome, ok, fault, undefined, out_of_range, runtime_error, ◌>>=◌}
use cs.Bank.Messages.{
  PeerInfo, InitBranch, ReturnSnapshot, BranchMessage, init_branch, init_snapshot,
  retrieve_snapshot, return_snapshot,
}

-- Which handler `d_timer` runs next.
pub data Timer : Type 0 where
  off snapshot_due retrieve_due : Timer

-- A channel is the place of its peer; `printed` holds what `return_snapshot_handler` wrote.
pub record Controller : Type 0 where
  pub peers : List PeerInfo
  pub channels : List ℕ
  pub msg : InitBranch
  pub timer : Timer
  pub snapshot_id : ℕ
  pub sent : List (ℕ × BranchMessage)
  pub printed : List ReturnSnapshot

unfoldable pub new : ℕ → Controller
new initial_bal = record {
  peers = [];
  channels = [];
  msg = record { balance = initial_bal; all_branches = [] };
  timer = off;
  snapshot_id = 0;
  sent = [];
  printed = [];
}

-- The classes \s and \d of the line's expression.
abbrev pub is_space : ℕ → Bool
is_space c = c == 32 || (leb 9 c && leb c 13)

abbrev pub is_digit : ℕ → Bool
is_digit c = leb 48 c && leb c 57

-- The longest prefix of characters of a class, and the rest.
abbrev pub span : (ℕ → Bool) → String → String × String
span in_class String.[] = (String.[], String.[])
span in_class (String.◌∷◌ c s) =
    let (front, rest) = span in_class s in
    if in_class (code c) then (String.◌∷◌ c front, rest) else (String.[], String.◌∷◌ c s)

abbrev pub is_empty : String → Bool
is_empty String.[] = true
is_empty (String.◌∷◌ c s) = false

-- A match of (\S+)\s+(\S+)\s+(\d+) with its three groups.
unfoldable pub match_line : String → Option (String × String × String)
match_line line =
    let (name, r₁) = span (λ c. not (is_space c)) line in
    let (gap₁, r₂) = span is_space r₁ in
    let (ip, r₃) = span (λ c. not (is_space c)) r₂ in
    let (gap₂, r₄) = span is_space r₃ in
    let (port, r₅) = span is_digit r₄ in
    if is_empty name
      || is_empty gap₁
      || is_empty ip
      || is_empty gap₂
      || is_empty port
      || not (is_empty r₅)
    then none
    else some (name, ip, port)

abbrev pub number : ℕ → String → ℕ
number acc String.[] = acc
number acc (String.◌∷◌ c s) = number (acc * 10 + (code c - 48)) s

-- `std::stoul`
abbrev pub stoul : String → Outcome ℕ
stoul s = if ltb (number 0 s) (2 ^ 64) then ok (number 0 s) else fault out_of_range

unfoldable pub read_line : String → Outcome PeerInfo
unfolding match_line
read_line line = elim (match_line line) [
  | none ↦ fault (runtime_error "Invalid format in input file")
  | some (name, ip, port) ↦ do n ← stoul port; ok (name, ip, n % 2 ^ 16)
]

unfoldable pub read_lines : List String → Controller → Outcome Controller
unfolding read_line
read_lines [] c = ok c
read_lines (line ∷ lines) c = do
  peer ← read_line line
  read_lines lines (record c {
    peers = c.peers ++ peer ∷ [];
    msg = record c.msg { all_branches = c.msg.all_branches ++ peer ∷ [] };
  })

unfoldable pub do_snapshot : Controller → Controller
do_snapshot c = record c { snapshot_id = (c.snapshot_id + 1) % 2 ^ 64; timer = snapshot_due }

-- One channel for each peer, from number i on.
abbrev pub numbered : ℕ → List PeerInfo → List ℕ
numbered i [] = []
numbered i (peer ∷ peers) = i ∷ numbered (suc i) peers

-- Without a peer, the division is by zero.
unfoldable pub do_init_branches : Controller → Outcome Controller
unfolding do_snapshot
do_init_branches c = elim c.peers [
  | [] ↦ fault undefined
  | _ ∷ _ ↦ ok (
      do_snapshot (record c {
        msg = record c.msg { balance = c.msg.balance / length c.peers };
        channels = c.channels ++ numbered (length c.channels) c.peers;
      }))
]

-- `none` is a file that is not there or cannot be opened: an `invalid_argument`, which ends the
-- program as any other exception does.
unfoldable pub do_read_list : Option (List String) → Controller → Outcome Controller
unfolding read_lines do_init_branches
do_read_list none c = fault (runtime_error "Invalid branches file")
do_read_list (some lines) c = do c' ← read_lines lines c; do_init_branches c'

-- The handler of `connect_cb` for a channel.
unfoldable pub connected : ℕ → Controller → Controller
connected ch c = record c { sent = c.sent ++ (ch, init_branch c.msg) ∷ [] }

abbrev pub at : List ℕ → ℕ → Outcome ℕ
at [] i = fault out_of_range
at (ch ∷ channels) zero = ok ch
at (ch ∷ channels) (suc i) = at channels i

-- The handler of the timer of `do_snapshot`, with the channel that it draws.
unfoldable pub take_snapshot : ℕ → Controller → Outcome Controller
take_snapshot which c = do
  ch ← at c.channels which
  ok (record c { sent = c.sent ++ (ch, init_snapshot c.snapshot_id) ∷ []; timer = retrieve_due })

abbrev pub to_each : BranchMessage → List ℕ → List (ℕ × BranchMessage)
to_each msg channels = map (λ ch. (ch, msg)) channels

-- The handler of the timer of `do_retrieve_snapshot`.
unfoldable pub retrieve : Controller → Controller
unfolding do_snapshot
retrieve c =
    do_snapshot (record c { sent = c.sent ++ to_each (retrieve_snapshot c.snapshot_id) c.channels })

-- The timer runs out, unless it is off.
unfoldable pub timer_fired : ℕ → Controller → Outcome Controller
unfolding take_snapshot retrieve
timer_fired which c = elim c.timer [
  | off ↦ ok c
  | snapshot_due ↦ take_snapshot which c
  | retrieve_due ↦ ok (retrieve c)
]

unfoldable pub handle_message : BranchMessage → Controller → Controller
handle_message (return_snapshot msg) c = record c { printed = c.printed ++ msg ∷ [] }
handle_message _ c = c
