-- ===== src/Http/Descriptor.antt =====
-- http/src/socket.cpp: the objects of class Socket, each with the descriptor that it owns.
pub mod Once
use cs.Prelude.{
  ℕ, ◌&&◌, not, ◌==◌, ltb, if◌then◌else◌, Option, none, some, List, [], ◌∷◌, ◌++◌, length,
  get_elem?, set,
}

-- The `d_socket` of each object, `none` for -1, and what was given to `::close`, oldest first. An
-- object that is gone holds nothing.
pub record Sockets : Type 0 where
  pub d_socket : List (Option ℕ)
  pub closed : List ℕ

abbrev pub socket : ℕ → Sockets → Option ℕ
socket i s = elim (get_elem? s.d_socket i) [ none ↦ none | some d ↦ d ]

-- `close` keeps the number.
unfoldable pub close : ℕ → Sockets → Sockets
close i s = elim (socket i s) [
  | none ↦ s
  | some d ↦ if ltb 0 d then record s { closed = s.closed ++ d ∷ [] } else s
]

-- An object of a descriptor that was opened.
unfoldable pub construct : ℕ → Sockets → Sockets
construct d s = record s { d_socket = s.d_socket ++ some d ∷ [] }

unfoldable pub move_construct : ℕ → Sockets → Sockets
move_construct i s = record s { d_socket = set s.d_socket i (some 0) ++ socket i s ∷ [] }

unfoldable pub move_assign : ℕ → ℕ → Sockets → Sockets
unfolding close
move_assign i j s =
    let first = close i s in
    let taken = set first.d_socket i (socket j first) in
    if i == j then s else record first { d_socket = set taken j none }

-- The destructor, with the end of the object.
unfoldable pub destroy : ℕ → Sockets → Sockets
unfolding close
destroy i s = let last = close i s in record last { d_socket = set last.d_socket i none }

-- What a program does with its objects, but for an explicit `close`.
pub data Use : Type 0 where
  constructs moves destroys : ℕ → Use
  assigns : ℕ → ℕ → Use

unfoldable pub apply : Use → Sockets → Sockets
unfolding construct move_construct move_assign destroy
apply (constructs d) s = construct d s
apply (moves i) s = if ltb i (length s.d_socket) then move_construct i s else s
apply (destroys i) s = if ltb i (length s.d_socket) then destroy i s else s
apply (assigns i j) s =
    if ltb i (length s.d_socket) && ltb j (length s.d_socket) then move_assign i j s else s

unfoldable pub apply_all : List Use → Sockets → Sockets
unfolding apply
apply_all [] s = s
apply_all (u ∷ us) s = apply_all us (apply u s)
