-- ===== src/Http/File.antt =====
-- http/include/file.hpp: objects that own a file descriptor, which `open` returned.
pub mod Owned
use cs.Prelude.{
  ℕ, ◌&&◌, ltb, if◌then◌else◌, Option, none, some, List, [], ◌∷◌, ◌++◌, length, get_elem?, set,
}

-- The `d_fd` of each object, `none` for -1, and what was given to `::close`, oldest first. An
-- object that is gone holds nothing.
pub record Files : Type 0 where
  pub d_fd : List (Option ℕ)
  pub closed : List ℕ

abbrev pub fd : ℕ → Files → Option ℕ
fd i s = elim (get_elem? s.d_fd i) [ none ↦ none | some d ↦ d ]

-- `close`, and the destructor
unfoldable pub close : ℕ → Files → Files
close i s = elim (fd i s) [
  | none ↦ s
  | some d ↦ record { d_fd = set s.d_fd i none; closed = s.closed ++ d ∷ [] }
]

-- The constructor with a path, with what `open` returns.
unfoldable pub open_file : Option ℕ → Files → Files
open_file d s = record s { d_fd = s.d_fd ++ d ∷ [] }

unfoldable pub move_construct : ℕ → Files → Files
move_construct i s = record s { d_fd = set s.d_fd i none ++ fd i s ∷ [] }

-- `operator=` of object i, also for an object that is assigned to itself.
unfoldable pub move_assign : ℕ → ℕ → Files → Files
unfolding close
move_assign i j s =
    let first = close i s in
    let second = record first { d_fd = set first.d_fd i (fd j first) } in
    record second { d_fd = set second.d_fd j none }

-- What a program does with its objects; a number that no object has is no object.
pub data Use : Type 0 where
  opens : Option ℕ → Use
  moves closes : ℕ → Use
  assigns : ℕ → ℕ → Use

unfoldable pub apply : Use → Files → Files
unfolding close open_file move_construct move_assign
apply (opens d) s = open_file d s
apply (moves i) s = if ltb i (length s.d_fd) then move_construct i s else s
apply (closes i) s = close i s
apply (assigns i j) s =
    if ltb i (length s.d_fd) && ltb j (length s.d_fd) then move_assign i j s else s

unfoldable pub apply_all : List Use → Files → Files
unfolding apply
apply_all [] s = s
apply_all (u ∷ us) s = apply_all us (apply u s)
