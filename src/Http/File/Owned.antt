-- ===== src/Http/File/Owned.antt =====
-- Each descriptor has one owner (http/include/file.hpp).
use cs.Prelude.{
  ℕ, zero, suc, ◌+◌, ◌<◌, ◌≡◌, ◌==◌, ◌&&◌, ap, ltb, if◌then◌else◌, Option, none, some, List, [],
  ◌∷◌, ◌++◌, length, get_elem?, set, length-set, get_elem?-some, arith, inl, inr, Bool-cases,
  Option-cases, get_elem?-set_self, get_elem?-set_ne, ◌∙◌,
}
use cs.Http.File.{
  Files, fd, close, open_file, move_construct, move_assign, Use, opens, moves, closes, assigns,
  apply, apply_all,
}

abbrev pub one : ℕ → Option ℕ → ℕ
one d none = 0
one d (some e) = if d == e then 1 else 0

-- How many objects hold a descriptor, and how often it was closed and opened.
abbrev pub holders : ℕ → List (Option ℕ) → ℕ
holders d [] = 0
holders d (o ∷ os) = one d o + holders d os

abbrev pub times : ℕ → List ℕ → ℕ
times d [] = 0
times d (e ∷ es) = one d (some e) + times d es

abbrev pub opened : ℕ → List Use → ℕ
opened d [] = 0
opened d (opens o ∷ us) = one d o + opened d us
opened d (u ∷ us) = opened d us

pub holders-append :
    (d : ℕ) (os ps : List (Option ℕ)) → holders d (os ++ ps) ≡ holders d os + holders d ps
holders-append d [] ps = omega arith
holders-append d (o ∷ os) ps = omega (arith, holders-append d os ps)

pub times-append : (d : ℕ) (es fs : List ℕ) → times d (es ++ fs) ≡ times d es + times d fs
times-append d [] fs = omega arith
times-append d (e ∷ es) fs = omega (arith, times-append d es fs)

pub holders-set :
    (d : ℕ) (os : List (Option ℕ)) (i : ℕ) (o p : Option ℕ)
    → get_elem? os i ≡ some o
    → holders d (set os i p) + one d o ≡ holders d os + one d p
holders-set d [] i o p h = cc h
holders-set d (q ∷ os) zero o p h = let e : q ≡ o = cc h in rw e (omega arith)
holders-set d (q ∷ os) (suc i) o p h = omega (arith, holders-set d os i o p h)

-- What an object holds, where there is one.
fd-get_elem? : (i : ℕ) (s : Files) → i < length s.d_fd → get_elem? s.d_fd i ≡ some (fd i s)
fd-get_elem? i s h = let (o, there) = get_elem?-some s.d_fd i h in ground (arith, there)

-- How often a descriptor is held or was closed.
abbrev pub accounted : ℕ → Files → ℕ
accounted d s = holders d s.d_fd + times d s.closed

accounted-close : (d i : ℕ) (s : Files) → accounted d (close i s) ≡ accounted d s
unfolding close
accounted-close d i s = elim (Option-cases (get_elem? s.d_fd i)) [
  | inl missing ↦ ground (arith, missing)
  | inr (none, there) ↦ ground (arith, there)
  | inr (some e, there) ↦
      ground
        (arith, there, holders-set d s.d_fd i (some e) none there, times-append d s.closed (e ∷ []))
]

close_empties :
    (i : ℕ) (s : Files)
    → i < length s.d_fd
    → (fd i (close i s) ≡ none) × (length (close i s).d_fd ≡ length s.d_fd)
unfolding close
close_empties i s h = elim (Option-cases (get_elem? s.d_fd i)) [
  | inl missing ↦ ground (arith, missing)
  | inr (none, there) ↦ ground (arith, there)
  | inr (some e, there) ↦
      ground (arith, there, get_elem?-set_self s.d_fd i none h, length-set s.d_fd i none)
]

accounted-move_construct :
    (d i : ℕ) (s : Files) → i < length s.d_fd → accounted d (move_construct i s) ≡ accounted d s
unfolding move_construct
accounted-move_construct d i s h = omega (
  arith,
  holders-set d s.d_fd i (fd i s) none (fd-get_elem? i s h),
  holders-append d (set s.d_fd i none) (fd i s ∷ []),
)

accounted-move_assign :
    (d i j : ℕ) (s : Files)
    → i < length s.d_fd
    → j < length s.d_fd
    → accounted d (move_assign i j s) ≡ accounted d s
unfolding move_assign
accounted-move_assign d i j s h k =
    let first = close i s in
    let (empty, same) = close_empties i s h in
    let moved = fd j first in
    let second = set first.d_fd i moved in
    let at_i = fd-get_elem? i first (omega (arith, same, h)) in
    let there : get_elem? second j ≡ some moved = elim (Bool-cases (i == j)) [
      | inl alike ↦
          let e : i ≡ j = ground (arith, alike) in
          rw (ap (get_elem? second) e) at
            (get_elem?-set_self first.d_fd i moved (omega (arith, same, h)))
      | inr apart ↦
          get_elem?-set_ne first.d_fd i j moved (λ e. ground (arith, apart, e))
          ∙ fd-get_elem? j first (omega (arith, same, k))
    ] in
    omega (
      arith,
      holders-set d second j moved none there,
      holders-set d first.d_fd i (fd i first) moved at_i,
      ap (one d) empty,
      accounted-close d i s,
    )

accounted-apply :
    (d : ℕ) (u : Use) (s : Files) → accounted d (apply u s) ≡ opened d (u ∷ []) + accounted d s
unfolding apply
accounted-apply d (opens o) s = unfold open_file in omega (arith, holders-append d s.d_fd (o ∷ []))
accounted-apply d (closes i) s = omega (arith, accounted-close d i s)
accounted-apply d (moves i) s = elim (Bool-cases (ltb i (length s.d_fd))) [
  | inl there ↦ rw there (omega (arith, accounted-move_construct d i s (ground (arith, there))))
  | inr missing ↦ rw missing (omega arith)
]
accounted-apply d (assigns i j) s =
    elim (Bool-cases (ltb i (length s.d_fd) && ltb j (length s.d_fd))) [
      | inl there ↦ rw there (
          omega
            (arith, accounted-move_assign d i j s (ground (arith, there)) (ground (arith, there))))
      | inr missing ↦ rw missing (omega arith)
    ]

opened-cons :
    (d : ℕ) (u : Use) (us : List Use) → opened d (u ∷ us) ≡ opened d (u ∷ []) + opened d us
opened-cons d (opens o) us = omega arith
opened-cons d (moves i) us = omega arith
opened-cons d (closes i) us = omega arith
opened-cons d (assigns i j) us = omega arith

accounted-apply_all :
    (d : ℕ) (us : List Use) (s : Files) → accounted d (apply_all us s) ≡ opened d us + accounted d s
unfolding apply_all
accounted-apply_all d [] s = omega arith
accounted-apply_all d (u ∷ us) s =
    let split = opened-cons d u us in
    omega (arith, accounted-apply_all d us (apply u s), accounted-apply d u s, split)

-- However a program opens files, moves them, assigns them, also to themselves, and closes them: a
-- descriptor is held by as many objects, and has been closed as often, together, as it was opened.
-- So a descriptor that was opened once has one owner until it is closed, and is closed once.
pub closed_once :
    (us : List Use) (d : ℕ)
    → holders d (apply_all us (record { d_fd = []; closed = [] })).d_fd
        + times d (apply_all us (record { d_fd = []; closed = [] })).closed
      ≡ opened d us
closed_once us d = omega (arith, accounted-apply_all d us (record { d_fd = []; closed = [] }))
