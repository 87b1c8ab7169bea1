-- ===== src/Http/Descriptor/Once.antt =====
-- How often a socket is closed (http/src/socket.cpp).
use cs.Prelude.{
  ℕ, ◌+◌, ◌<◌, ◌≡◌, ◌==◌, ◌&&◌, refl, ap, ◌∙◌, ltb, none, some, List, [], ◌∷◌, length, get_elem?,
  set, get_elem?-some, get_elem?-set_ne, arith, inl, inr, Bool-cases, Option-cases,
}
use cs.Http.File.Owned.{one, holders, times, holders-append, times-append, holders-set}
use cs.Http.Descriptor.{
  Sockets, socket, close, construct, move_construct, move_assign, destroy, Use, constructs, moves,
  destroys, assigns, apply, apply_all,
}

abbrev pub opened : ℕ → List Use → ℕ
opened d [] = 0
opened d (constructs e ∷ us) = one d (some e) + opened d us
opened d (u ∷ us) = opened d us

socket-get_elem? :
    (i : ℕ) (s : Sockets) → i < length s.d_socket → get_elem? s.d_socket i ≡ some (socket i s)
socket-get_elem? i s h = let (o, there) = get_elem?-some s.d_socket i h in ground (arith, there)

abbrev pub accounted : ℕ → Sockets → ℕ
accounted d s = holders d s.d_socket + times d s.closed

-- `close` counts once more what the object holds, and keeps it.
close-keeps :
    (d i : ℕ) (s : Sockets)
    → 0 < d
    → (times d (close i s).closed ≡ times d s.closed + one d (socket i s))
      × ((close i s).d_socket ≡ s.d_socket)
unfolding close
close-keeps d i s some_d = elim (Option-cases (get_elem? s.d_socket i)) [
  | inl missing ↦ ground (arith, missing)
  | inr (none, there) ↦ ground (arith, there)
  | inr (some e, there) ↦ ground (arith, there, times-append d s.closed (e ∷ []))
]

socket-close : (k i : ℕ) (s : Sockets) → socket k (close i s) ≡ socket k s
socket-close k i s =
    let same = (close-keeps 1 i s (omega arith)).1 in ground (arith, ap (λ os. get_elem? os k) same)

accounted-destroy :
    (d i : ℕ) (s : Sockets)
    → 0 < d
    → i < length s.d_socket
    → accounted d (destroy i s) ≡ accounted d s
unfolding destroy
accounted-destroy d i s some_d h =
    let (more, same) = close-keeps d i s some_d in
    rw same
      (omega (arith, more, holders-set d s.d_socket i (socket i s) none (socket-get_elem? i s h)))

accounted-move_construct :
    (d i : ℕ) (s : Sockets)
    → 0 < d
    → i < length s.d_socket
    → accounted d (move_construct i s) ≡ accounted d s
unfolding move_construct
accounted-move_construct d i s some_d h = ground (
  arith,
  holders-set d s.d_socket i (socket i s) (some 0) (socket-get_elem? i s h),
  holders-append d (set s.d_socket i (some 0)) (socket i s ∷ []),
)

accounted-move_assign :
    (d i j : ℕ) (s : Sockets)
    → 0 < d
    → i < length s.d_socket
    → j < length s.d_socket
    → accounted d (move_assign i j s) ≡ accounted d s
unfolding move_assign
accounted-move_assign d i j s some_d h k = elim (Bool-cases (i == j)) [
  | inl alike ↦ rw alike refl
  | inr apart ↦
      let (more, same) = close-keeps d i s some_d in
      let taken = set s.d_socket i (socket j s) in
      let there : get_elem? taken j ≡ some (socket j s) =
        get_elem?-set_ne s.d_socket i j (socket j s) (λ e. ground (arith, apart, e))
        ∙ socket-get_elem? j s k in
      rw (apart, socket-close j i s, same)
        (omega (
          arith,
          more,
          holders-set d s.d_socket i (socket i s) (socket j s) (socket-get_elem? i s h),
          holders-set d taken j (socket j s) none there,
        ))
]

accounted-apply :
    (d : ℕ) (u : Use) (s : Sockets)
    → 0 < d
    → accounted d (apply u s) ≡ opened d (u ∷ []) + accounted d s
unfolding apply
accounted-apply d (constructs e) s some_d =
    unfold construct in omega (arith, holders-append d s.d_socket (some e ∷ []))
accounted-apply d (moves i) s some_d = elim (Bool-cases (ltb i (length s.d_socket))) [
  | inl there ↦
      rw there (omega (arith, accounted-move_construct d i s some_d (ground (arith, there))))
  | inr missing ↦ rw missing (omega arith)
]
accounted-apply d (destroys i) s some_d = elim (Bool-cases (ltb i (length s.d_socket))) [
  | inl there ↦ rw there (omega (arith, accounted-destroy d i s some_d (ground (arith, there))))
  | inr missing ↦ rw missing (omega arith)
]
accounted-apply d (assigns i j) s some_d =
    elim (Bool-cases (ltb i (length s.d_socket) && ltb j (length s.d_socket))) [
      | inl there ↦ rw there (
          omega (
            arith,
            accounted-move_assign d i j s some_d (ground (arith, there)) (ground (arith, there)),
          ))
      | inr missing ↦ rw missing (omega arith)
    ]

opened-cons :
    (d : ℕ) (u : Use) (us : List Use) → opened d (u ∷ us) ≡ opened d (u ∷ []) + opened d us
opened-cons d (constructs e) us = omega arith
opened-cons d (moves i) us = omega arith
opened-cons d (destroys i) us = omega arith
opened-cons d (assigns i j) us = omega arith

accounted-apply_all :
    (d : ℕ) (us : List Use) (s : Sockets)
    → 0 < d
    → accounted d (apply_all us s) ≡ opened d us + accounted d s
unfolding apply_all
accounted-apply_all d [] s some_d = omega arith
accounted-apply_all d (u ∷ us) s some_d = omega (
  arith,
  accounted-apply_all d us (apply u s) some_d,
  accounted-apply d u s some_d,
  opened-cons d u us,
)

-- However a program makes sockets, moves them, assigns them, also to themselves, and destroys them:
-- a descriptor above 0 is held by as many objects, and has been closed as often, together, as an
-- object was made of it.
pub closed_by_destructor :
    (us : List Use) (d : ℕ)
    → 0 < d
    → holders d (apply_all us (record { d_socket = []; closed = [] })).d_socket
        + times d (apply_all us (record { d_socket = []; closed = [] })).closed
      ≡ opened d us
closed_by_destructor us d some_d =
    omega (arith, accounted-apply_all d us (record { d_socket = []; closed = [] }) some_d)

-- Where `close` is called on an object that holds a descriptor above 0, that call and the destructor
-- close it twice.
pub closed_twice :
    (d i : ℕ) (s : Sockets)
    → 0 < d
    → socket i s ≡ some d
    → times d (destroy i (close i s)).closed ≡ times d s.closed + 2
unfolding destroy
closed_twice d i s some_d held =
    let first = close-keeps d i s some_d in
    let second = close-keeps d i (close i s) some_d in
    ground (arith, first.0, second.0, socket-close i i s, held)
