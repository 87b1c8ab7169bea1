-- ===== src/Http/Hosts/Resolved.antt =====
-- The names and addresses that are found (http/src/socket.cpp).
use cs.Prelude.{
  ℕ, zero, suc, ◌+◌, ◌*◌, ◌≤◌, ◌<◌, ◌≡◌, ◌⊎◌, refl, ◌==◌, ◌&&◌, ◌||◌, Bool, true, if◌then◌else◌,
  some, List, [], ◌∷◌, ◌++◌, arith, inl, inr, append_assoc, append-nil,
}
use native.Mathlib.Decide.{dec_lt}
use cs.Prelude.Eq.{Bytes}
use cs.Prelude.Outcome.{ok, fault, socket_exception}
use cs.Http.Hosts.{
  HostResult, erange, host, get_host_by_name, AddrInfo, af_inet, af_inet6, addr_vec_from_addrinfo,
}

get_host-lem :
    {H : Type 0} (rounds need : ℕ) (answers : ℕ → HostResult H) (h : H) (capacity : ℕ)
    → ((c : ℕ) → c < need → answers c ≡ erange)
    → ((c : ℕ) → need ≤ c → answers c ≡ host h)
    → 0 < capacity
    → 0 < rounds
    → need < capacity + rounds
    → (c : ℕ) × (get_host_by_name rounds answers capacity ≡ ok (some (h, c)))
      × (need ≤ c)
      × ((c ≡ capacity) ⊎ (c < 2 * need))
unfolding get_host_by_name
get_host-lem zero need answers h capacity short fits some_bytes some_round enough =
    absurd (omega arith)
get_host-lem (suc rounds) need answers h capacity short fits some_bytes some_round enough =
    elim (dec_lt capacity need) [
      | yes small ↦
          let (c, found, large, bound) =
            get_host-lem rounds need answers h (capacity * 2) short fits (omega arith) (omega arith)
              (omega arith) in
          (
            c,
            rw (short capacity small, get_host_by_name) found,
            large,
            elim bound [ inl e ↦ inr (omega arith) | inr less ↦ inr less ],
          )
      | no large ↦
          (capacity, rw (fits capacity (omega arith), get_host_by_name) refl, omega arith, inl refl)
    ]

-- A library that needs some number of bytes answers after as many rounds, however small the buffer is
-- when it is not empty: the buffer is large enough then, and less than twice as large as it must be
-- unless it was so before.
pub get_host_ends :
    {H : Type 0} (need : ℕ) (answers : ℕ → HostResult H) (h : H) (capacity : ℕ)
    → ((c : ℕ) → c < need → answers c ≡ erange)
    → ((c : ℕ) → need ≤ c → answers c ≡ host h)
    → 0 < capacity
    → (c : ℕ) × (get_host_by_name (suc need) answers capacity ≡ ok (some (h, c)))
      × (need ≤ c)
      × ((c ≡ capacity) ⊎ (c < 2 * need))
get_host_ends need answers h capacity short fits some_bytes =
    get_host-lem (suc need) need answers h capacity short fits some_bytes (omega arith)
      (omega arith)

-- The texts of the addresses of one family, in order.
abbrev pub texts : (ℕ → Bytes → Bytes) → ℕ → List AddrInfo → List Bytes
texts ntop family [] = []
texts ntop family (p ∷ ps) =
    let rest = texts ntop family ps in
    if p.family == family then ntop p.family p.addr ∷ rest else rest

abbrev pub all_known : List AddrInfo → Bool
all_known [] = true
all_known (p ∷ ps) = (p.family == af_inet || p.family == af_inet6) && all_known ps

-- The addresses are split by their families, each in order, and an unknown family throws.
pub addr_vec_split :
    (ntop : ℕ → Bytes → Bytes) (infos : List AddrInfo) (v4 v6 : List Bytes)
    → addr_vec_from_addrinfo ntop infos v4 v6 ≡ (
        if all_known infos
        then ok (v4 ++ texts ntop af_inet infos, v6 ++ texts ntop af_inet6 infos)
        else fault (socket_exception "Critical: unknown address family: "))
unfolding addr_vec_from_addrinfo
addr_vec_split ntop [] v4 v6 = rw (append-nil v4, append-nil v6) refl
addr_vec_split ntop (p ∷ ps) v4 v6 =
    let text = ntop p.family p.addr in
    ground (
      arith,
      addr_vec_split ntop ps (v4 ++ text ∷ []) v6,
      addr_vec_split ntop ps v4 (v6 ++ text ∷ []),
      append_assoc v4 (text ∷ []) (texts ntop af_inet ps),
      append_assoc v6 (text ∷ []) (texts ntop af_inet6 ps),
    )
