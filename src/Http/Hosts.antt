-- ===== src/Http/Hosts.antt =====
-- Names and addresses in http/src/socket.cpp. What the C library answers is an argument; the number
-- of an unknown address family is left out of the error's text.
pub mod Resolved
use cs.Prelude.{
  ℕ, zero, suc, ◌+◌, ◌*◌, ◌==◌, if◌then◌else◌, Option, none, some, String, List, [], ◌∷◌, ◌++◌,
}
use cs.Prelude.Eq.{Bytes}
use cs.Prelude.Outcome.{Outcome, ok, fault, socket_exception, ◌>>=◌}

-- What `gethostbyname_r` does with a buffer: it returns ERANGE, or 0 with a host, or it sets herr.
pub data HostResult (H : Type 0) : Type 0 where
  erange : HostResult H
  host : H → HostResult H
  failed : ℕ → HostResult H

-- The texts of the errors, by the numbers of netdb.h.
abbrev pub host_error : ℕ → String
host_error herr =
    if herr == 1
    then "Host not found"
    else if herr == 4
    then "No data received"
    else if herr == 3
    then "A nonrecoverable name server error occurred"
    else if herr == 2
    then "A temporary error occurred on an authoritative name server.  Try again later."
    else "Unknown failure"

-- The loop, with what the library answers for a capacity of the buffer, and the capacity that is
-- left for the next call; `none` where it still runs after these rounds.
unfoldable pub get_host_by_name :
    {H : Type 0} → ℕ → (ℕ → HostResult H) → ℕ → Outcome (Option (H × ℕ))
get_host_by_name zero answers capacity = ok none
get_host_by_name (suc rounds) answers capacity = elim (answers capacity) [
  | erange ↦ get_host_by_name rounds answers (capacity * 2)
  | host h ↦ ok (some (h, capacity))
  | failed herr ↦ fault (socket_exception (host_error herr))
]

-- `addrinfo`: its family and the bytes of its address.
pub record AddrInfo : Type 0 where
  pub family : ℕ
  pub addr : Bytes

abbrev pub af_inet : ℕ
af_inet = 2

abbrev pub af_inet6 : ℕ
af_inet6 = 10

-- The loop, with `inet_ntop`.
unfoldable pub addr_vec_from_addrinfo :
    (ℕ → Bytes → Bytes)
    → List AddrInfo
    → List Bytes
    → List Bytes
    → Outcome (List Bytes × List Bytes)
addr_vec_from_addrinfo ntop [] v4 v6 = ok (v4, v6)
addr_vec_from_addrinfo ntop (p ∷ ps) v4 v6 =
    let with_v4 = addr_vec_from_addrinfo ntop ps (v4 ++ ntop p.family p.addr ∷ []) v6 in
    let with_v6 = addr_vec_from_addrinfo ntop ps v4 (v6 ++ ntop p.family p.addr ∷ []) in
    if p.family == af_inet
    then with_v4
    else if p.family == af_inet6
    then with_v6
    else fault (socket_exception "Critical: unknown address family: ")

-- `sockaddr_storage`, with the two bytes of its port.
pub record SockAddr : Type 0 where
  pub family : ℕ
  pub port_high : ℕ
  pub port_low : ℕ
  pub addr : Bytes

pub record PeerInfo : Type 0 where
  pub port : ℕ
  pub address : Bytes

-- What `getpeername` answers, `none` for an error.
unfoldable pub get_peer_info : (ℕ → Bytes → Bytes) → Option SockAddr → Outcome PeerInfo
get_peer_info ntop none = fault (socket_exception "")
get_peer_info ntop (some a) = ok (record {
  port = a.port_high * 256 + a.port_low;
  address = if a.family == af_inet then ntop af_inet a.addr else ntop af_inet6 a.addr;
})
