-- ===== src/Kv/Coordinator/Introduction.antt =====
-- Who a server that connects is taken for (unintroduced_msg_handler of
-- kv/server/src/coordinator.cpp).
use cs.Prelude.{
  ℕ, suc, ◌+◌, ◌≡◌, refl, String, eq_iff, false, ◌&&◌, Option, none, some, List, [], ◌∷◌, arith,
  get_elem?, take, subst, All, Bool-cases, inl, inr,
}
use cs.Prelude.Eq.{string_eq, nat_eq, beq, bytes_eq, bytes_eq_iff}
use cs.Prelude.Decimal.{codes, decimal}
use cs.Prelude.Dict.{put}
use cs.Prelude.Outcome.{ok, fault, runtime_error}
use cs.Kv.Messages.{intro}
use cs.Kv.Coordinator.State.{Coordinator}
use cs.Kv.Coordinator.Server.{find_replica, introduce, unintroduced_msg_handler}

-- The replica has this address.
abbrev pub IsAt : String → ℕ → String × String → Type 0
IsAt ip port replica = (ip ≡ replica.0) × (decimal port ≡ codes replica.1)

abbrev pub IsElsewhere : String → ℕ → String × String → Type 0
IsElsewhere ip port replica = ¬ IsAt ip port replica

-- `found` is the number, from `start` on, of the first replica with the address.
pub data First (ip : String) (port start : ℕ) (replicas : List (String × String))
    : Option ℕ → Type 0 where
  missing : All (IsElsewhere ip port) replicas → First ip port start replicas none
  at :
      (i : ℕ) (replica : String × String)
      → get_elem? replicas i ≡ some replica
      → IsAt ip port replica
      → All (IsElsewhere ip port) (take i replicas)
      → First ip port start replicas (some (start + i))

First-cons :
    (ip : String) (port start : ℕ) (replica : String × String) (replicas : List (String × String))
    (found : Option ℕ)
    → IsElsewhere ip port replica
    → First ip port (suc start) replicas found
    → First ip port start (replica ∷ replicas) found
First-cons ip port start replica replicas found elsewhere (missing none_there) =
    missing (elsewhere, none_there)
First-cons ip port start replica replicas found elsewhere (at i there known it before) =
    subst (λ n. First ip port start (replica ∷ replicas) (some n)) (omega arith)
      (at (suc i) there known it (elsewhere, before))

IsElsewhere-of_test :
    (ip : String) (port : ℕ) (ip' port' : String)
    → (beq ip ip' && bytes_eq (decimal port) (codes port')) ≡ false
    → IsElsewhere ip port (ip', port')
IsElsewhere-of_test ip port ip' port' other same =
    let host = (eq_iff ip ip').1 same.0 in
    let number = (bytes_eq_iff (decimal port) (codes port')).1 same.1 in
    ground (arith, other, host, number)

pub find_replica-First :
    (ip : String) (port : ℕ) (replicas : List (String × String)) (start : ℕ)
    → First ip port start replicas (find_replica ip port replicas start)
unfolding find_replica
find_replica-First ip port [] start = missing tt
find_replica-First ip port ((ip', port') ∷ replicas) start =
    elim (Bool-cases (beq ip ip' && bytes_eq (decimal port) (codes port'))) [
      | inl same ↦
          rw (same, find_replica)
            (subst (λ n. First ip port start ((ip', port') ∷ replicas) (some n)) (omega arith)
              (at 0 (ip', port') refl
                (
                  ground (arith, same, eq_iff ip ip'),
                  (bytes_eq_iff (decimal port) (codes port')).0 (ground (arith, same)),
                )
                tt))
      | inr other ↦
          rw (other, find_replica)
            (First-cons ip port start (ip', port') replicas
              (find_replica ip port replicas (suc start))
              (IsElsewhere-of_test ip port ip' port' other)
              (find_replica-First ip port replicas (suc start)))
    ]

introduce_lem :
    (channel : ℕ) (found : Option ℕ) (s : Coordinator)
    → introduce channel found s ≡ elim found [
      | none ↦ fault (runtime_error "Invalid introduction")
      | some id ↦ ok (record s { introduced = put channel id s.introduced })
    ]
introduce_lem channel none s = refl
introduce_lem channel (some id) s = refl

-- An introduction on an accepted channel is taken for the first replica of the configuration whose
-- host is the given one and whose port is the decimal text of the given one, and the channel's
-- messages are then that replica's; it is refused with an error if there is no such replica.
pub introduction_exact :
    (ip : String) (port channel : ℕ) (s : Coordinator)
    → (found : Option ℕ) × First ip port 0 s.config.replicas found
      × (unintroduced_msg_handler (intro ip port) channel s ≡ elim found [
        | none ↦ fault (runtime_error "Invalid introduction")
        | some id ↦ ok (record s { introduced = put channel id s.introduced })
      ])
unfolding unintroduced_msg_handler
introduction_exact ip port channel s = (
  find_replica ip port s.config.replicas 0,
  find_replica-First ip port s.config.replicas 0,
  introduce_lem channel (find_replica ip port s.config.replicas 0) s,
)
