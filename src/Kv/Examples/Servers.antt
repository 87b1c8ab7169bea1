-- ===== src/Kv/Examples/Servers.antt =====
-- Servers that repair, introduce themselves and connect again.
use mathlib.Core.List.{Mem}
use cs.Prelude.{arith, Option, ap, ℕ, ◌≡◌, refl, ◌⊎◌, some, none, List, [], ◌∷◌}
use cs.Prelude.Outcome.{ok, fault, runtime_error}
use cs.Prelude.Dict.{put}
use cs.Prelude.Eq.{nat_eq}
use cs.Kv.Messages.{do_write, intro, Timestamp}
use cs.Kv.Messages.Order.{by_seconds}
use cs.Kv.Config.{read_repair, hinted_handoff}
use cs.Kv.Coordinator.State.{Coordinator, outgoing, to_server}
use cs.Kv.Coordinator.Server.{handle_read_repair_response, recon_handler, unintroduced_msg_handler}
use cs.Kv.Coordinator.Repair.{Adopts, Returns, repair_write, repair_converges}
use cs.Kv.Coordinator.Introduction.{First, introduction_exact}
use cs.Kv.Coordinator.Handoff.{handoff_covers}
use cs.Kv.Examples.{value_or, config, server, old, newer}

abbrev behind : Coordinator
behind = server read_repair (some old)

abbrev ahead : Coordinator
ahead = server read_repair (some newer)

abbrev repaired : Coordinator
unfolding handle_read_repair_response
repaired =
    value_or behind
      (handle_read_repair_response 7 newer.timestamp newer.content (outgoing 1) behind)

repair_converges_example :
    Adopts 7 (outgoing 1) behind repaired ahead old newer
    ⊎ Returns 7 (outgoing 1) behind repaired ahead old newer
unfolding handle_read_repair_response
repair_converges_example =
    repair_converges 7 (outgoing 1) behind repaired ahead old newer refl refl refl refl
      (λ e. omega (arith, ap (λ (t : Timestamp). t.seconds) e)) refl

introduction_exact_example :
    (found : Option ℕ) × First "10.0.0.2" 9000 0 (config read_repair).replicas found
    × (unintroduced_msg_handler (intro "10.0.0.2" 9000) 4 behind ≡ elim found [
      | none ↦ fault (runtime_error "Invalid introduction")
      | some id ↦ ok (record behind { introduced = put 4 id [] })
    ])
introduction_exact_example = introduction_exact "10.0.0.2" 9000 4 behind

abbrev row : List ℕ
row = 0 ∷ 0 ∷ 0 ∷ 1 ∷ 0 ∷ 0 ∷ 0 ∷ 2 ∷ []

abbrev hinting : Coordinator
hinting = record (server hinted_handoff (some old)) { hints = [] ∷ row ∷ [] ∷ [] }

abbrev back : Coordinator
unfolding recon_handler
back = value_or hinting (recon_handler 1 (outgoing 1) hinting)

handoff_covers_example : Mem (to_server (outgoing 1) (do_write (repair_write 7 old))) back.sent
unfolding recon_handler
handoff_covers_example =
    handoff_covers 1 (outgoing 1) row hinting back 7 2 old refl refl refl refl (λ e. omega arith)
      refl
