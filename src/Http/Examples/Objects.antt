-- ===== src/Http/Examples/Objects.antt =====
-- Descriptors, the log and the name of a host.
use cs.Prelude.{ℕ, ◌+◌, ◌≤◌, ◌<◌, ◌≡◌, ◌⊎◌, arith, leb, if◌then◌else◌, some, none, List, [], ◌∷◌}
use cs.Prelude.Eq.{Bytes}
use cs.Prelude.Decimal.{codes}
use cs.Prelude.Outcome.{ok}
use cs.Http.File.{Use, opens, moves, closes, assigns, apply_all}
use cs.Http.File.Owned.{holders, times, closed_once}
use cs.Http.Log.{Logger, log_all}
use cs.Http.Log.Counted.{lines_after, log_counts}
use cs.Http.Hosts.{HostResult, erange, host, get_host_by_name}
use cs.Http.Hosts.Resolved.{get_host_ends}

-- Two files, of which the second is assigned to the first; a move; a file that could not be opened.
abbrev uses : List Use
uses = opens (some 5) ∷ opens (some 6) ∷ assigns 0 1 ∷ moves 0 ∷ opens none ∷ closes 2 ∷ []

closed_once_example :
    holders 6 (apply_all uses (record { d_fd = []; closed = [] })).d_fd
      + times 6 (apply_all uses (record { d_fd = []; closed = [] })).closed
    ≡ 1
closed_once_example = closed_once uses 6

abbrev requests : List (Bytes × Bytes × ℕ)
requests =
    (codes "/a", codes "10.0.0.1", 4000)
    ∷ (codes "/b", codes "10.0.0.1", 4000)
    ∷ (codes "/a", codes "10.0.0.2", 4001)
    ∷ []

log_counts_example :
    (l : Logger) × (log_all requests (record { d_counts = []; d_output_stream = [] }) ≡ ok l)
    × (l.d_output_stream ≡ lines_after [] requests)
log_counts_example = log_counts requests

-- A library that needs 300 bytes.
abbrev answers : ℕ → HostResult Bytes
answers capacity = if leb 300 capacity then host (codes "10.0.0.7") else erange

answers_short : (c : ℕ) → c < 300 → answers c ≡ erange
answers_short c h = ground arith

answers_fit : (c : ℕ) → 300 ≤ c → answers c ≡ host (codes "10.0.0.7")
answers_fit c h = ground arith

get_host_ends_example :
    (c : ℕ) × (get_host_by_name 301 answers 1 ≡ ok (some (codes "10.0.0.7", c)))
    × (300 ≤ c)
    × ((c ≡ 1) ⊎ (c < 600))
get_host_ends_example =
    get_host_ends 300 answers (codes "10.0.0.7") 1 answers_short answers_fit (omega arith)
