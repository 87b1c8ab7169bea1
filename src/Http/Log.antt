-- ===== src/Http/Log.antt =====
-- http/src/logger.cpp: how often each path was asked for. The calls come one after another; a count is
-- the 64 bits of an `int_fast32_t`.
pub mod Counted
use cs.Prelude.{ℕ, ◌+◌, ◌%◌, ◌^◌, Option, none, some, List, [], ◌∷◌, ◌++◌}
use cs.Prelude.Eq.{Bytes, bytes_eq_instance}
use cs.Prelude.Dict.{Dict, lookup, put, emplace}
use cs.Prelude.Outcome.{Outcome, ok, out_of_range, or_fault, ◌>>=◌}

-- A line that is written: path, address, port and count.
pub record Line : Type 0 where
  pub path : Bytes
  pub address : Bytes
  pub port : ℕ
  pub count : ℕ

pub record Logger : Type 0 where
  pub d_counts : Dict Bytes ℕ
  pub d_output_stream : List Line

-- The counts with a zero where `at` throws.
abbrev pub counted : Bytes → Dict Bytes ℕ → Dict Bytes ℕ
counted path counts = elim (lookup path counts) [
  | none ↦ emplace path 0 counts
  | some count ↦ counts
]

unfoldable pub log_get : Bytes → Bytes → ℕ → Logger → Outcome Logger
log_get path address client_port l = do
  let counts = counted path l.d_counts
  before ← or_fault (lookup path counts) out_of_range
  let count = (before + 1) % 2 ^ 64
  ok (record {
    d_counts = put path count counts;
    d_output_stream =
        l.d_output_stream
        ++ record { path = path; address = address; port = client_port; count = count } ∷ [];
  })

unfoldable pub log_all : List (Bytes × Bytes × ℕ) → Logger → Outcome Logger
unfolding log_get
log_all [] l = ok l
log_all ((path, address, port) ∷ requests) l = do
  next ← log_get path address port l
  log_all requests next
