-- ===== src/Http/Log/Counted.antt =====
-- What the log says of each request (http/src/logger.cpp).
use cs.Prelude.{
  ℕ, ◌+◌, ◌%◌, ◌^◌, ◌≡◌, refl, ap, sym, ◌∙◌, none, some, Option, List, [], ◌∷◌, ◌++◌, if◌then◌else◌,
  arith, append_assoc, append-nil, Option-cases, Bool-cases, inl, inr,
}
use cs.Prelude.Eq.{Bytes, bytes_eq, bytes_eq_iff, bytes_eq_instance}
use cs.Prelude.Dict.{Dict, lookup, put, lookup-put, lookup-emplace}
use cs.Prelude.Outcome.{ok}
use cs.Http.Log.{Line, Logger, log_get, log_all, counted}

-- How often a path is asked for.
abbrev pub asked : Bytes → List (Bytes × Bytes × ℕ) → ℕ
asked path [] = 0
asked path ((other, address, port) ∷ requests) =
    (if bytes_eq other path then 1 else 0) + asked path requests

-- The lines for requests that come after `before` others, the last of which is first.
abbrev pub lines_after : List (Bytes × Bytes × ℕ) → List (Bytes × Bytes × ℕ) → List Line
lines_after before [] = []
lines_after before ((path, address, port) ∷ requests) =
    record { path = path; address = address; port = port; count = (asked path before + 1) % 2 ^ 64 }
    ∷ lines_after ((path, address, port) ∷ before) requests

-- The counts are those of the requests, and a path that was not asked for may be missing.
abbrev count_of : Option ℕ → ℕ
count_of none = 0
count_of (some count) = count

lookup-counted :
    (path p : Bytes) (counts : Dict Bytes ℕ)
    → lookup p (counted path counts)
      ≡ (if bytes_eq path p then some (count_of (lookup path counts)) else lookup p counts)
lookup-counted path p counts = elim (Option-cases (lookup path counts)) [
  | inl missing ↦ ground (arith, missing, lookup-emplace path p 0 counts)
  | inr (count, there) ↦ ground (arith, there, bytes_eq_iff path p)
]

log_get-lem :
    (before : List (Bytes × Bytes × ℕ)) (path address : Bytes) (port : ℕ) (l : Logger)
    → ((p : Bytes) → count_of (lookup p l.d_counts) ≡ asked p before % 2 ^ 64)
    → (l' : Logger) × (log_get path address port l ≡ ok l')
      × ((p : Bytes)
          → count_of (lookup p l'.d_counts) ≡ asked p ((path, address, port) ∷ before) % 2 ^ 64)
      × (l'.d_output_stream ≡ l.d_output_stream ++ lines_after before ((path, address, port) ∷ []))
unfolding log_get
log_get-lem before path address port l counts =
    let own = lookup-counted path path l.d_counts in
    let same = (bytes_eq_iff path path).1 refl in
    let found : lookup path (counted path l.d_counts) ≡ some (asked path before % 2 ^ 64) =
      ground (arith, own, same, counts path) in
    let next : (asked path before % 2 ^ 64 + 1) % 2 ^ 64 ≡ (asked path before + 1) % 2 ^ 64 =
      omega arith in
    (
      record {
        d_counts = put path ((asked path before + 1) % 2 ^ 64) (counted path l.d_counts);
        d_output_stream = l.d_output_stream ++ lines_after before ((path, address, port) ∷ []);
      },
      rw (found, next) refl,
      (λ p.
          let moved =
            lookup-put path p ((asked path before + 1) % 2 ^ 64) (counted path l.d_counts) in
          elim (Bool-cases (bytes_eq path p)) [
            | inl alike ↦
                let e : path ≡ p = (bytes_eq_iff path p).0 alike in
                ground (arith, moved, alike, ap (λ q. asked q before) e)
            | inr apart ↦ ground (arith, moved, apart, lookup-counted path p l.d_counts, counts p)
          ]),
      refl,
    )

log_all-lem :
    (before requests : List (Bytes × Bytes × ℕ)) (l : Logger)
    → ((p : Bytes) → count_of (lookup p l.d_counts) ≡ asked p before % 2 ^ 64)
    → (l' : Logger) × (log_all requests l ≡ ok l')
      × (l'.d_output_stream ≡ l.d_output_stream ++ lines_after before requests)
unfolding log_all
log_all-lem before [] l counts = (l, refl, sym (append-nil l.d_output_stream))
log_all-lem before ((path, address, port) ∷ requests) l counts =
    let (next, made, counts', written) = log_get-lem before path address port l counts in
    let (last, all, lines) = log_all-lem ((path, address, port) ∷ before) requests next counts' in
    (
      last,
      rw made all,
      lines
          ∙ ap (λ o. o ++ lines_after ((path, address, port) ∷ before) requests) written
          ∙ append_assoc l.d_output_stream _ _,
    )

-- A log has one line for each request, in order, with the number of requests for the same path up to
-- that one, modulo 2^64; no request makes it throw.
pub log_counts :
    (requests : List (Bytes × Bytes × ℕ))
    → (l : Logger) × (log_all requests (record { d_counts = []; d_output_stream = [] }) ≡ ok l)
      × (l.d_output_stream ≡ lines_after [] requests)
log_counts requests =
    log_all-lem [] requests (record { d_counts = []; d_output_stream = [] })
      (λ p. unfold lookup in refl)

pub log_get_ends :
    (path address : Bytes) (port : ℕ) (l : Logger)
    → (l' : Logger) × (log_get path address port l ≡ ok l')
unfolding log_get
log_get_ends path address port l =
    let found = lookup-counted path path l.d_counts in
    let same = (bytes_eq_iff path path).1 refl in
    let count = (count_of (lookup path l.d_counts) + 1) % 2 ^ 64 in
    (
      record {
        d_counts = put path count (counted path l.d_counts);
        d_output_stream =
            l.d_output_stream
            ++ record { path = path; address = address; port = port; count = count } ∷ [];
      },
      rw (found, same) refl,
    )
