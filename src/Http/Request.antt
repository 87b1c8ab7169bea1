-- ===== src/Http/Request.antt =====
-- The parser of http/src/http.cpp.
pub mod Parsed
use cs.Prelude.{
  ℕ, suc, ◌+◌, Bool, true, false, ◌==◌, if◌then◌else◌, Option, none, some, List, [], ◌∷◌, ◌++◌,
  take, drop, map,
}
use cs.Prelude.Eq.{Bytes, bytes_eq, bytes_eq_instance}
use cs.Prelude.Dict.{Dict, emplace}
use cs.Prelude.Outcome.{Outcome, ok, fault, http_exception, or_fault, ◌>>=◌}

abbrev pub newline : ℕ
newline = 10

abbrev pub cr_line : Bytes
cr_line = 13 ∷ []

abbrev pub space : ℕ
space = 32

abbrev pub colon : ℕ
colon = 58

pub record HttpParser : Type 0 where
  pub headers : Dict Bytes Bytes
  pub request_line : Bytes

abbrev pub add_char : ℕ → List Bytes → List Bytes
add_char c [] = (c ∷ []) ∷ []
add_char c (line ∷ lines) = (c ∷ line) ∷ lines

-- What `std::getline` gives until it fails.
unfoldable pub get_lines : Bytes → List Bytes
get_lines [] = []
get_lines (c ∷ s) = let rest = get_lines s in if c == newline then [] ∷ rest else add_char c rest

-- `std::string::find` of a character.
abbrev pub find : ℕ → Bytes → Option ℕ
find c [] = none
find c (x ∷ xs) =
    if x == c then some 0 else elim (find c xs) [ none ↦ none | some i ↦ some (suc i) ]

-- The name and the value of a line; a line without a colon is both.
abbrev pub header_of : Bytes → Bytes × Bytes
header_of line = elim (find colon line) [
  | none ↦ (line, line)
  | some pos ↦ (take pos line, drop (suc pos) line)
]

unfoldable pub add_headers : List Bytes → Dict Bytes Bytes → Dict Bytes Bytes
add_headers [] headers = headers
add_headers (line ∷ lines) headers =
    let rest = add_headers lines (emplace (header_of line).0 (header_of line).1 headers) in
    if bytes_eq line cr_line then headers else rest

unfoldable pub parse_headers : Bytes → HttpParser
unfolding get_lines add_headers
parse_headers text = elim (get_lines text) [
  | [] ↦ record { headers = []; request_line = [] }
  | line ∷ lines ↦ record { headers = add_headers lines []; request_line = line }
]

unfoldable pub path : HttpParser → Outcome Bytes
path p = do
  start_pos ← or_fault (find space p.request_line) (http_exception "Invalid headline encountered")
  let rest = drop (suc start_pos) p.request_line
  length ← or_fault (find space rest) (http_exception "Invalid headline encountered")
  ok (take length rest)
