-- ===== src/Http/Response.antt =====
-- The responses of http/include/http.hpp and http/src/http.cpp.
pub mod Rendered
use cs.Prelude.{ℕ, String, Option, none, some, List, [], ◌∷◌, ◌++◌}
use cs.Prelude.Eq.{Bytes, nat_eq}
use cs.Prelude.Decimal.{codes, decimal}
use cs.Prelude.Dict.{Dict, lookup}
use cs.Prelude.Outcome.{Outcome, ok, out_of_range, or_fault, ◌>>=◌}

abbrev pub crlf : Bytes
crlf = 13 ∷ 10 ∷ []

abbrev pub status_reasons : Dict ℕ String
status_reasons =
    (100, "Continue")
    ∷ (101, "Switching Protocols")
    ∷ (200, "OK")
    ∷ (201, "Created")
    ∷ (202, "Accepted")
    ∷ (203, "Non-Authoritative Information")
    ∷ (204, "No Content")
    ∷ (205, "Reset Content")
    ∷ (206, "Partial Content")
    ∷ (300, "Multiple Choices")
    ∷ (301, "Moved Permanently")
    ∷ (302, "Found")
    ∷ (303, "See Other")
    ∷ (304, "Not Modified")
    ∷ (305, "Use Proxy")
    ∷ (307, "Temporary Redirect")
    ∷ (400, "Bad Request")
    ∷ (401, "Unauthorized")
    ∷ (402, "Payment Required")
    ∷ (403, "Forbidden")
    ∷ (404, "Not Found")
    ∷ (405, "Method Not Allowed")
    ∷ (406, "Not Acceptable")
    ∷ (407, "Proxy Authentication Required")
    ∷ (408, "Request Time-out")
    ∷ (409, "Conflict")
    ∷ (410, "Gone")
    ∷ (411, "Length Required")
    ∷ (412, "Precondition Failed")
    ∷ (413, "Request Entity Too Large")
    ∷ (414, "Request-URI Too Large")
    ∷ (415, "Unsupported Media Type")
    ∷ (416, "Requested range not satisfiable")
    ∷ (417, "Expectation Failed")
    ∷ (500, "Internal Server Error")
    ∷ (501, "Not Implemented")
    ∷ (502, "Bad Gateway")
    ∷ (503, "Service Unavailable")
    ∷ (504, "Gateway Time-out")
    ∷ (505, "HTTP Version not supported")
    ∷ []

-- `file` is the content of an open file.
pub record HttpResponse : Type 0 where
  pub status_code : ℕ
  pub reason_phrase : Bytes
  pub response_headers : List (Bytes × Bytes)
  pub file : Option Bytes
  pub length : ℕ
  pub error_str : Bytes

-- The constructor without a reason phrase.
unfoldable pub response : ℕ → List (Bytes × Bytes) → Option Bytes → ℕ → Outcome HttpResponse
unfolding lookup
response status_code headers file length = do
  reason ← or_fault (lookup status_code status_reasons) out_of_range
  ok (record {
    status_code = status_code;
    reason_phrase = codes reason;
    response_headers = headers;
    file = file;
    length = length;
    error_str = [];
  })

abbrev pub header_lines : List (Bytes × Bytes) → Bytes
header_lines [] = crlf
header_lines (h ∷ hs) = h.0 ++ (codes ": " ++ (h.1 ++ (crlf ++ header_lines hs)))

abbrev pub status_line : HttpResponse → Bytes
status_line r =
    codes "HTTP/1.1" ++ (codes " " ++ (decimal r.status_code ++ (codes " " ++ r.reason_phrase)))

unfoldable pub make_header : HttpResponse → Bytes
make_header r = status_line r ++ (crlf ++ header_lines r.response_headers)
