-- ===== src/Http/Examples.antt =====
-- Examples of the web server.
mod Objects
use cs.Prelude.{
  ℕ, suc, Bool, not, ◌&&◌, ◌==◌, ◌≡◌, refl, arith, true, false, some, none, Option, List, [], ◌∷◌,
  ◌++◌, All, replicate, map, ◌+◌, length,
}
use cs.Prelude.Eq.{Bytes}
use cs.Prelude.Decimal.{codes, decimal}
use cs.Prelude.Outcome.{ok}
use cs.Http.Request.{cr_line, find, parse_headers, path}
use cs.Http.Request.Parsed.{IsFree, IsHeader, request, collect, request_parsed}
use cs.Http.Response.{HttpResponse, status_line, make_header}
use cs.Http.Response.Rendered.{as_read, response_parsed}
use cs.Http.Socket.{took, Progress, send, send_file, bytes, recv_msg}
use cs.Http.Socket.Sends.{send_complete, send_file_stuck, recv_msg_never}
use cs.Http.Mime.{load, mime_of_ext, first_type, mime_of_ext-load}
use cs.Http.Request.{get_lines}
use cs.Http.Server.{FileSystem, HttpServer, dated}
use cs.Http.Hosts.{PeerInfo}

abbrev all_free : ℕ → Bytes → Bool
all_free c [] = true
all_free c (x ∷ xs) = not (x == c) && all_free c xs

all_free-IsFree : (c : ℕ) (xs : Bytes) → all_free c xs ≡ true → IsFree c xs
all_free-IsFree c [] h = tt
all_free-IsFree c (x ∷ xs) h = (ground (arith, h), all_free-IsFree c xs (ground (arith, h)))

abbrev get : Bytes
get = codes "GET"

abbrev target : Bytes
target = codes "/a.txt"

abbrev version : Bytes
version = codes "HTTP/1.1"

abbrev host : List (Bytes × Bytes)
host = (codes "H", codes " x") ∷ []

host-IsHeader : All IsHeader host
host-IsHeader = ((all_free-IsFree 58 (codes "H") refl, all_free-IsFree 10 (codes "H: x") refl), tt)

request_parsed_example :
    (path (parse_headers (request get target version host (codes "b"))) ≡ ok target)
    × ((parse_headers (request get target version host (codes "b"))).headers ≡ collect host [])
request_parsed_example =
    request_parsed get target version host (codes "b") (all_free-IsFree 32 get refl)
      (all_free-IsFree 32 target refl) (all_free-IsFree 10 (codes "GET /a.txt HTTP/1.1") refl)
      host-IsHeader

abbrev reply : HttpResponse
reply = record {
  status_code = 200;
  reason_phrase = codes "OK";
  response_headers = (codes "Date", codes "now") ∷ [];
  file = none;
  length = 0;
  error_str = [];
}

response_parsed_example :
    ((parse_headers (make_header reply)).request_line ≡ status_line reply ++ cr_line)
    × ((parse_headers (make_header reply)).headers
        ≡ collect (map as_read reply.response_headers) [])
unfolding decimal
response_parsed_example =
    response_parsed reply (all_free-IsFree 10 (status_line reply ++ cr_line) refl) (
      (
        all_free-IsFree 58 (codes "Date") refl,
        all_free-IsFree 10 (codes "Date: now" ++ cr_line) refl,
      ),
      tt,
    )

abbrev sent : Progress
sent = record { wire = 1 ∷ 2 ∷ 3 ∷ []; to_send = [] }

send_complete_example : sent.wire ≡ 1 ∷ 2 ∷ 3 ∷ []
unfolding send
send_complete_example =
    send_complete (took 2 ∷ took 1 ∷ took 1 ∷ []) (1 ∷ 2 ∷ 3 ∷ []) sent refl (omega arith)

abbrev five : Bytes
five = codes "12345"

send_file_stuck_example :
    (left : ℕ) × (send_file (map took (3 ∷ 2 ∷ []) ++ replicate 5 (took 0)) 8 ≡ ok (suc left))
    × (length five + suc left ≡ 8)
send_file_stuck_example = send_file_stuck five (3 ∷ 2 ∷ []) 5 8 refl (omega arith)

abbrev first_cr : Bytes → Option ℕ
first_cr b = elim (find 13 b) [ none ↦ none | some i ↦ some (suc i) ]

abbrev waits : Option (Bytes × Bytes)
waits = none

recv_msg_never_example : waits ≡ none
unfolding recv_msg
recv_msg_never_example = recv_msg_never first_cr (bytes (1 ∷ []) ∷ bytes (2 ∷ []) ∷ []) waits refl

abbrev types : Bytes
types = codes "# types\ntext/html html htm\ntext/plain txt\n"

mime_of_ext-load_example :
    mime_of_ext (codes "txt") (load types (codes "other"))
    ≡ first_type (codes "other") (codes "txt") (get_lines types)
mime_of_ext-load_example = mime_of_ext-load types (codes "other") (codes "txt")

abbrev content : Bytes
content = codes "hello"

abbrev one_file : FileSystem
one_file = record {
  exists_path = λ p. true;
  is_directory = λ p. false;
  extension = λ p. codes ".txt";
  file_size = λ p. some 5;
  modified = λ p. some (codes "then");
  open_file = λ p. some content;
}

abbrev server : HttpServer
server = record {
  base_path = codes "/www";
  mimedb = record { ext_to_type = []; default_type = codes "other" };
  logger = record { d_counts = []; d_output_stream = [] };
}

abbrev caller : PeerInfo
caller = record { port = 1024; address = codes "10.0.0.9" }
