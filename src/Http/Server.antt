-- ===== src/Http/Server.antt =====
-- http/src/server.cpp: how a request is served. The file system and the times are arguments; what is
-- written to the terminal is left out, and a send is taken to succeed.
pub mod Served
use cs.Prelude.{
  ℕ, Bool, true, false, not, ◌||◌, ◌==◌, ltb, if◌then◌else◌, Option, none, some, List, [], ◌∷◌,
  ◌++◌, drop, take,
}
use cs.Prelude.Eq.{Bytes}
use cs.Prelude.Decimal.{codes, decimal}
use cs.Prelude.Outcome.{
  Outcome, ok, fault, Fault, runtime_error, http_exception, socket_exception, socket_closed,
  or_fault, ◌>>=◌,
}
use cs.Http.Request.{HttpParser, parse_headers, path}
use cs.Http.Response.{HttpResponse, response, make_header}
use cs.Http.Socket.{Received, recv}
use cs.Http.Log.{Logger, log_get}
use cs.Http.Hosts.{PeerInfo}
use cs.Http.Mime.{MimeDb, mime_of_ext}

-- What the server asks the file system, each for a path: `extension` has its leading dot, `modified`
-- is the text of the last write's time, and `open_file` is the content of the file where it can be
-- opened. Where a size or a time has no value, a `filesystem_error` is thrown, which is a
-- `runtime_error`.
pub record FileSystem : Type 0 where
  pub exists_path : Bytes → Bool
  pub is_directory : Bytes → Bool
  pub extension : Bytes → Bytes
  pub file_size : Bytes → Option ℕ
  pub modified : Bytes → Option Bytes
  pub open_file : Bytes → Option Bytes

pub record HttpServer : Type 0 where
  pub base_path : Bytes
  pub mimedb : MimeDb
  pub logger : Logger

abbrev pub is_absolute : Bytes → Bool
is_absolute [] = false
is_absolute (c ∷ s) = c == 47

abbrev pub no_content : List (Bytes × Bytes)
no_content = (codes "Content-Length", codes "0") ∷ []

abbrev pub overloaded : Outcome HttpResponse
overloaded = do
  r ← response 503 ((codes "Content-Length", decimal 17) ∷ []) none 0
  ok (record r { error_str = codes "Server overloaded" })

-- The response for a file that is there.
unfoldable pub respond : FileSystem → HttpServer → Bytes → Outcome HttpResponse
unfolding response mime_of_ext
respond fs s full_path = do
  size ← or_fault (fs.file_size full_path) (runtime_error "")
  last_modified ← or_fault (fs.modified full_path) (runtime_error "")
  let headers =
      (codes "Content-Type", mime_of_ext (drop 1 (fs.extension full_path)) s.mimedb)
      ∷ (codes "Content-Length", decimal size)
      ∷ (codes "Last-Modified", last_modified)
      ∷ []
  elim (fs.open_file full_path) [
    | none ↦ overloaded
    | some content ↦ response 200 headers (some content) size
  ]

-- The path is appended to the base as it is. The request is logged once the file is known to be there.
unfoldable pub serve_get :
    FileSystem → HttpServer → HttpParser → PeerInfo → HttpServer × Outcome HttpResponse
unfolding path response log_get respond
serve_get fs s parser peer = elim (path parser) [
  | fault e ↦ (s, fault e)
  | ok p ↦
      let full_path = s.base_path ++ p in
      if not (is_absolute p)
      then (s, response 400 no_content none 0)
      else if not (fs.exists_path full_path) || fs.is_directory full_path
      then (s, response 404 no_content none 0)
      else elim (log_get p peer.address peer.port s.logger) [
        | fault e ↦ (s, fault e)
        | ok logger ↦
            let logged = record s { logger = logger } in (logged, respond fs logged full_path)
      ]
]

-- The headers that `send_response` adds, with the time's text.
abbrev pub dated : Bytes → HttpResponse → HttpResponse
dated date r = record r {
  response_headers =
      r.response_headers
      ++ (codes "Date", date)
        ∷ (codes "Connection", codes "keep-alive")
        ∷ (codes "Server", codes "trashttpd/1.0.0 (GNU+Linux)")
        ∷ [];
}

-- `sendfile` of a file that has `length` bytes or more.
abbrev pub body_of : HttpResponse → Bytes
body_of r =
    if ltb r.status_code 400
    then elim r.file [ none ↦ [] | some content ↦ take r.length content ]
    else r.error_str

unfoldable pub send_response : Bytes → HttpResponse → Bytes
unfolding make_header
send_response date r = make_header (dated date r) ++ body_of r

-- The header of a response without a file; no other status is used than those of the table.
abbrev pub header_of_status : ℕ → List (Bytes × Bytes) → Bytes
header_of_status status headers = elim (response status headers none 0) [
  | ok r ↦ make_header r
  | fault e ↦ []
]

-- What a handler of `conn_acceptor` sends, and whether the connection goes on. An exception that is
-- none of these ends the connection in the outer handler.
abbrev pub caught : Fault → Bytes × Bool
caught (http_exception what) = (header_of_status 400 [], true)
caught (runtime_error what) = (header_of_status 500 no_content, false)
caught _ = ([], false)

-- One round of the loop of `conn_acceptor`, with what `get_peer_info` returns, and throws.
unfoldable pub serve_once :
    FileSystem → HttpServer → Bytes → Outcome PeerInfo → Received → HttpServer × (Bytes × Bool)
unfolding parse_headers serve_get send_response response make_header
serve_once fs s date peer_info r =
    elim (do text ← recv r; peer ← peer_info; ok (serve_get fs s (parse_headers text) peer)) [
      | fault e ↦ (s, caught e)
      | ok served ↦ elim served.1 [
        | ok resp ↦ (served.0, (send_response date resp, true))
        | fault e ↦ (served.0, caught e)
      ]
    ]

-- The loop, on what is received in turn: the server with its log, and what is sent.
unfoldable pub conn_acceptor :
    FileSystem → HttpServer → Bytes → Outcome PeerInfo → List Received → HttpServer × Bytes
unfolding serve_once
conn_acceptor fs s date peer_info [] = (s, [])
conn_acceptor fs s date peer_info (r ∷ rs) =
    let (s', (sent, goes_on)) = serve_once fs s date peer_info r in
    let (last, rest) = conn_acceptor fs s' date peer_info rs in
    if goes_on then (last, sent ++ rest) else (s', sent)
