-- ===== src/Http/Server/Served.antt =====
-- From the text of a request to the bytes of its response (http/src/server.cpp).
use cs.Prelude.{◌&&◌, true, false, not, if◌then◌else◌, Bool, none, some, [], ◌∷◌, ◌++◌, take, drop}
use cs.Prelude.Eq.{Bytes}
use cs.Prelude.Decimal.{codes, decimal}
use cs.Prelude.Outcome.{Outcome, ok, fault}
use cs.Http.Response.{HttpResponse, response}
use cs.Http.Mime.{mime_of_ext}
use cs.Http.Log.{Logger}
use cs.Http.Server.{FileSystem, HttpServer, is_absolute, respond, send_response, no_content, caught}

-- A line of a header with the text behind it.
abbrev pub field : Bytes → Bytes → Bytes → Bytes
field title value rest = title ++ (value ++ (13 ∷ 10 ∷ rest))

-- The lines that every response but that of an error ends with.
abbrev pub ending : Bytes → Bytes
ending date = field (codes "Date: ") date (
    field (codes "Connection: ") (codes "keep-alive")
      (field (codes "Server: ") (codes "trashttpd/1.0.0 (GNU+Linux)") (13 ∷ 10 ∷ [])))

-- A header and a body.
abbrev pub empty_answer : Bytes → Bytes → Bytes
empty_answer status date =
    field (codes "HTTP/1.1 ") status (field (codes "Content-Length: ") (codes "0") (ending date))
    ++ []

abbrev pub server_error : Bytes
server_error =
    field (codes "HTTP/1.1 ") (codes "500 Internal Server Error")
      (field (codes "Content-Length: ") (codes "0") (13 ∷ 10 ∷ []))

abbrev pub overloaded_answer : Bytes → Bytes
overloaded_answer date =
    field (codes "HTTP/1.1 ") (codes "503 Service Unavailable")
      (field (codes "Content-Length: ") (codes "17") (ending date))
    ++ codes "Server overloaded"

-- The answer for a file that is there: its size, its time and its content, where they can be had.
abbrev pub file_answer : FileSystem → HttpServer → Bytes → Bytes → Bytes × Bool
file_answer fs s date file = elim (fs.file_size file) [
  | none ↦ (server_error, false)
  | some size ↦ elim (fs.modified file) [
    | none ↦ (server_error, false)
    | some modified ↦ elim (fs.open_file file) [
      | none ↦ (overloaded_answer date, true)
      | some content ↦ (
        field (codes "HTTP/1.1 ") (codes "200 OK") (
              field (codes "Content-Type: ") (mime_of_ext (drop 1 (fs.extension file)) s.mimedb) (
                field (codes "Content-Length: ") (decimal size)
                  (field (codes "Last-Modified: ") modified (ending date))))
            ++ take size content,
        true,
      )
    ]
  ]
]

abbrev pub is_there : FileSystem → HttpServer → Bytes → Bool
is_there fs s target =
    is_absolute target
    && (fs.exists_path (s.base_path ++ target) && not (fs.is_directory (s.base_path ++ target)))

-- The bytes that are sent, and whether the connection goes on.
abbrev pub answer : FileSystem → HttpServer → Bytes → Bytes → Bytes × Bool
answer fs s date target =
    if is_there fs s target
    then file_answer fs s date (s.base_path ++ target)
    else if is_absolute target
    then (empty_answer (codes "404 Not Found") date, true)
    else (empty_answer (codes "400 Bad Request") date, true)

-- What `serve_once` makes of a response.
abbrev pub sends : Bytes → HttpServer × Outcome HttpResponse → HttpServer × (Bytes × Bool)
sends date served = elim served.1 [
  | ok resp ↦ (served.0, (send_response date resp, true))
  | fault e ↦ (served.0, caught e)
]

abbrev served_as : FileSystem → HttpServer → Bytes → Logger → HttpServer × Outcome HttpResponse
served_as fs s target l =
    let logged = record s { logger = l } in
    if is_there fs s target
    then (logged, respond fs logged (s.base_path ++ target))
    else if is_absolute target
    then (s, response 404 no_content none 0)
    else (s, response 400 no_content none 0)
