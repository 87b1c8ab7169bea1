-- ===== src/Http/Response/Rendered.antt =====
-- A response's header is read as the server means it (http/src/http.cpp).
use cs.Prelude.{◌≡◌, refl, ap, sym, ◌∙◌, List, [], ◌∷◌, ◌++◌, map, All, append_assoc}
use cs.Prelude.Eq.{Bytes, bytes_eq_instance}
use cs.Prelude.Decimal.{codes}
use cs.Http.Request.{newline, cr_line, parse_headers, get_lines}
use cs.Http.Request.Parsed.{
  IsFree, IsHeader, written, lines_of, collect, get_lines-append, add_headers-lines,
}
use cs.Http.Response.{HttpResponse, crlf, header_lines, status_line, make_header}

-- A header with the space before and the carriage return after its value that the parser keeps.
abbrev pub as_read : Bytes × Bytes → Bytes × Bytes
as_read h = (h.0, 32 ∷ (h.1 ++ cr_line))

one_line :
    (name value rest : Bytes)
    → name ++ (codes ": " ++ (value ++ (crlf ++ rest)))
      ≡ written (as_read (name, value)) ++ newline ∷ rest
one_line name value rest =
    rw
      (
        append_assoc name (58 ∷ 32 ∷ (value ++ cr_line)) (newline ∷ rest),
        append_assoc value cr_line (newline ∷ rest),
      )
      refl

header_lines-eq-lines_of :
    (hs : List (Bytes × Bytes))
    → header_lines hs ≡ lines_of (map as_read hs) (cr_line ++ newline ∷ [])
header_lines-eq-lines_of [] = refl
header_lines-eq-lines_of (h ∷ hs) =
    let rest = lines_of (map as_read hs) (cr_line ++ newline ∷ []) in
    ap (λ l. h.0 ++ (codes ": " ++ (h.1 ++ (crlf ++ l)))) (header_lines-eq-lines_of hs)
    ∙ one_line h.0 h.1 rest

-- What the server's own parser makes of the header of a response: the status line and the headers,
-- the first of those of one name, each with the blank before and the carriage return after its
-- value; if none of them has a newline, and no name has a colon.
pub response_parsed :
    (r : HttpResponse)
    → IsFree newline (status_line r ++ cr_line)
    → All IsHeader (map as_read r.response_headers)
    → ((parse_headers (make_header r)).request_line ≡ status_line r ++ cr_line)
      × ((parse_headers (make_header r)).headers ≡ collect (map as_read r.response_headers) [])
unfolding parse_headers make_header
response_parsed r line_free headers =
    let hs = map as_read r.response_headers in
    let end = lines_of hs (cr_line ++ newline ∷ []) in
    let text : make_header r ≡ (status_line r ++ cr_line) ++ newline ∷ end =
      ap (λ l. status_line r ++ (crlf ++ l)) (header_lines-eq-lines_of r.response_headers)
      ∙ sym (append_assoc (status_line r) cr_line (newline ∷ end)) in
    let split : get_lines (make_header r) ≡ (status_line r ++ cr_line) ∷ get_lines end =
      ap get_lines text ∙ get_lines-append (status_line r ++ cr_line) end line_free in
    (rw (split, parse_headers) refl, rw (split, parse_headers) (add_headers-lines hs [] [] headers))
