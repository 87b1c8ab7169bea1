-- ===== src/Http/Request/Parsed.antt =====
-- A request that a client writes is read as it was meant (http/src/http.cpp).
use cs.Prelude.{
  ℕ, suc, ◌≡◌, refl, ap, ◌∙◌, false, ◌==◌, some, List, [], ◌∷◌, ◌++◌, drop, length, take-append,
  All, arith,
}
use cs.Prelude.Eq.{Bytes, bytes_eq, bytes_eq_instance}
use cs.Prelude.Dict.{Dict, emplace}
use cs.Prelude.Outcome.{ok}
use cs.Http.Request.{
  HttpParser, newline, cr_line, space, colon, get_lines, find, header_of, add_headers,
  parse_headers, path,
}

-- The text does not have the character.
abbrev pub IsFree : ℕ → Bytes → Type 0
IsFree c = All (λ x. (x == c) ≡ false)

find-append :
    (c : ℕ) (front back : Bytes) → IsFree c front → find c (front ++ c ∷ back) ≡ some (length front)
find-append c [] back h = ground arith
find-append c (x ∷ xs) back h = ground (arith, h.0, find-append c xs back h.1)

pub get_lines-append :
    (line rest : Bytes)
    → IsFree newline line
    → get_lines (line ++ newline ∷ rest) ≡ line ∷ get_lines rest
unfolding get_lines
get_lines-append [] rest h = refl
get_lines-append (x ∷ xs) rest h = rw (get_lines-append xs rest h.1, h.0) refl

-- A header as it is written, and one that can be.
abbrev pub written : Bytes × Bytes → Bytes
written h = h.0 ++ colon ∷ h.1

abbrev pub IsHeader : Bytes × Bytes → Type 0
IsHeader h = IsFree colon h.0 × IsFree newline (written h)

abbrev pub lines_of : List (Bytes × Bytes) → Bytes → Bytes
lines_of [] rest = rest
lines_of (h ∷ hs) rest = written h ++ newline ∷ lines_of hs rest

abbrev pub collect : List (Bytes × Bytes) → Dict Bytes Bytes → Dict Bytes Bytes
collect [] headers = headers
collect (h ∷ hs) headers = collect hs (emplace h.0 h.1 headers)

drop_past : (c : ℕ) (front back : Bytes) → drop (suc (length front)) (front ++ c ∷ back) ≡ back
drop_past c [] back = refl
drop_past c (x ∷ xs) back = drop_past c xs back

header_of-written : (h : Bytes × Bytes) → IsFree colon h.0 → header_of (written h) ≡ h
header_of-written (name, value) free =
    rw (find-append colon name value free, header_of)
      (cc (take-append name (colon ∷ value), drop_past colon name value))

-- A header is not the line that ends the headers.
written-ne-cr : (name value : Bytes) → bytes_eq (name ++ colon ∷ value) cr_line ≡ false
written-ne-cr [] value = ground arith
written-ne-cr (x ∷ []) value = ground arith
written-ne-cr (x ∷ y ∷ name) value = ground arith

pub add_headers-lines :
    (hs : List (Bytes × Bytes)) (body : Bytes) (headers : Dict Bytes Bytes)
    → All IsHeader hs
    → add_headers (get_lines (lines_of hs (cr_line ++ newline ∷ body))) headers ≡ collect hs headers
unfolding add_headers
add_headers-lines [] body headers h =
    ap (λ l. add_headers l headers) (get_lines-append cr_line body (refl, tt))
    ∙ unfold add_headers in refl
add_headers-lines ((name, value) ∷ hs) body headers h =
    let rest = lines_of hs (cr_line ++ newline ∷ body) in
    ap (λ l. add_headers l headers) (get_lines-append (name ++ colon ∷ value) rest h.0.1)
    ∙ rw (written-ne-cr name value, header_of-written (name, value) h.0.0, add_headers)
        (add_headers-lines hs body (emplace name value headers) h.1)

-- The request's text: its line, its headers, an empty line and a body.
abbrev pub request : Bytes → Bytes → Bytes → List (Bytes × Bytes) → Bytes → Bytes
request method target version hs body =
    (method ++ space ∷ (target ++ space ∷ version))
    ++ newline ∷ lines_of hs (cr_line ++ newline ∷ body)

path-of_line :
    (method target version : Bytes) (headers : Dict Bytes Bytes)
    → IsFree space method
    → IsFree space target
    → path
        (record { headers = headers; request_line = method ++ space ∷ (target ++ space ∷ version) })
      ≡ ok target
unfolding path
path-of_line method target version headers m_free t_free =
    rw
      (
        find-append space method (target ++ space ∷ version) m_free,
        drop_past space method (target ++ space ∷ version),
        find-append space target version t_free,
      )
      (ap ok (take-append target (space ∷ version)))

-- A request is parsed into its path and its headers, the first of those of one name, whatever its
-- body is: if the method and the path have no space, the first line and the headers no newline, and
-- the names of headers no colon.
pub request_parsed :
    (method target version : Bytes) (hs : List (Bytes × Bytes)) (body : Bytes)
    → IsFree space method
    → IsFree space target
    → IsFree newline (method ++ space ∷ (target ++ space ∷ version))
    → All IsHeader hs
    → (path (parse_headers (request method target version hs body)) ≡ ok target)
      × ((parse_headers (request method target version hs body)).headers ≡ collect hs [])
unfolding parse_headers path
request_parsed method target version hs body m_free t_free line_free headers =
    let line = method ++ space ∷ (target ++ space ∷ version) in
    let text = request method target version hs body in
    let split : get_lines text ≡ line ∷ get_lines (lines_of hs (cr_line ++ newline ∷ body)) =
      get_lines-append line (lines_of hs (cr_line ++ newline ∷ body)) line_free in
    let parsed : parse_headers text ≡ record { headers = collect hs []; request_line = line } =
      rw (split, add_headers-lines hs body [] headers, parse_headers) refl in
    (
      ap path parsed ∙ path-of_line method target version (collect hs []) m_free t_free,
      ap (λ (p : HttpParser). p.headers) parsed,
    )
