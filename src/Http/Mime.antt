-- ===== src/Http/Mime.antt =====
-- http/include/mimedb.hpp and http/src/mimedb.cpp: the table of file extensions.
use cs.Prelude.{
  ℕ, ◌≡◌, arith, Bool, true, false, not, ◌&&◌, ◌||◌, ◌==◌, leb, if◌then◌else◌, Option, none, some,
  List, [], ◌∷◌,
}
use cs.Prelude.Eq.{Bytes, beq, bytes_eq_iff, bytes_eq_instance}
use cs.Prelude.Dict.{Dict, lookup, emplace, lookup-emplace}
use cs.Http.Request.{get_lines}

pub record MimeDb : Type 0 where
  pub ext_to_type : Dict Bytes Bytes
  pub default_type : Bytes

abbrev pub is_space : ℕ → Bool
is_space c = c == 32 || (leb 9 c && leb c 13)

-- A match of "^\s*#.*", whose dot is any character but a line's end.
abbrev pub ends_line : ℕ → Bool
ends_line c = c == 10 || c == 13

abbrev pub no_line_end : Bytes → Bool
no_line_end [] = true
no_line_end (c ∷ s) = not (ends_line c) && no_line_end s

abbrev pub is_comment : Bytes → Bool
is_comment [] = false
is_comment (c ∷ s) =
    let rest = is_comment s in if c == 35 then no_line_end s else if is_space c then rest else false

-- The tokens between the matches of "\s+" after a token has begun, or in a gap; no token follows the
-- last gap.
abbrev pub tokens_from : Bool → Bytes → List Bytes
tokens_from in_gap [] = []
tokens_from in_gap (c ∷ s) =
    let gap = tokens_from true s in
    let word = tokens_from false s in
    if is_space c
    then (if in_gap then gap else [] ∷ gap)
    else elim word [ [] ↦ (c ∷ []) ∷ [] | t ∷ ts ↦ (c ∷ t) ∷ ts ]

-- The first token, which is the type, and the others; the only token of an empty line is empty.
abbrev pub tokens : Bytes → Bytes × List Bytes
tokens line = elim (tokens_from false line) [ [] ↦ ([], []) | t ∷ ts ↦ (t, ts) ]

abbrev pub insert_all : List Bytes → Bytes → Dict Bytes Bytes → Dict Bytes Bytes
insert_all [] mime_type d = d
insert_all (t ∷ ts) mime_type d = insert_all ts mime_type (emplace t mime_type d)

-- The loop over the lines; the type itself is the first token to be inserted.
unfoldable pub add_lines : List Bytes → Dict Bytes Bytes → Dict Bytes Bytes
add_lines [] d = d
add_lines (line ∷ lines) d =
    let (mime_type, exts) = tokens line in
    add_lines lines (if is_comment line then d else insert_all (mime_type ∷ exts) mime_type d)

unfoldable pub load : Bytes → Bytes → MimeDb
unfolding get_lines add_lines
load text default_type = record {
  ext_to_type = add_lines (get_lines text) [];
  default_type = default_type;
}

unfoldable pub mime_of_ext : Bytes → MimeDb → Bytes
mime_of_ext ext db = elim (lookup ext db.ext_to_type) [
  | none ↦ db.default_type
  | some mime_type ↦ mime_type
]

-- The type of the first line, of those that are no comments, that has the extension.
abbrev pub has : Bytes → List Bytes → Bool
has ext [] = false
has ext (t ∷ ts) = beq t ext || has ext ts

abbrev pub first_type : Bytes → Bytes → List Bytes → Bytes
first_type default_type ext [] = default_type
first_type default_type ext (line ∷ lines) =
    let (mime_type, exts) = tokens line in
    let later = first_type default_type ext lines in
    if is_comment line then later else if has ext (mime_type ∷ exts) then mime_type else later

lookup-insert_all :
    (ts : List Bytes) (mime_type ext : Bytes) (d : Dict Bytes Bytes)
    → lookup ext (insert_all ts mime_type d)
      ≡ elim (lookup ext d) [ some t ↦ some t | none ↦ if has ext ts then some mime_type else none ]
lookup-insert_all [] mime_type ext d = ground arith
lookup-insert_all (t ∷ ts) mime_type ext d = ground (
  arith,
  lookup-insert_all ts mime_type ext (emplace t mime_type d),
  lookup-emplace t ext mime_type d,
  bytes_eq_iff t ext,
)

abbrev or_type : Bytes → Option Bytes → Bytes
or_type default_type none = default_type
or_type default_type (some t) = t

add_lines-first_type :
    (lines : List Bytes) (default_type ext : Bytes) (d : Dict Bytes Bytes)
    → or_type default_type (lookup ext (add_lines lines d))
      ≡ elim (lookup ext d) [ some t ↦ t | none ↦ first_type default_type ext lines ]
unfolding add_lines
add_lines-first_type [] default_type ext d = ground arith
add_lines-first_type (line ∷ lines) default_type ext d =
    let (mime_type, exts) = tokens line in
    let d' = insert_all (mime_type ∷ exts) mime_type d in
    ground (
      arith,
      add_lines-first_type lines default_type ext d,
      add_lines-first_type lines default_type ext d',
      lookup-insert_all (mime_type ∷ exts) mime_type ext d,
    )

-- The type of an extension is that of the first line that has it, be it the line's type or one of
-- its extensions, and the default if no line has it.
pub mime_of_ext-load :
    (text default_type ext : Bytes)
    → mime_of_ext ext (load text default_type) ≡ first_type default_type ext (get_lines text)
unfolding mime_of_ext load lookup
mime_of_ext-load text default_type ext =
    ground (arith, add_lines-first_type (get_lines text) default_type ext [])
