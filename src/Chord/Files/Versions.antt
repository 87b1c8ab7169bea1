-- ===== src/Chord/Files/Versions.antt =====
-- The versions of a file (writeFile and readFile of chord/src/FileStore_server.cpp).
use cs.Prelude.{
  ℕ, ◌+◌, ◌^◌, ◌<◌, ◌≡◌, refl, ap, ◌∙◌, true, none, some, List, [], ◌∷◌, ◌++◌, length, arith,
}
use cs.Prelude.Eq.{Bytes, bytes_eq_instance}
use cs.Prelude.Dict.{lookup, put, lookup-put, beq_refl}
use cs.Prelude.Outcome.{Outcome, ok, ◌>>=◌}
use cs.Kv.Codec.{Codec}
use cs.Chord.Hash.{Hash}
use cs.Chord.Node.{is_successor}
use cs.Chord.Files.{Metadata, RFile, Handler, file_id, read_file, version_of, write_file}

module _ ⦃h : Hash⦄ ⦃thrift : Codec RFile⦄ where
  -- What a write with this version keeps.
  abbrev pub kept : Metadata → Bytes → ℕ → RFile
  kept meta content version = record {
    meta = record meta { version = version; content_hash = h.sha256 content };
    content = content;
  }

  abbrev stored : Metadata → Bytes → ℕ → Handler → Handler
  stored meta content version s = record s {
    files =
        put (file_id meta.filename meta.owner) (thrift.serialize (kept meta content version))
          s.files;
  }

  write_once :
      (meta : Metadata) (content : Bytes) (v : ℕ) (s : Handler)
      → is_successor (file_id meta.filename meta.owner) s.node ≡ ok true
      → version_of meta.filename meta.owner s ≡ ok v
      → write_file (record { meta = meta; content = content }) s ≡ ok (stored meta content v s)
  unfolding write_file
  write_once meta content v s mine versioned = rw (mine, versioned, write_file) refl

  read_stored :
      (meta : Metadata) (content : Bytes) (v : ℕ) (s : Handler)
      → is_successor (file_id meta.filename meta.owner) s.node ≡ ok true
      → read_file meta.filename meta.owner (stored meta content v s) ≡ ok (kept meta content v)
  unfolding read_file
  read_stored meta content v s mine =
      let id = file_id meta.filename meta.owner in
      let bytes = thrift.serialize (kept meta content v) in
      let there : lookup id (put id bytes s.files) ≡ some bytes =
        ground (arith, lookup-put id id bytes s.files, beq_refl id) in
      rw (mine, there, read_file) (ap ok (thrift.parse-serialize (kept meta content v)))

  version_stored :
      (meta : Metadata) (content : Bytes) (v : ℕ) (s : Handler)
      → is_successor (file_id meta.filename meta.owner) s.node ≡ ok true
      → v + 1 < 2 ^ 31
      → version_of meta.filename meta.owner (stored meta content v s) ≡ ok (v + 1)
  unfolding version_of
  version_stored meta content v s mine small =
      let id = file_id meta.filename meta.owner in
      let bytes = thrift.serialize (kept meta content v) in
      let there : lookup id (put id bytes s.files) ≡ some bytes =
        ground (arith, lookup-put id id bytes s.files, beq_refl id) in
      rw (there, read_stored meta content v s mine, version_of) (ground arith)

  unfoldable pub write_all : Metadata → List Bytes → Handler → Outcome Handler
  write_all meta [] s = ok s
  write_all meta (content ∷ contents) s = do
    s' ← write_file (record { meta = meta; content = content }) s
    write_all meta contents s'

  write_all-lem :
      (meta : Metadata) (contents : List Bytes) (last : Bytes) (v : ℕ) (s : Handler)
      → is_successor (file_id meta.filename meta.owner) s.node ≡ ok true
      → version_of meta.filename meta.owner s ≡ ok v
      → v + length contents < 2 ^ 31
      → (s' : Handler) × (write_all meta (contents ++ last ∷ []) s ≡ ok s')
        × (read_file meta.filename meta.owner s' ≡ ok (kept meta last (v + length contents)))
  unfolding write_all
  write_all-lem meta [] last v s mine versioned small = (
    stored meta last v s,
    rw (write_once meta last v s mine versioned, write_all) refl,
    read_stored meta last v s mine ∙ ap (λ n. ok (kept meta last n)) (omega arith),
  )
  write_all-lem meta (content ∷ contents) last v s mine versioned small =
      let (s', done, got) =
        write_all-lem meta contents last (v + 1) (stored meta content v s) mine
          (version_stored meta content v s mine (omega arith)) (omega arith) in
      (
        s',
        rw (write_once meta content v s mine versioned, write_all) done,
        got ∙ ap (λ n. ok (kept meta last n)) (omega arith),
      )

  -- On the node that owns a file that is not there yet, successive writes all succeed, and a read
  -- then gives the last content with its hash and with one version less than there were writes.
  pub versions_counted :
      (meta : Metadata) (contents : List Bytes) (last : Bytes) (s : Handler)
      → is_successor (file_id meta.filename meta.owner) s.node ≡ ok true
      → lookup (file_id meta.filename meta.owner) s.files ≡ none
      → length contents < 2 ^ 31
      → (s' : Handler) × (write_all meta (contents ++ last ∷ []) s ≡ ok s')
        × (read_file meta.filename meta.owner s' ≡ ok (kept meta last (length contents)))
  unfolding version_of
  versions_counted meta contents last s mine absent small =
      let first : version_of meta.filename meta.owner s ≡ ok 0 = rw (absent, version_of) refl in
      let (s', done, got) = write_all-lem meta contents last 0 s mine first (omega arith) in
      (s', done, got ∙ ap (λ n. ok (kept meta last n)) (omega arith))
