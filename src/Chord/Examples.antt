-- ===== src/Chord/Examples.antt =====
-- Examples of the ring and of its files.
mod Rings
use cs.Prelude.{
  ℕ, ◌≡◌, ◌⊎◌, refl, arith, some, [], ◌∷◌, ◌++◌, length, take, drop, take-append, drop-append, All,
}
use cs.Prelude.Eq.{Bytes}
use cs.Prelude.Outcome.{ok}
use cs.Prelude.Dict.{lookup}
use cs.Kv.Codec.{Codec}
use cs.Chord.Hash.{Hash}
use cs.Chord.Node.{NodeId, LocalNode, asks, find_successor, is_successor}
use cs.Chord.Node.Owner.{owners, one_owner}
use cs.Chord.Node.Finger.{IsClosest, IsOutside, find_successor-IsClosest}
use cs.Chord.Files.{Metadata, RFile, Handler, read_file}
use cs.Chord.Files.Versions.{kept, write_all, versions_counted}

-- A hash that is the name.
instance abbrev pub plain : Hash
plain = record { sha256 = λ b. b }

-- A field behind its length.
abbrev field : Bytes → Bytes
field b = length b ∷ b

abbrev first_field : Bytes → Bytes × Bytes
first_field [] = ([], [])
first_field (n ∷ rest) = (take n rest, drop n rest)

abbrev first_number : Bytes → ℕ × Bytes
first_number [] = (0, [])
first_number (n ∷ rest) = (n, rest)

abbrev to_disk : RFile → Bytes
to_disk f =
    f.meta.version
    ∷ (field f.meta.filename ++ (field f.meta.owner ++ (field f.meta.content_hash ++ f.content)))

abbrev from_disk : Bytes → RFile
from_disk b =
    let (version, r₁) = first_number b in
    let (filename, r₂) = first_field r₁ in
    let (owner, r₃) = first_field r₂ in
    let (hash, content) = first_field r₃ in
    record {
      meta = record { filename = filename; version = version; owner = owner; content_hash = hash };
      content = content;
    }

from_disk-to_disk : (f : RFile) → from_disk (to_disk f) ≡ f
from_disk-to_disk f =
    let r₃ = field f.meta.content_hash ++ f.content in
    let r₂ = field f.meta.owner ++ r₃ in
    rw
      (
        take-append f.meta.filename r₂,
        drop-append f.meta.filename r₂,
        take-append f.meta.owner r₃,
        drop-append f.meta.owner r₃,
        take-append f.meta.content_hash f.content,
        drop-append f.meta.content_hash f.content,
      )
      refl

instance abbrev disk : Codec RFile
disk = record { serialize = to_disk; parse = from_disk; parse-serialize = from_disk-to_disk }

abbrev node : Bytes → NodeId
node id = record { id = id; ip = []; port = 0 }

abbrev n1 : NodeId
n1 = node (10 ∷ [])

abbrev n2 : NodeId
n2 = node (20 ∷ [])

abbrev n3 : NodeId
n3 = node (30 ∷ [])

one_owner_example : owners (15 ∷ []) n1 (n2 ∷ n3 ∷ []) ≡ 1
one_owner_example = one_owner (15 ∷ []) n1 (n2 ∷ n3 ∷ []) (refl, (refl, tt))

abbrev first_node : LocalNode
first_node = record { node = n1; fingertable = n2 ∷ n3 ∷ []; predecessor = some n3; calls = [] }

abbrev alone : Handler
alone = record {
  node = record { node = n1; fingertable = n1 ∷ []; predecessor = some n1; calls = [] };
  files = [];
}

abbrev meta : Metadata
meta = record { filename = 97 ∷ []; version = 0; owner = 98 ∷ []; content_hash = [] }

versions_counted_example :
    (s : Handler) × (write_all meta ((1 ∷ []) ∷ (2 ∷ []) ∷ (3 ∷ []) ∷ []) alone ≡ ok s)
    × (read_file (97 ∷ []) (98 ∷ []) s ≡ ok (kept meta (3 ∷ []) 2))
unfolding is_successor lookup
versions_counted_example =
    versions_counted meta ((1 ∷ []) ∷ (2 ∷ []) ∷ []) (3 ∷ []) alone refl refl (omega arith)
