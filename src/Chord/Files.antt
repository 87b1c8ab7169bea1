-- ===== src/Chord/Files.antt =====
-- chord/src/FileStore_server.cpp: the files of a node. A file is kept under the hash of its name and
-- owner; what Thrift makes of it on the disk is a parameter. The mutex makes each call one step.
pub mod Versions
use cs.Prelude.{ℕ, ◌+◌, ◌^◌, ◌≡◌, not, ltb, if◌then◌else◌, Option, none, some, List, ◌++◌}
use cs.Prelude.Eq.{Bytes, bytes_eq_instance}
use cs.Prelude.Dict.{Dict, lookup, put}
use cs.Prelude.Decimal.{codes}
use cs.Prelude.Outcome.{Outcome, ok, fault, undefined, system_exception, or_fault, ◌>>=◌}
use cs.Kv.Codec.{Codec}
use cs.Chord.Hash.{Hash}
use cs.Chord.Node.{
  NodeId, LocalNode, Answer, is_successor, find_successor, find_predecessor, get_successor,
}
use cs.Chord.Node

pub record Metadata : Type 0 where
  pub filename : Bytes
  pub version : ℕ
  pub owner : Bytes
  pub content_hash : Bytes

pub record RFile : Type 0 where
  pub meta : Metadata
  pub content : Bytes

-- `files` is the working directory.
pub record Handler : Type 0 where
  pub node : LocalNode
  pub files : Dict Bytes Bytes

module _ ⦃h : Hash⦄ where
  abbrev pub file_id : Bytes → Bytes → Bytes
  file_id filename owner = h.sha256 (filename ++ codes ":" ++ owner)

  module _ ⦃thrift : Codec RFile⦄ where
    unfoldable pub read_file : Bytes → Bytes → Handler → Outcome RFile
    unfolding is_successor
    read_file filename owner s = do
      let id = file_id filename owner
      mine ← is_successor id s.node
      if not mine
          then fault (system_exception "Node is not owner of file")
          else elim (lookup id s.files) [
            | none ↦ fault (system_exception "File does not exist")
            | some bytes ↦ ok (thrift.parse bytes)
          ]

    -- `int32_t` of a version plus one, which has no meaning beyond its range.
    abbrev pub next_version : ℕ → Outcome ℕ
    next_version v = if ltb (v + 1) (2 ^ 31) then ok (v + 1) else fault undefined

    -- The version of a write: 0, or one more than the file's that is there.
    unfoldable pub version_of : Bytes → Bytes → Handler → Outcome ℕ
    unfolding read_file
    version_of filename owner s = elim (lookup (file_id filename owner) s.files) [
      | none ↦ ok 0
      | some _ ↦ do old ← read_file filename owner s; next_version old.meta.version
    ]

    unfoldable pub write_file : RFile → Handler → Outcome Handler
    unfolding version_of
    write_file file s = do
      let id = file_id file.meta.filename file.meta.owner
      mine ← is_successor id s.node
      if not mine then fault (system_exception "Node is not owner of file") else do
        version ← version_of file.meta.filename file.meta.owner s
        let meta = record file.meta { version = version; content_hash = h.sha256 file.content }
        ok (record s { files = put id (thrift.serialize (record file { meta = meta })) s.files })

-- The procedures that only call the node.
module _ ⦃h : Hash⦄ where
  unfoldable pub set_fingertable : List NodeId → Handler → Outcome Handler
  unfolding Node.set_fingertable
  set_fingertable node_list s = do
    node ← Node.set_fingertable node_list s.node
    ok (record s { node = node })

unfoldable pub find_succ : Bytes → Handler → Outcome Answer
unfolding find_successor
find_succ key s = find_successor key s.node

unfoldable pub find_pred : Bytes → Handler → Outcome Answer
unfolding find_predecessor
find_pred key s = find_predecessor key s.node

unfoldable pub get_node_succ : Handler → Outcome NodeId
unfolding get_successor
get_node_succ s = get_successor s.node

unfoldable pub set_predecessor : NodeId → Handler → Handler
unfolding Node.set_predecessor
set_predecessor p s = record s { node = Node.set_predecessor p s.node }
