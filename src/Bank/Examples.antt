-- ===== src/Bank/Examples.antt =====
-- Examples of the bank.
mod Branches
mod Networks
mod Snapshots
use cs.Prelude.{◌≡◌, refl, arith, List, [], ◌∷◌, length, some}
use cs.Prelude.Eq.{string_eq}
use cs.Prelude.Dict.{lookup}
use cs.Bank.Messages.{PeerInfo}
use cs.Bank.Header.{
  BranchNetMsg, header_length, encode_header, decode_header, decode_header-encode_header,
}
use cs.Bank.Snapshot.{make}
use cs.Bank.Snapshot.Recorded.{tx, mark, Event, run, until_marker, snapshot_records}
