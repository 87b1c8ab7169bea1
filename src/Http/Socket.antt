-- ===== src/Http/Socket.antt =====
-- The loops of http/src/socket.cpp over system calls, whose results are arguments. An error's text is
-- left out.
pub mod Sends
pub mod Streams
use cs.Prelude.{
  ℕ, zero, suc, ◌+◌, ◌-◌, Bool, true, false, ltb, ◌==◌, if◌then◌else◌, Option, none, some, List, [],
  ◌∷◌, ◌++◌, length, take, drop, leb,
}
use cs.Prelude.Eq.{Bytes}
use cs.Prelude.Outcome.{Outcome, ok, fault, out_of_range, socket_exception, socket_closed, ◌>>=◌}

-- What `send` and `sendfile` return: a negative number, or how many bytes they took.
pub data SysResult : Type 0 where
  failed : SysResult
  took : ℕ → SysResult

-- What has been sent, and what the loop has still to send.
pub record Progress : Type 0 where
  pub wire : Bytes
  pub to_send : Bytes

unfoldable pub send : List SysResult → Bytes → Bytes → Outcome Progress
send [] wire buffer = ok (record { wire = wire; to_send = buffer })
send (r ∷ results) wire [] = ok (record { wire = wire; to_send = [] })
send (failed ∷ results) wire (b ∷ buffer) = fault (socket_exception "")
send (took sent ∷ results) wire (b ∷ buffer) =
    let rest = send results (wire ++ take sent (b ∷ buffer)) (drop sent (b ∷ buffer)) in
    if ltb (length (b ∷ buffer)) sent
    then fault (socket_exception "Sent more than requested!")
    else if sent == 0
    then fault (socket_exception "Nothing was sent!")
    else rest

-- The texts that `send` is called with for a stream, each as long as the buffer but for the last,
-- which has what is left.
unfoldable pub stream_chunks : ℕ → ℕ → Bytes → List Bytes
stream_chunks size zero input = []
stream_chunks size (suc rounds) input =
    let rest = stream_chunks size rounds (drop size input) in
    if length (take size input) == size then take size input ∷ rest else take size input ∷ []

-- `none` is a stream that could not be opened. Each read but the last takes something of the stream.
unfoldable pub send_stream : Option Bytes → Outcome (List Bytes)
unfolding stream_chunks
send_stream none = fault (socket_exception "Failure reading from ifstream")
send_stream (some input) = ok (stream_chunks 4096 (suc (length input)) input)

-- `count` as the loop leaves it, zero where it has ended.
unfoldable pub send_file : List SysResult → ℕ → Outcome ℕ
send_file [] count = ok count
send_file (r ∷ results) zero = ok zero
send_file (failed ∷ results) (suc count) = fault (socket_exception "Sendfile failed: ")
send_file (took sent ∷ results) (suc count) =
    let rest = send_file results (suc count - sent) in
    if ltb (suc count) sent
    then fault (socket_exception "Sendfile sent more than requested")
    else rest

-- What `recv` returns: nothing at the end, a negative number, or bytes.
pub data Received : Type 0 where
  closed error : Received
  bytes : Bytes → Received

abbrev pub recv : Received → Outcome Bytes
recv closed = fault socket_closed
recv error = fault (socket_exception "")
recv (bytes b) = ok b

-- A search of the delimiter: where a match ends.
abbrev pub Search : Type 0
Search = Bytes → Option ℕ

-- `std::string::substr` from a position on.
abbrev pub substr : Bytes → ℕ → Outcome Bytes
substr s pos = if ltb (length s) pos then fault out_of_range else ok (drop pos s)

-- The loop of `recv_msg`, with what it returns and leaves unsent; `none` where it waits for more.
unfoldable pub recv_msg_loop :
    Search → Bytes → List Received → Bytes → Bytes → Outcome (Option (Bytes × Bytes))
recv_msg_loop search unsent [] ret buf = elim (search buf) [
  | none ↦ ok none
  | some end_idx ↦ do
    left ← substr unsent (suc end_idx)
    ok (some (ret ++ take end_idx unsent, left))
]
recv_msg_loop search unsent (r ∷ results) ret buf = elim (search buf) [
  | none ↦ do next ← recv r; recv_msg_loop search unsent results (ret ++ buf) next
  | some end_idx ↦ do
    left ← substr unsent (suc end_idx)
    ok (some (ret ++ take end_idx unsent, left))
]

unfoldable pub recv_msg : Search → Bytes → List Received → Outcome (Option (Bytes × Bytes))
unfolding recv_msg_loop
recv_msg search unsent results = recv_msg_loop search unsent results unsent unsent
