-- ===== src/Kv/Channel.antt =====
-- kv/net/channel/include/channel.hpp: one end of a connection. Sockets and timers are the events;
-- the handlers of one channel run one at a time.
pub mod Delivery
pub mod Reception
pub mod Failure
use cs.Prelude.{
  ℕ, zero, suc, ◌≡◌, Bool, true, false, Option, none, some, List, [], ◌∷◌, ◌++◌, length, take, drop,
  ltb, if◌then◌else◌,
}
use cs.Prelude.Eq.{Bytes}
use cs.Prelude.Outcome.{Outcome, ok, fault, undefined}
use cs.Kv.Header.{header_length, new_message, set_body_size, decode_header}
use cs.Kv.Codec.{Codec}

-- `queue` is `m_mq`; `writing` is the buffer of an `async_write` that has not completed. The header
-- that is written before the buffer lies in `msg`, a local of `do_send` that is gone when the write
-- runs: what the write finds there is an argument of its completion. `wire` has what completed writes
-- found of their headers, and their buffers, in their order. `timer` says that the reconnect timer runs, `connects`
-- that an `async_connect` does.
pub record Channel : Type 0 where
  pub queue : List Bytes
  pub writing : Option Bytes
  pub wire : List (Bytes × Bytes)
  pub active : Bool
  pub timer : Bool
  pub connects : Bool

-- The two constructors: over an accepted socket, and for a connection of its own.
unfoldable pub over_socket : Channel
over_socket = record {
  queue = [];
  writing = none;
  wire = [];
  active = false;
  timer = false;
  connects = false;
}

unfoldable pub for_peer : Channel
unfolding over_socket
for_peer = record over_socket { active = true }

-- The header that `do_send` makes for a buffer.
abbrev pub intended : Bytes → Bytes
intended bytes = (set_body_size (length bytes) new_message).header

-- `m_mq.front()` of an empty queue has no meaning.
unfoldable pub do_send : Channel → Outcome Channel
do_send c = elim c.queue [
  | [] ↦ fault undefined
  | front ∷ rest ↦ ok (record c { writing = some front })
]

unfoldable pub reconnect : Channel → Channel
reconnect c = if c.active then record c { timer = true } else c

-- The completion of the write, with what it found of the header: `failed` is the error code's truth.
unfoldable pub written : Bool → Bytes → Channel → Outcome Channel
unfolding do_send reconnect
written failed found c = elim c.writing [
  | none ↦ ok c
  | some bytes ↦
      let idle = record c { writing = none } in
      if failed then ok (reconnect idle) else elim c.queue [
        | [] ↦ fault undefined
        | front ∷ rest ↦
            let popped = record idle { queue = rest; wire = c.wire ++ (found, bytes) ∷ [] } in
            elim rest [ [] ↦ ok popped | next ∷ later ↦ do_send popped ]
      ]
]

-- A header or a body could not be read.
unfoldable pub read_failed : Channel → Channel
unfolding reconnect
read_failed c = reconnect c

unfoldable pub connect_cb : Channel → Channel
connect_cb c = record c { connects = true }

unfoldable pub timer_fired : Bool → Channel → Channel
unfolding connect_cb
timer_fired failed c =
    let stopped = record c { timer = false } in
    if failed then stopped else connect_cb (record stopped { queue = [] })

-- The completion of `async_connect`: whether the reconnect handler is posted and reading starts.
unfoldable pub connected : Bool → Channel → Channel × Bool
unfolding reconnect
connected failed c =
    let done = record c { connects = false } in
    if failed then (reconnect done, false) else (done, true)

module _ {M : Type 0} ⦃codec : Codec M⦄ where
  unfoldable pub send_msg : M → Channel → Outcome Channel
  unfolding do_send
  send_msg msg c =
      let added = record c { queue = c.queue ++ codec.serialize msg ∷ [] } in
      elim c.queue [ [] ↦ do_send added | _ ∷ _ ↦ ok added ]

  -- `do_read_header` and `do_read_message` in turn, on the bytes that arrive: the messages that the
  -- handler is given.
  unfoldable pub receive : ℕ → Bytes → List M
  unfolding decode_header
  receive zero stream = []
  receive (suc fuel) stream =
      let size = (decode_header (record { size = 0; header = take header_length stream })).size in
      let body = drop header_length stream in
      let later = receive fuel (drop size body) in
      if ltb (length stream) header_length
      then []
      else if ltb (length body) size
      then []
      else codec.parse (take size body) ∷ later
