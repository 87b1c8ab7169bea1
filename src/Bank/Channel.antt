-- ===== src/Bank/Channel.antt =====
-- bank/src/channel.cpp: one end of a connection, as in the store, but an error throws.
pub mod Delivery
pub mod Same
use cs.Prelude.{
  ℕ, zero, suc, Bool, true, false, Option, none, some, List, [], ◌∷◌, ◌++◌, length, take, drop, ltb,
  replicate, if◌then◌else◌,
}
use cs.Prelude.Eq.{Bytes}
use cs.Prelude.Outcome.{Outcome, ok, fault, undefined, runtime_error}
use cs.Kv.Codec.{Codec}
use cs.Bank.Header.{BranchNetMsg, header_length, encode_header, decode_header}

-- `queue` is `d_mq`; `writing` is the data of an `async_write` that has not completed, `wire` the
-- data of those that have; `reading` says that a read has been started.
pub record Channel : Type 0 where
  pub queue : List Bytes
  pub writing : Option Bytes
  pub wire : List Bytes
  pub reading : Bool

unfoldable pub new : Channel
new = record { queue = []; writing = none; wire = []; reading = false }

-- The header and the buffer that `do_send` writes.
abbrev pub encoded : Bytes → Bytes
encoded bytes =
    (encode_header (record { body_size = length bytes; header = replicate header_length 0 })).header
    ++ bytes

-- `d_mq.front()` of an empty queue has no meaning.
unfoldable pub do_send : Channel → Outcome Channel
do_send c = elim c.queue [
  | [] ↦ fault undefined
  | front ∷ rest ↦ ok (record c { writing = some (encoded front) })
]

-- The completion of the write; the thrown text goes on with the error's own.
unfoldable pub sending_done : Bool → Channel → Outcome Channel
unfolding do_send
sending_done failed c = elim c.writing [
  | none ↦ ok c
  | some bytes ↦ if failed then fault (runtime_error "Sending failed: ") else elim c.queue [
    | [] ↦ fault undefined
    | front ∷ rest ↦
        let popped = record c { writing = none; queue = rest; wire = c.wire ++ bytes ∷ [] } in
        elim rest [ [] ↦ ok popped | next ∷ later ↦ do_send popped ]
  ]
]

unfoldable pub start : Channel → Channel
start c = record c { reading = true }

-- The completion of `async_connect`.
unfoldable pub connect : Bool → Channel → Outcome Channel
unfolding start
connect failed c =
    if failed then fault (runtime_error "Unable to connect to peer: ") else ok (start c)

-- The same for `connect_cb`: the channel, and that the handler is posted.
unfoldable pub connect_cb : Bool → Channel → Outcome (Channel × Bool)
unfolding start
connect_cb failed c =
    if failed then fault (runtime_error "Unable to connect to peer: ") else ok (start c, true)

module _ {M : Type 0} ⦃codec : Codec M⦄ where
  unfoldable pub send_branch_msg : M → Channel → Outcome Channel
  unfolding do_send
  send_branch_msg msg c =
      let added = record c { queue = c.queue ++ codec.serialize msg ∷ [] } in
      elim c.queue [ [] ↦ do_send added | _ ∷ _ ↦ ok added ]

  -- `do_read_header` and `do_read_message` in turn, on the bytes that arrive: the messages that the
  -- handler is given before a read waits or fails.
  unfoldable pub read_messages : ℕ → Bytes → List M
  unfolding decode_header
  read_messages zero stream = []
  read_messages (suc fuel) stream =
      let size =
        (decode_header (record { body_size = 0; header = take header_length stream })).body_size in
      let body = drop header_length stream in
      let later = read_messages fuel (drop size body) in
      if ltb (length stream) header_length
      then []
      else if ltb (length body) size
      then []
      else codec.parse (take size body) ∷ later
