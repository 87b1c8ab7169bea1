-- ===== src/Kv/Examples/Streams.antt =====
-- Logs and channels of byte strings.
use cs.Prelude.{arith, ◌≡◌, refl, some, none, List, [], ◌∷◌, ◌++◌, true, false}
use cs.Prelude.Eq.{Bytes}
use cs.Prelude.Outcome.{ok}
use cs.Kv.Codec.{Codec}
use cs.Kv.Log.{replay_log}
use cs.Kv.Log.Replay.{replay-written}
use cs.Kv.Log.Replay
use cs.Kv.Channel.{Channel, over_socket, written}
use cs.Kv.Channel.Delivery.{Action, sends, completes, buffers, front_of, run}
use cs.Kv.Channel.Reception.{buffers_in_order}
use cs.Kv.Channel.Failure.{send_all, failed_write_stalls}

-- Messages that are their own bytes.
instance abbrev by_itself : Codec Bytes
by_itself = record { serialize = λ m. m; parse = λ m. m; parse-serialize = λ m. refl }

abbrev two : List Bytes
two = (1 ∷ 2 ∷ 3 ∷ []) ∷ (4 ∷ []) ∷ []

replay-written_example : replay_log (Replay.written [] two ++ 0 ∷ 0 ∷ []) ≡ two
replay-written_example =
    replay-written two (0 ∷ 0 ∷ []) (omega arith, (omega arith, tt)) (omega arith)

abbrev both : List Bytes
both = (1 ∷ 2 ∷ []) ∷ (3 ∷ []) ∷ []

-- The second write finds other bytes where its header was.
abbrev actions : List (Action Bytes)
actions =
    sends (1 ∷ 2 ∷ [])
    ∷ sends (3 ∷ [])
    ∷ completes (0 ∷ 0 ∷ 0 ∷ 0 ∷ 0 ∷ 0 ∷ 0 ∷ 2 ∷ [])
    ∷ completes (9 ∷ 9 ∷ 9 ∷ 9 ∷ 9 ∷ 9 ∷ 9 ∷ 9 ∷ [])
    ∷ []

buffers_in_order_example :
    (c : Channel) × (run actions over_socket ≡ ok c)
    × (buffers c.wire ++ c.queue ≡ both)
    × (c.writing ≡ front_of c.queue)
buffers_in_order_example = buffers_in_order actions

abbrev busy : Channel
busy = record {
  queue = (1 ∷ []) ∷ [];
  writing = some (1 ∷ []);
  wire = [];
  active = false;
  timer = false;
  connects = false;
}

failed_write_stalls_example :
    (c₁ c₂ : Channel) × (written true [] busy ≡ ok c₁)
    × (send_all two c₁ ≡ ok c₂)
    × (c₂.writing ≡ none)
    × (c₂.wire ≡ [])
    × (c₂.timer ≡ false)
failed_write_stalls_example = failed_write_stalls busy [] (1 ∷ []) (1 ∷ []) [] two refl refl refl
