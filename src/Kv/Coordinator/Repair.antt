-- ===== src/Kv/Coordinator/Repair.antt =====
-- Read repair between two servers (handle_read_repair_response and handle_do_write of
-- kv/server/src/coordinator.cpp).
use cs.Prelude.{
  ℕ, ◌≡◌, ◌≢◌, ◌⊎◌, inl, inr, eq_iff, true, false, Option, some, [], ◌∷◌, ◌++◌, arith, get_elem?,
  Bool-cases,
}
use cs.Prelude.Eq.{string_eq}
use cs.Prelude.Outcome.{ok}
use cs.Kv.Messages.{Timestamp, TimeOps, DoWrite, do_write}
use cs.Kv.Replica.{Element, Replica}
use cs.Kv.Replica.Merge.{touch_all}
use cs.Kv.Coordinator.State.{Coordinator, ServerLink, send, to_server, to_all}
use cs.Kv.Coordinator.Server.{handle_read_repair_response, handle_do_write}

abbrev pub repair_write : ℕ → Element → DoWrite
repair_write key e = record { uuid = "RR"; key = key; timestamp = e.timestamp; val = e.content }

module _ ⦃tm : TimeOps⦄ where
  -- The slot of a key once the strand has run the queued updates.
  abbrev pub held : Replica → ℕ → Option (Option Element)
  held r key = touch_all key (get_elem? r.store key) r.queued

  decided : (s t : Timestamp) → s ≢ t → tm.before s t ≡ false → tm.before t s ≡ true
  decided s t differ h = elim (Bool-cases (tm.before t s)) [
    | inl newer ↦ newer
    | inr level ↦ absurd (differ (tm.before_total s t h level))
  ]

  abbrev enqueued : Coordinator → DoWrite → Coordinator
  enqueued s msg = record s { replica = record s.replica { queued = s.replica.queued ++ msg ∷ [] } }

  adopted :
      (key : ℕ) (link : ServerLink) (a a' : Coordinator) (mine theirs : Element)
      → get_elem? a.replica.store key ≡ some (some mine)
      → tm.before mine.timestamp theirs.timestamp ≡ true
      → handle_read_repair_response key theirs.timestamp theirs.content link a ≡ ok a'
      → a' ≡ record a {
        replica = record a.replica {
          queued =
              a.replica.queued
              ++ record { uuid = ""; key = key; timestamp = theirs.timestamp; val = theirs.content }
                ∷ [];
        };
        sent = a.sent ++ to_all (do_write (repair_write key theirs)) a.channels;
      }
  unfolding handle_read_repair_response
  adopted key link a a' mine theirs at_a older h =
      ground (arith, at_a, tm.not_after_lem theirs.timestamp mine.timestamp)

  taken :
      (key : ℕ) (b : Coordinator) (mine theirs : Element) (from : ℕ) (to : ServerLink)
      → get_elem? b.replica.store key ≡ some (some theirs)
      → b.replica.queued ≡ []
      → tm.before theirs.timestamp mine.timestamp ≡ true
      → (b' : Coordinator) × (handle_do_write (repair_write key mine) to from b ≡ ok b')
        × (held b'.replica key ≡ some (some mine))
  unfolding handle_do_write touch_all
  taken key b mine theirs from to at_b idle_b newer = (
    enqueued b (record { uuid = ""; key = key; timestamp = mine.timestamp; val = mine.content }),
    ground (arith, at_b, tm.not_after_lem mine.timestamp theirs.timestamp, eq_iff "RR" "RR"),
    ground (arith, at_b, idle_b, tm.not_after_lem mine.timestamp theirs.timestamp),
  )

  -- Server a answers a read repair response from b.
  module _ (key : ℕ) (link : ServerLink) (a a' b : Coordinator) (mine theirs : Element) where
    pub record Adopts : Type 0 where
      pub newer : tm.before mine.timestamp theirs.timestamp ≡ true
      pub value : held a'.replica key ≡ some (some theirs)
      pub told : a'.sent ≡ a.sent ++ to_all (do_write (repair_write key theirs)) a.channels

    pub record Returns : Type 0 where
      pub newer : tm.before theirs.timestamp mine.timestamp ≡ true
      pub kept : a'.replica ≡ a.replica
      pub told : a'.sent ≡ a.sent ++ to_server link (do_write (repair_write key mine)) ∷ []
      pub value :
          (from : ℕ) (to : ServerLink)
          → (b' : Coordinator) × (handle_do_write (repair_write key mine) to from b ≡ ok b')
            × (held b'.replica key ≡ some (some mine))

    -- A response about a key for which two idle servers hold values of different times makes them
    -- agree on the newer value: this server takes it over and tells it to every server, or it
    -- sends its own back, and the other takes that over.
    pub repair_converges :
        get_elem? a.replica.store key ≡ some (some mine)
        → a.replica.queued ≡ []
        → get_elem? b.replica.store key ≡ some (some theirs)
        → b.replica.queued ≡ []
        → mine.timestamp ≢ theirs.timestamp
        → handle_read_repair_response key theirs.timestamp theirs.content link a ≡ ok a'
        → Adopts ⊎ Returns
    unfolding handle_read_repair_response touch_all
    repair_converges at_a idle_a at_b idle_b differ h =
        elim (Bool-cases (tm.before mine.timestamp theirs.timestamp)) [
          | inl older ↦
              let same = adopted key link a a' mine theirs at_a older h in
              inl (record {
                newer = older;
                value =
                    ground
                      (arith, same, at_a, idle_a, tm.not_after_lem theirs.timestamp mine.timestamp);
                told = ground (arith, same);
              })
          | inr not_older ↦
              let newer = decided mine.timestamp theirs.timestamp differ not_older in
              inr (record {
                newer = newer;
                kept = ground (arith, at_a, not_older, newer);
                told = ground (arith, at_a, not_older, newer);
                value = λ from to. taken key b mine theirs from to at_b idle_b newer;
              })
        ]

  -- Where the two servers hold different values of one time, this server sends its own back, and
  -- the other server keeps what it holds: repair never makes them agree.
  pub equal_time_not_repaired :
      (key : ℕ) (link to : ServerLink) (from : ℕ) (a b : Coordinator) (mine theirs : Element)
      → get_elem? a.replica.store key ≡ some (some mine)
      → get_elem? b.replica.store key ≡ some (some theirs)
      → mine.timestamp ≡ theirs.timestamp
      → mine.content ≢ theirs.content
      → (handle_read_repair_response key theirs.timestamp theirs.content link a
          ≡ ok (send (to_server link (do_write (repair_write key mine))) a))
        × (handle_do_write (repair_write key mine) to from b ≡ ok b)
  unfolding handle_read_repair_response handle_do_write
  equal_time_not_repaired key link to from a b mine theirs at_a at_b level differ = (
    ground (
      arith,
      at_a,
      level,
      tm.before_irrefl mine.timestamp,
      tm.before_irrefl theirs.timestamp,
      eq_iff mine.content theirs.content,
    ),
    ground (
      arith,
      at_b,
      level,
      tm.not_after_lem mine.timestamp theirs.timestamp,
      tm.before_irrefl mine.timestamp,
      eq_iff "RR" "RR",
    ),
  )
