-- ===== src/Bank/Global/Events.antt =====
-- The events of a branch (bank/src/branch.cpp): it joins the snapshot, ends the recording of a
-- channel, receives a transfer, or pays.
use cs.Prelude.{
  ℕ, ◌≡◌, refl, ap, sym, ◌∙◌, String, Bool, true, false, ◌||◌, ◌==◌, some, [], ◌++◌, arith, inl,
  inr, Option-cases,
}
use cs.Prelude.Eq.{string_eq, beq}
use cs.Prelude.Outcome.{ok}
use cs.Bank.Messages.{BranchMessage, transfer, init_snapshot, add64}
use cs.Bank.Messages
use cs.Bank.Snapshot.{make}
use cs.Bank.Snapshot.Recorded.{is_peer}
use cs.Bank.Branch.Marks.{marker_keeps}
use cs.Bank.Branch.{
  Link, Branch, message_handler, run_task, name_of, begin, mark, transfer_handler, record_transfer,
  to_channels,
}
use cs.Bank.Global.{handle, done_in, begun, value}
use cs.Bank.Global.Local.{
  IsReady, SameLinks, tracked_in, made_tracks, made_open, made_counts, marker_tracks, marker_counts,
  marker_done, counted_fresh,
}

abbrev pub calm : Branch → Branch
calm b = record b { tasks = [] }

pub handle-init_snapshot :
    (id : ℕ) (ci : Link) (b : Branch)
    → b.tasks ≡ []
    → handle (init_snapshot id) ci b ≡ ok (begin id (calm b))
unfolding handle message_handler run_task
handle-init_snapshot id ci b h = rw h refl

pub handle-marker :
    (id : ℕ) (ci : Link) (b : Branch)
    → b.tasks ≡ []
    → handle (Messages.marker id) ci b ≡ ok (mark id (name_of ci b) (calm b))
unfolding handle message_handler run_task
handle-marker id ci b h = rw h refl

pub handle-transfer :
    (money : ℕ) (ci : Link) (b : Branch)
    → b.tasks ≡ []
    → handle (transfer money) ci b ≡ ok (transfer_handler money (name_of ci b) b)
unfolding handle message_handler run_task transfer_handler record_transfer
handle-transfer money ci b h = rw h refl

-- The branch takes part from now on, tells all its channels, and has recorded the channels of which
-- `done` holds.
pub record Joins (id : ℕ) (done : String → Bool) (b b' : Branch) : Type 0 where
  pub links : SameLinks b b'
  pub ready : IsReady id (record b' { sent = [] })
  pub same_value : value id b' ≡ value id b
  pub joined : begun id b' ≡ true
  pub told : b'.sent ≡ to_channels (Messages.marker id) b.channels
  pub recorded : (name : String) → done_in id name b'.snapshot ≡ done name

pub begin-Joins :
    (id : ℕ) (b : Branch)
    → IsReady id b
    → begun id b ≡ false
    → Joins id (λ name. false) b (begin id (calm b))
unfolding begin
begin-Joins id b ready fresh = record {
  links = record { channels = refl; known_peers = refl; names = refl; dials = refl };
  ready = record {
    tasks = refl;
    sent = refl;
    range = ready.range;
    tracks = λ name known. made_tracks id b.money b.known_peers name known;
  };
  same_value =
      made_counts id b.money b.known_peers ∙ sym (counted_fresh id b.money b.snapshot fresh);
  joined = unfold make in ground arith;
  told = ap (λ s. s ++ to_channels (Messages.marker id) b.channels) ready.sent;
  recorded = λ name. made_open id b.money b.known_peers name;
}

-- A marker that comes to a branch that takes no part yet.
pub mark-Joins :
    (id : ℕ) (from : String) (b : Branch)
    → IsReady id b
    → begun id b ≡ false
    → is_peer from b.known_peers ≡ true
    → Joins id (beq from) b (mark id from (calm b))
unfolding mark begin
mark-Joins id from b ready fresh peer =
    let s = make id b.money b.known_peers in
    let taken : (id == s.id) ≡ true = unfold make in ground arith in
    let known = made_tracks id b.money b.known_peers from peer in
    rw fresh (record {
      links = record { channels = refl; known_peers = refl; names = refl; dials = refl };
      ready = record {
        tasks = refl;
        sent = refl;
        range = ready.range;
        tracks =
            λ name p. marker_tracks id from name s (made_tracks id b.money b.known_peers name p);
      };
      same_value =
          marker_counts id b.money from s
          ∙ made_counts id b.money b.known_peers
          ∙ sym (counted_fresh id b.money b.snapshot fresh);
      joined = ground (arith, taken, marker_keeps from s);
      told = ap (λ sent. sent ++ to_channels (Messages.marker id) b.channels) ready.sent;
      recorded = λ name.
          ground (
            arith,
            marker_done id from name s taken known,
            made_open id b.money b.known_peers name,
          );
    })

-- An event that sends no marker: the branch goes on as it was, but for the channels that are
-- recorded now.
pub record Goes (id : ℕ) (done : String → Bool) (b b' : Branch) : Type 0 where
  pub links : SameLinks b b'
  pub ready : IsReady id (record b' { sent = [] })
  pub same_part : begun id b' ≡ begun id b
  pub recorded : (name : String) → done_in id name b'.snapshot ≡ done name

-- A marker that comes to a branch that takes part.
pub mark-Goes :
    (id : ℕ) (from : String) (b : Branch)
    → IsReady id b
    → begun id b ≡ true
    → is_peer from b.known_peers ≡ true
    → Goes id (λ name. beq from name || done_in id name b.snapshot) b (mark id from (calm b))
      × (value id (mark id from (calm b)) ≡ value id b)
      × ((mark id from (calm b)).sent ≡ [])
unfolding mark
mark-Goes id from b ready taken peer = elim (Option-cases b.snapshot) [
  | inl missing ↦ absurd (ground (arith, missing, taken))
  | inr (s, there) ↦
      let same : (id == s.id) ≡ true = rw there at taken in
      let all : (name : String)
          → is_peer name b.known_peers ≡ true
          → tracked_in id name (some s) ≡ true =
        λ name p. rw there at (ready.tracks name p) in
      rw (taken, there)
        (
          record {
            links = record { channels = refl; known_peers = refl; names = refl; dials = refl };
            ready = record {
              tasks = refl;
              sent = refl;
              range = ready.range;
              tracks = λ name p. marker_tracks id from name s (all name p);
            };
            same_part = ground (arith, marker_keeps from s);
            recorded = λ name. marker_done id from name s same (all from peer);
          },
          marker_counts id b.money from s,
          ready.sent,
        )
]
