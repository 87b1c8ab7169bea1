-- ===== src/Bank/Global/Transfers.antt =====
-- The events of a branch (bank/src/branch.cpp) that move money while a snapshot is taken.
use cs.Prelude.{
  ℕ, zero, suc, ◌+◌, ◌^◌, ◌<◌, ◌≡◌, ◌⊎◌, refl, ap, ◌∙◌, String, true, false, ltb, if◌then◌else◌,
  Option, none, some, List, [], ◌∷◌, ◌++◌, arith, inl, inr, Bool-cases, Option-cases, get_elem?,
  All, subst,
}
use mathlib.Core.Option.{some-injective}
use cs.Prelude.Eq.{string_eq}
use cs.Prelude.Dict.{Dict}
use cs.Bank.Messages.{BranchMessage, transfer, add64}
use cs.Bank.Snapshot.{Snapshot}
use cs.Bank.Snapshot.Recorded.{is_peer}
use cs.Bank.Withdrawal.{Round}
use cs.Bank.Withdrawal.Ends.{IsWithin, quiet, received, withdraw_conserves}
use cs.Bank.Branch.{Link, Branch, do_send_money, transfer_handler, record_transfer, holds_snapshot}
use cs.Bank.Branch.Conserves.{received-append}
use cs.Bank.Global.{done_in, begun, counted, value, HasChannel}
use cs.Bank.Global.Local.{
  IsReady, SameLinks, tracked_in, tx_tracks, tx_done, tx_counts, record_tx_keeps,
}
use cs.Bank.Global.Events.{Goes}

-- A transfer adds to what is counted, unless its channel is recorded already.
pub transfer-Goes :
    (id money : ℕ) (from : String) (b : Branch)
    → IsReady id b
    → is_peer from b.known_peers ≡ true
    → (done_in id from b.snapshot ≡ false → value id b + money < 2 ^ 64)
    → Goes id (λ name. done_in id name b.snapshot) b (transfer_handler money from b)
      × (value id (transfer_handler money from b)
          ≡ value id b + (if done_in id from b.snapshot then 0 else money))
      × ((transfer_handler money from b).sent ≡ [])
unfolding transfer_handler record_transfer
transfer-Goes id money from b ready peer small =
    let links : SameLinks b (transfer_handler money from b) = record {
      channels = refl;
      known_peers = refl;
      names = refl;
      dials = refl;
    } in
    let range : add64 b.money money < 2 ^ 64 = omega arith in
    elim (Option-cases b.snapshot) [
      | inl missing ↦ (
        record {
          links = links;
          ready = record {
            tasks = ready.tasks;
            sent = refl;
            range = range;
            tracks = λ name p. rw missing refl;
          };
          same_part = rw missing refl;
          recorded = λ name. rw missing refl;
        },
        ground (arith, missing, small (rw missing refl)),
        ready.sent,
      )
      | inr (s, there) ↦
          let all : (name : String)
              → is_peer name b.known_peers ≡ true
              → tracked_in id name (some s) ≡ true =
            λ name p. rw there at (ready.tracks name p) in
          (
            record {
              links = links;
              ready = record {
                tasks = ready.tasks;
                sent = refl;
                range = range;
                tracks = λ name p. rw there (tx_tracks id money from name s (all name p));
              };
              same_part = ground (arith, there, record_tx_keeps from money s);
              recorded = λ name. rw there (tx_done id money from name s);
            },
            rw there (tx_counts id b.money money from s (all from peer) (rw there at small)),
            ready.sent,
          )
    ]

-- A payment leaves a channel of the branch, if there is one, and before the branch takes part it
-- leaves what is counted of the branch.
abbrev pub Pays : (id : ℕ) (b b' : Branch) → Type 0
Pays id b b' =
    ((b'.sent ≡ []) × (value id b' ≡ value id b))
    ⊎ ((ch : Link) × (money : ℕ) × HasChannel ch b.channels
        × (b'.sent ≡ (ch, transfer money) ∷ [])
        × (value id b' + (if begun id b then 0 else money) ≡ value id b))

HasChannel-get_elem? :
    (channels : Dict String Link) (k : ℕ) (name : String) (ch : Link)
    → get_elem? channels k ≡ some (name, ch)
    → HasChannel ch channels
HasChannel-get_elem? [] k name ch there = cc there
HasChannel-get_elem? ((other, c) ∷ channels) zero name ch there = inl (cc there)
HasChannel-get_elem? ((other, c) ∷ channels) (suc k) name ch there =
    inr (HasChannel-get_elem? channels k name ch there)

counted_pays :
    (id money left sent : ℕ) (held : Option Snapshot)
    → left + sent ≡ money
    → counted id left held + (if holds_snapshot id held then 0 else sent) ≡ counted id money held
counted_pays id money left sent none h = omega arith
counted_pays id money left sent (some s) h = ground arith

-- Only the money of a branch and what it sends is new.
money-Goes :
    (id money : ℕ) (sent : List (Link × BranchMessage)) (b : Branch)
    → IsReady id b
    → money < 2 ^ 64
    → Goes id (λ name. done_in id name b.snapshot) b (record b { money = money; sent = sent })
money-Goes id money sent b ready small = record {
  links = record { channels = refl; known_peers = refl; names = refl; dials = refl };
  ready = record { tasks = ready.tasks; sent = refl; range = small; tracks = ready.tracks };
  same_part = refl;
  recorded = λ name. refl;
}

pub do_send_money-Goes :
    (id k : ℕ) (xs : List Round) (draw : ℕ → ℕ) (b b' : Branch)
    → IsReady id b
    → received xs ≡ 0
    → All IsWithin xs
    → IsWithin (quiet draw)
    → do_send_money k (xs ++ quiet draw ∷ []) b ≡ some b'
    → Goes id (λ name. done_in id name b.snapshot) b b' × Pays id b b'
unfolding do_send_money
do_send_money-Goes id k xs draw b b' ready none_received within quiet_within h =
    let rounds = xs ++ quiet draw ∷ [] in
    let (w, done, c) = withdraw_conserves xs [] draw b.money ready.range within quiet_within in
    elim (Option-cases (get_elem? b.channels k)) [
      | inl missing ↦
          subst (λ b'. Goes id (λ name. done_in id name b.snapshot) b b' × Pays id b b')
            (some-injective _ _ (rw (missing, do_send_money) at h))
            (money-Goes id b.money b.sent b ready ready.range, inl (ready.sent, refl))
      | inr ((name, ch), there) ↦
          let used : received rounds ≡ received c.used + received w.unused =
            ap received c.split ∙ received-append c.used w.unused in
          let kept : w.money + w.to_send ≡ b.money = omega (
            arith,
            c.sum,
            used,
            received-append xs (quiet draw ∷ []),
            none_received,
            ready.range,
          ) in
          subst (λ b'. Goes id (λ name. done_in id name b.snapshot) b b' × Pays id b b')
            (some-injective _ _ (rw (there, done, do_send_money) at h))
            (
              money-Goes id w.money _ b ready c.range,
              elim (Bool-cases (ltb 0 w.to_send)) [
                | inl sends ↦ inr (
                  ch,
                  w.to_send,
                  HasChannel-get_elem? b.channels k name ch there,
                  ground (arith, sends, ready.sent),
                  counted_pays id b.money w.money w.to_send b.snapshot kept,
                )
                | inr keeps ↦ inl (
                  ground (arith, keeps, ready.sent),
                  ground (arith, keeps, counted_pays id b.money w.money w.to_send b.snapshot kept),
                )
              ],
            )
    ]
