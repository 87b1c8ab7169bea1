-- ===== src/Bank/Global/Returns.antt =====
-- What the branches return of a snapshot (retrieve_snapshot_handler of bank/src/branch.cpp).
use cs.Prelude.{
  ℕ, zero, suc, ◌+◌, ◌<◌, ◌≡◌, refl, ap, sym, ◌∙◌, String, true, some, List, [], ◌∷◌, arith, All,
}
use cs.Prelude.Eq.{string_eq}
use cs.Prelude.Dict.{Dict, lookup}
use cs.Prelude.Outcome.{ok, ok-injective, >>=-eq-ok}
use cs.Bank.Messages.{ReturnSnapshot}
use cs.Bank.Snapshot.{VarState, empty, recording, completed, Snapshot, channel_states, to_message}
use cs.Bank.Branch.{Link, Branch, name_of}
use cs.Bank.Network.{Letter}
use cs.Bank.Global.{is_done, ended, value, total, sums}
use cs.Bank.Global.Cut.{Marks, weight, cuts}
use cs.Bank.Global.Local.{is_tracked, tracked_in}

-- What a branch returns for the snapshot number `id`.
pub record Returned (id : ℕ) (b : Branch) (msg : ReturnSnapshot) : Type 0 where
  pub s : Snapshot
  pub held : b.snapshot ≡ some s
  pub numbered : s.id ≡ id
  pub made : to_message s ≡ ok msg

-- The balance and the money in transit of a message.
abbrev pub in_transit : List (String × ℕ) → ℕ
in_transit [] = 0
in_transit ((name, money) ∷ states) = money + in_transit states

abbrev pub returned_money : ReturnSnapshot → ℕ
returned_money msg = msg.balance + in_transit msg.channel_state

abbrev pub total_returned : (ℕ → ReturnSnapshot) → ℕ → ℕ
total_returned msgs zero = 0
total_returned msgs (suc n) = total_returned msgs n + returned_money (msgs n)

channel_states-sums :
    (states : Dict String VarState) (out : List (String × ℕ))
    → channel_states states ≡ ok out
    → in_transit out ≡ sums states
unfolding channel_states
channel_states-sums [] out h = ap in_transit (sym (ok-injective h))
channel_states-sums ((name, empty) ∷ states) out h = cc h
channel_states-sums ((name, recording sum) ∷ states) out h = cc h
channel_states-sums ((name, completed sum) ∷ states) out h =
    let (rest, made, e) = >>=-eq-ok (channel_states states) _ h in
    sym (ap in_transit (ok-injective e)) ∙ ap (λ m. sum + m) (channel_states-sums states rest made)

channel_states-is_done :
    (states : Dict String VarState) (out : List (String × ℕ)) (name : String)
    → channel_states states ≡ ok out
    → is_tracked (lookup name states) ≡ true
    → is_done (lookup name states) ≡ true
unfolding channel_states lookup
channel_states-is_done [] out name h tracked = cc tracked
channel_states-is_done ((other, empty) ∷ states) out name h tracked = cc h
channel_states-is_done ((other, recording sum) ∷ states) out name h tracked = cc h
channel_states-is_done ((other, completed sum) ∷ states) out name h tracked =
    let (rest, made, e) = >>=-eq-ok (channel_states states) _ h in
    ground (arith, channel_states-is_done states rest name made, tracked)

Returned-value :
    (id : ℕ) (b : Branch) (msg : ReturnSnapshot)
    → Returned id b msg
    → returned_money msg ≡ value id b
unfolding to_message
Returned-value id b msg returned =
    let (out, made, e) = >>=-eq-ok (channel_states returned.s.states) _ returned.made in
    sym (ap returned_money (ok-injective e))
    ∙ ground
        (arith, returned.held, returned.numbered, channel_states-sums returned.s.states out made)

pub Returned-ended :
    (id : ℕ) (b : Branch) (msg : ReturnSnapshot) (ch : Link)
    → Returned id b msg
    → tracked_in id (name_of ch b) b.snapshot ≡ true
    → ended id b ch ≡ true
unfolding to_message
Returned-ended id b msg ch returned tracked =
    let (out, made, e) = >>=-eq-ok (channel_states returned.s.states) _ returned.made in
    ground (
      arith,
      returned.held,
      returned.numbered,
      tracked,
      channel_states-is_done returned.s.states out (name_of ch b) made,
    )

-- Letters that all are behind a marker count for nothing.
pub weight-ended :
    (id : ℕ) (P : ℕ → Link → Type 0) (cut : Marks) (letters : List Letter)
    → ((j : ℕ) (ch : Link) → P j ch → cut j ch ≡ true)
    → All (λ l. P l.destination l.channel) letters
    → weight id cut letters ≡ 0
weight-ended id P cut [] all letters_all = refl
weight-ended id P cut (l ∷ letters) all letters_all = ground (
  arith,
  all l.destination l.channel letters_all.0,
  weight-ended id P (cuts id l cut) letters (λ j ch p. ground (arith, all j ch p)) letters_all.1,
)

pub total_returned-total :
    (id : ℕ) (branches : ℕ → Branch) (msgs : ℕ → ReturnSnapshot) (n : ℕ)
    → ((i : ℕ) → i < n → Returned id (branches i) (msgs i))
    → total_returned msgs n ≡ total (value id) branches n
total_returned-total id branches msgs zero all = refl
total_returned-total id branches msgs (suc n) all = omega (
  arith,
  total_returned-total id branches msgs n (λ i h. all i (omega arith)),
  Returned-value id (branches n) (msgs n) (all n (omega arith)),
)
