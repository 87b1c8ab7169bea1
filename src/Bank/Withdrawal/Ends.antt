-- ===== src/Bank/Withdrawal/Ends.antt =====
-- The loop that takes the money of a transfer (do_send_money of bank/src/branch.cpp).
use cs.Prelude.{
  ℕ, ◌+◌, ◌%◌, ◌^◌, ◌≤◌, ◌<◌, ◌≡◌, refl, ap, ◌∙◌, true, false, some, List, [], ◌∷◌, ◌++◌, ◌&&◌, not,
  All, arith, ◌==◌, Bool-cases, inl, inr,
}
use cs.Bank.Messages.{add64, sub64}
use cs.Bank.Withdrawal.{Round, Withdrawn, withdraw}

-- A draw takes no more than there is, as one between 1% and 5% of the balance does.
abbrev pub IsWithin : Round → Type 0
IsWithin r = (balance : ℕ) → r.draw balance ≤ balance

-- A round that meets nothing.
abbrev pub quiet : (ℕ → ℕ) → Round
quiet draw = record { draw = draw; received = 0; spurious = false }

abbrev pub received : List Round → ℕ
received [] = 0
received (r ∷ rounds) = r.received + received rounds

-- What the loop leaves of the money and of the rounds.
pub record Conserved (rounds : List Round) (money : ℕ) (w : Withdrawn) : Type 0 where
  pub used : List Round
  pub split : rounds ≡ used ++ w.unused
  pub sum : w.money + w.to_send ≡ (money + received used) % 2 ^ 64
  pub range : w.money < 2 ^ 64

-- The three ways a round goes, where the draw is within the balance.
round_none :
    (r : Round) (rounds : List Round) (curr money : ℕ)
    → r.draw curr ≡ 0
    → withdraw (r ∷ rounds) curr money
      ≡ some (record { to_send = 0; money = add64 money r.received; unused = rounds })
unfolding withdraw
round_none r rounds curr money none_drawn = ground arith

round_taken :
    (r : Round) (rounds : List Round) (curr money : ℕ)
    → curr < 2 ^ 64
    → IsWithin r
    → (r.draw curr == 0) ≡ false
    → ((add64 money r.received == curr) && not r.spurious) ≡ true
    → withdraw (r ∷ rounds) curr money
      ≡ some (record { to_send = r.draw curr; money = sub64 curr (r.draw curr); unused = rounds })
unfolding withdraw
round_taken r rounds curr money small within drawn exchanged = ground (arith, within curr)

round_again :
    (r : Round) (rounds : List Round) (curr money : ℕ)
    → curr < 2 ^ 64
    → IsWithin r
    → (r.draw curr == 0) ≡ false
    → ((add64 money r.received == curr) && not r.spurious) ≡ false
    → withdraw (r ∷ rounds) curr money
      ≡ withdraw rounds (add64 money r.received) (add64 money r.received)
unfolding withdraw
round_again r rounds curr money small within drawn failed = ground (arith, within curr)

Conserved-cons :
    (r : Round) (rounds : List Round) (money : ℕ) (w : Withdrawn)
    → Conserved rounds (add64 money r.received) w
    → Conserved (r ∷ rounds) money w
Conserved-cons r rounds money w c = record {
  used = r ∷ c.used;
  split = ap (◌∷◌ r) c.split;
  sum = omega (arith, c.sum);
  range = c.range;
}

-- From a balance below 2^64, with draws that take no more than the balance they are made for, the
-- loop ends if one of its rounds meets no interference, and it takes one amount: that amount and
-- the money left are the money before and all that came in during the rounds that it made, modulo
-- 2^64.
pub withdraw_conserves :
    (xs ys : List Round) (draw : ℕ → ℕ) (money : ℕ)
    → money < 2 ^ 64
    → All IsWithin xs
    → IsWithin (quiet draw)
    → (w : Withdrawn) × (withdraw (xs ++ quiet draw ∷ ys) money money ≡ some w)
      × Conserved (xs ++ quiet draw ∷ ys) money w
withdraw_conserves [] ys draw money small within quiet_within =
    elim (Bool-cases (draw money == 0)) [
      | inl none_drawn ↦ (
        record { to_send = 0; money = add64 money 0; unused = ys },
        round_none (quiet draw) ys money money (ground arith),
        record { used = quiet draw ∷ []; split = refl; sum = omega arith; range = omega arith },
      )
      | inr drawn ↦ (
        record { to_send = draw money; money = sub64 money (draw money); unused = ys },
        round_taken (quiet draw) ys money money small quiet_within drawn (ground arith),
        record {
          used = quiet draw ∷ [];
          split = refl;
          sum = omega (arith, quiet_within money);
          range = omega arith;
        },
      )
    ]
withdraw_conserves (r ∷ xs) ys draw money small within quiet_within =
    let rounds = xs ++ quiet draw ∷ ys in
    let now = add64 money r.received in
    elim (Bool-cases (r.draw money == 0)) [
      | inl none_drawn ↦ (
        record { to_send = 0; money = now; unused = rounds },
        round_none r rounds money money (ground arith),
        record { used = r ∷ []; split = refl; sum = omega arith; range = omega arith },
      )
      | inr drawn ↦ elim (Bool-cases ((now == money) && not r.spurious)) [
        | inl exchanged ↦
            let same : now ≡ money = ground (arith, exchanged) in
            (
              record {
                to_send = r.draw money;
                money = sub64 money (r.draw money);
                unused = rounds;
              },
              round_taken r rounds money money small within.0 drawn exchanged,
              record {
                used = r ∷ [];
                split = refl;
                sum = omega (arith, within.0 money, same);
                range = omega arith;
              },
            )
        | inr failed ↦
            let (w, done, c) =
              withdraw_conserves xs ys draw now (omega arith) within.1 quiet_within in
            (
              w,
              round_again r rounds money money small within.0 drawn failed ∙ done,
              Conserved-cons r rounds money w c,
            )
      ]
    ]
