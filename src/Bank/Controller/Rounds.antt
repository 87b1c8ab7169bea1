-- ===== src/Bank/Controller/Rounds.antt =====
-- The rounds of snapshots (do_snapshot and do_retrieve_snapshot of bank/src/controller.cpp).
use cs.Prelude.{
  ℕ, ◌+◌, ◌%◌, ◌^◌, ◌<◌, ◌≡◌, ap, ◌∙◌, List, [], ◌∷◌, ◌++◌, length, append-nil, append_assoc, arith,
}
use cs.Prelude.Outcome.{Outcome, ok, ok-injective, ◌>>=◌, >>=-eq-ok}
use cs.Bank.Messages.{BranchMessage, init_snapshot, retrieve_snapshot}
use cs.Bank.Controller.{Controller, snapshot_due, timer_fired, at, to_each}

-- The timer runs out twice for each index that is drawn.
unfoldable pub rounds : List ℕ → Controller → Outcome Controller
rounds [] c = ok c
rounds (which ∷ draws) c = do c₁ ← timer_fired which c; c₂ ← timer_fired which c₁; rounds draws c₂

-- The messages of rounds whose snapshots are numbered from `id` on.
pub data Numbered (channels : List ℕ) : ℕ → List ℕ → List (ℕ × BranchMessage) → Type 0 where
  done : {id : ℕ} → Numbered channels id [] []
  round :
      {id which ch : ℕ} {draws : List ℕ} {later : List (ℕ × BranchMessage)}
      → at channels which ≡ ok ch
      → Numbered channels (id + 1) draws later
      → Numbered channels id
          (which ∷ draws)
          ((ch, init_snapshot id) ∷ (to_each (retrieve_snapshot id) channels ++ later))

one_round :
    (which : ℕ) (c c₁ c₂ : Controller)
    → c.timer ≡ snapshot_due
    → timer_fired which c ≡ ok c₁
    → timer_fired which c₁ ≡ ok c₂
    → (ch : ℕ) × (at c.channels which ≡ ok ch)
      × (c₂ ≡ record c {
        sent =
            (c.sent ++ (ch, init_snapshot c.snapshot_id) ∷ [])
            ++ to_each (retrieve_snapshot c.snapshot_id) c.channels;
        snapshot_id = (c.snapshot_id + 1) % 2 ^ 64;
        timer = snapshot_due;
      })
unfolding timer_fired
one_round which c c₁ c₂ due h k =
    let (ch, there, begun) = >>=-eq-ok (at c.channels which) _ (rw (due, timer_fired) at h) in
    (ch, there, ground (arith, ok-injective begun, k))

-- From a controller whose next task is to take a snapshot, each round that does not throw starts
-- one snapshot on one branch and then asks every branch for the snapshot of that same number, and
-- the numbers of successive rounds are successive, as long as they stay below 2^64.
pub rounds-Numbered :
    (draws : List ℕ) (c c' : Controller)
    → c.timer ≡ snapshot_due
    → c.snapshot_id + length draws < 2 ^ 64
    → rounds draws c ≡ ok c'
    → (sent : List (ℕ × BranchMessage)) × (c'.sent ≡ c.sent ++ sent)
      × Numbered c.channels c.snapshot_id draws sent
      × (c'.snapshot_id ≡ c.snapshot_id + length draws)
unfolding rounds
rounds-Numbered [] c c' due few h =
    ([], ground (arith, append-nil c.sent), done, ground (arith, ok-injective h))
rounds-Numbered (which ∷ draws) c c' due few h =
    let (c₁, first, rest) = >>=-eq-ok (timer_fired which c) _ h in
    let (c₂, second, rest') = >>=-eq-ok (timer_fired which c₁) _ rest in
    let (ch, there, same) = one_round which c c₁ c₂ due first second in
    let next : c₂.snapshot_id ≡ c.snapshot_id + 1 =
      ap (λ (k : Controller). k.snapshot_id) same ∙ omega arith in
    let (later, sent, numbers, last) =
      rounds-Numbered draws c₂ c' (ap (λ (k : Controller). k.timer) same) (omega (arith, next))
        rest' in
    let numbers' : Numbered c.channels (c.snapshot_id + 1) draws later =
      rw (next, ap (λ (k : Controller). k.channels) same) at numbers in
    (
      (ch, init_snapshot c.snapshot_id)
          ∷ (to_each (retrieve_snapshot c.snapshot_id) c.channels ++ later),
      sent
          ∙ ap (λ (k : Controller). k.sent ++ later) same
          ∙ append_assoc (c.sent ++ (ch, init_snapshot c.snapshot_id) ∷ [])
              (to_each (retrieve_snapshot c.snapshot_id) c.channels) later
          ∙ append_assoc c.sent ((ch, init_snapshot c.snapshot_id) ∷ [])
              (to_each (retrieve_snapshot c.snapshot_id) c.channels ++ later),
      round there numbers',
      omega (arith, last, next),
    )
