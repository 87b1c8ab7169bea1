-- ===== src/Kv/Coordinator/Tally.antt =====
-- What a hint log makes of one counter (kv/server/src/coordinator.cpp).
use cs.Prelude.{
  ℕ, ◌+◌, ◌%◌, ◌^◌, ◌<◌, ◌==◌, ◌&&◌, ◌≡◌, refl, ◌∙◌, if◌then◌else◌, Option, none, some, List, [],
  ◌∷◌, get_elem?, set, subst, arith, Bool-cases, inl, inr, get_elem?-lt, get_elem?-set_self,
  get_elem?-set_ne,
}
use cs.Prelude.Outcome.{ok, undefined, or_fault, ok-injective, >>=-eq-ok}
use cs.Kv.Messages.{HintMessage, add_hint, drop_hint}
use cs.Kv.Coordinator.Hints.{change_hint, hint_at, apply_hint, replay_hints, increment, decrement}

-- How often a log adds to a counter, and drops from it.
abbrev pub adds : ℕ → ℕ → List HintMessage → ℕ
adds replica key [] = 0
adds replica key (add_hint r k ∷ log) =
    (if r == replica && k == key then 1 else 0) + adds replica key log
adds replica key (_ ∷ log) = adds replica key log

abbrev pub drops : ℕ → ℕ → List HintMessage → ℕ
drops replica key [] = 0
drops replica key (drop_hint r k ∷ log) =
    (if r == replica && k == key then 1 else 0) + drops replica key log
drops replica key (_ ∷ log) = drops replica key log

or_fault-some : {A : Type 0} (o : Option A) (x : A) → or_fault o undefined ≡ ok x → o ≡ some x
or_fault-some none x h = absurd (cc h)
or_fault-some (some y) x h = cc h

-- One number of a row changes.
get_elem?-change :
    (f : ℕ → ℕ) (row : List ℕ) (k key count n : ℕ)
    → get_elem? row k ≡ some count
    → get_elem? row key ≡ some n
    → get_elem? (set row k (f count)) key ≡ some (if k == key then f n else n)
get_elem?-change f row k key count n there own = elim (Bool-cases (k == key)) [
  | inr apart ↦
      rw apart (get_elem?-set_ne row k key (f count) (λ e. absurd (ground (arith, apart, e))) ∙ own)
  | inl alike ↦
      let e : k ≡ key = ground (arith, alike) in
      let same : count ≡ n = cc (there, own, e) in
      rw (alike, ← same)
        (subst (λ j. get_elem? (set row k (f count)) j ≡ some (f count)) e
          (get_elem?-set_self row k (f count) (get_elem?-lt row k count there)))
]

change_hint-hint_at :
    (f : ℕ → ℕ) (r k replica key : ℕ) (hints hints' : List (List ℕ)) (n : ℕ)
    → change_hint f r k hints ≡ ok hints'
    → hint_at hints replica key ≡ ok n
    → hint_at hints' replica key ≡ ok (if r == replica && k == key then f n else n)
unfolding change_hint hint_at
change_hint-hint_at f r k replica key hints hints' n h there =
    let (row, found, h₁) = >>=-eq-ok (or_fault (get_elem? hints r) undefined) _ h in
    let (count, counted, h₂) = >>=-eq-ok (or_fault (get_elem? row k) undefined) _ h₁ in
    let (own, owned, there₁) = >>=-eq-ok (or_fault (get_elem? hints replica) undefined) _ there in
    let row_at = or_fault-some (get_elem? hints r) row found in
    let count_at = or_fault-some (get_elem? row k) count counted in
    let new_row = set row k (f count) in
    let same = ok-injective h₂ in
    let own_at = or_fault-some (get_elem? hints replica) own owned in
    let n_at = or_fault-some (get_elem? own key) n there₁ in
    let r_in = get_elem?-lt hints r row row_at in
    elim (Bool-cases (r == replica)) [
      | inr apart ↦
          let other =
            get_elem?-set_ne hints r replica new_row (λ e. absurd (ground (arith, apart, e))) in
          rw (← same, other, own_at, n_at, apart) refl
      | inl alike ↦
          let e : r ≡ replica = ground (arith, alike) in
          let mine : get_elem? (set hints r new_row) replica ≡ some new_row =
            subst (λ i. get_elem? (set hints r new_row) i ≡ some new_row) e
              (get_elem?-set_self hints r new_row r_in) in
          let whole : row ≡ own = cc (row_at, own_at, e) in
          let moved = get_elem?-change f row k key count n count_at (rw (← whole) at n_at) in
          rw (← same, mine, moved, alike) refl
    ]

-- The counter is what it was, with the drops and the adds of the log, on 64 bits.
pub replay_hints-tally :
    (replica key : ℕ) (log : List HintMessage) (hints hints' : List (List ℕ)) (n : ℕ)
    → replay_hints log hints ≡ ok hints'
    → hint_at hints replica key ≡ ok n
    → n < 2 ^ 64
    → (n' : ℕ) × (hint_at hints' replica key ≡ ok n')
      × (n' < 2 ^ 64)
      × ((n' + drops replica key log) % 2 ^ 64 ≡ (n + adds replica key log) % 2 ^ 64)
unfolding replay_hints apply_hint
replay_hints-tally replica key [] hints hints' n h there small =
    (n, rw (← ok-injective h) there, small, ground arith)
replay_hints-tally replica key (add_hint r k ∷ log) hints hints' n h there small =
    let (next, changed, rest) = >>=-eq-ok (change_hint increment r k hints) _ h in
    let m = if r == replica && k == key then increment n else n in
    let at_next = change_hint-hint_at increment r k replica key hints next n changed there in
    let (n', at_end, small', sums) =
      replay_hints-tally replica key log next hints' m rest at_next (ground (arith, small)) in
    (n', at_end, small', ground (arith, sums, small))
replay_hints-tally replica key (drop_hint r k ∷ log) hints hints' n h there small =
    let (next, changed, rest) = >>=-eq-ok (change_hint decrement r k hints) _ h in
    let m = if r == replica && k == key then decrement n else n in
    let at_next = change_hint-hint_at decrement r k replica key hints next n changed there in
    let (n', at_end, small', sums) =
      replay_hints-tally replica key log next hints' m rest at_next (ground (arith, small)) in
    (n', at_end, small', ground (arith, sums, small))
replay_hints-tally replica key (HintMessage.unset ∷ log) hints hints' n h there small =
    replay_hints-tally replica key log hints hints' n h there small
