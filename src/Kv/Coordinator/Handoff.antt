-- ===== src/Kv/Coordinator/Handoff.antt =====
-- What a server that connects again is sent (recon_handler of kv/server/src/coordinator.cpp).
use mathlib.Core.List.{Mem, mem-cons_self, mem-cons_of_mem, mem-append_right, mem-map_of_mem}
use cs.Prelude.{
  ℕ, zero, suc, ◌+◌, ◌≡◌, ◌≢◌, refl, ap, sym, ◌∙◌, subst, true, Option, none, some, List, [], ◌∷◌,
  ◌++◌, map, append-nil, append_assoc, arith, get_elem?, All, Bool-cases, inl, inr, ◌==◌,
}
use cs.Prelude.Outcome.{ok, ok-injective, ◌>>=◌, >>=-eq-ok}
use cs.Kv.Messages.{DoWrite, do_write, intro}
use cs.Kv.Replica.{Element, read}
use cs.Kv.Coordinator.State.{Coordinator, ServerLink, Sent, to_server, send, is_hinted_handoff}
use cs.Kv.Coordinator.Server.{handoff, send_writes, recon_handler}
use cs.Kv.Coordinator.Repair.{repair_write}

abbrev handed : Option Element → ℕ → List DoWrite → List DoWrite
handed none i rest = rest
handed (some e) i rest = repair_write i e ∷ rest

handed-Mem :
    (found : Option Element) (i : ℕ) (rest : List DoWrite) (msg : DoWrite)
    → Mem msg rest
    → Mem msg (handed found i rest)
handed-Mem none i rest msg h = h
handed-Mem (some e) i rest msg h = mem-cons_of_mem _ h

-- One round of the loop, at a counter that is zero and at one that is not.
handoff_zero :
    (s : Coordinator) (link : ServerLink) (count : ℕ) (row : List ℕ) (i : ℕ) (msgs : List DoWrite)
    → handoff s link (count ∷ row) i ≡ ok msgs
    → count ≡ 0
    → handoff s link row (suc i) ≡ ok msgs
unfolding handoff
handoff_zero s link count row i msgs h none_left =
    let (rest, done, h') = >>=-eq-ok (handoff s link row (suc i)) _ h in ground (arith, done, h')

handoff_counted :
    (s : Coordinator) (link : ServerLink) (count : ℕ) (row : List ℕ) (i : ℕ) (msgs : List DoWrite)
    → handoff s link (count ∷ row) i ≡ ok msgs
    → count ≢ 0
    → (rest : List DoWrite) × (found : Option Element) × (handoff s link row (suc i) ≡ ok rest)
      × (read s.replica i ≡ ok found)
      × (msgs ≡ handed found i rest)
unfolding handoff
handoff_counted s link count row i msgs h counted =
    let (rest, done, h') = >>=-eq-ok (handoff s link row (suc i)) _ h in
    let h₁ : (read s.replica i >>= λ found. ok (handed found i rest)) ≡ ok msgs =
      ground (arith, h') in
    let (found, there, same) = >>=-eq-ok (read s.replica i) _ h₁ in
    (rest, found, done, there, ok-injective (sym same))

handoff-Mem :
    (s : Coordinator) (link : ServerLink) (row : List ℕ) (i : ℕ) (msgs : List DoWrite) (k c : ℕ)
    (e : Element)
    → handoff s link row i ≡ ok msgs
    → get_elem? row k ≡ some c
    → c ≢ 0
    → read s.replica (i + k) ≡ ok (some e)
    → Mem (repair_write (i + k) e) msgs
handoff-Mem s link [] i msgs k c e h there counted held = absurd (cc there)
handoff-Mem s link (count ∷ row) i msgs zero c e h there counted held =
    let (rest, found, done, stored, same) =
      handoff_counted s link count row i msgs h (λ z. counted (ground (arith, there, z))) in
    let at_i : i + 0 ≡ i = omega arith in
    let is_e : found ≡ some e = ok-injective (sym stored ∙ rw (← at_i) held) in
    rw (same, is_e, at_i) mem-cons_self
handoff-Mem s link (count ∷ row) i msgs (suc k) c e h there counted held =
    let shift : i + suc k ≡ suc i + k = omega arith in
    elim (Bool-cases (count == 0)) [
      | inl empty ↦ rw shift (
          handoff-Mem s link row (suc i) msgs k c e
            (handoff_zero s link count row i msgs h (ground (arith, empty))) there counted
            (rw (← shift) held))
      | inr full ↦
          let (rest, found, done, stored, same) =
            handoff_counted s link count row i msgs h (λ z. ground (arith, full, z)) in
          rw (shift, same)
            (handed-Mem found i rest (repair_write (suc i + k) e)
              (handoff-Mem s link row (suc i) rest k c e done there counted (rw (← shift) held)))
    ]

-- A write that the row's counters, from key i on, and the replica call for.
abbrev pub IsDue : Coordinator → List ℕ → ℕ → DoWrite → Type 0
IsDue s row i msg =
    (k : ℕ) × (c : ℕ) × (e : Element) × (get_elem? row k ≡ some c)
    × (c ≢ 0)
    × (read s.replica (i + k) ≡ ok (some e))
    × (msg ≡ repair_write (i + k) e)

IsDue-cons :
    (s : Coordinator) (count : ℕ) (row : List ℕ) (i : ℕ) (msgs : List DoWrite)
    → All (IsDue s row (suc i)) msgs
    → All (IsDue s (count ∷ row) i) msgs
IsDue-cons s count row i [] h = tt
IsDue-cons s count row i (msg ∷ msgs) h =
    let (k, c, e, there, counted, held, same) = h.0 in
    let shift : i + suc k ≡ suc i + k = omega arith in
    ((suc k, c, e, there, counted, rw shift held, rw shift same), IsDue-cons s count row i msgs h.1)

handed-IsDue :
    (s : Coordinator) (count : ℕ) (row : List ℕ) (i : ℕ) (rest : List DoWrite)
    (found : Option Element)
    → count ≢ 0
    → read s.replica i ≡ ok found
    → All (IsDue s (count ∷ row) i) rest
    → All (IsDue s (count ∷ row) i) (handed found i rest)
handed-IsDue s count row i rest none counted stored h = h
handed-IsDue s count row i rest (some e) counted stored h =
    let at_i : i + 0 ≡ i = omega arith in
    ((0, count, e, refl, counted, rw at_i stored, rw at_i refl), h)

handoff-IsDue :
    (s : Coordinator) (link : ServerLink) (row : List ℕ) (i : ℕ) (msgs : List DoWrite)
    → handoff s link row i ≡ ok msgs
    → All (IsDue s row i) msgs
unfolding handoff
handoff-IsDue s link [] i msgs h = subst (All (IsDue s [] i)) (ok-injective h) tt
handoff-IsDue s link (count ∷ row) i msgs h = elim (Bool-cases (count == 0)) [
  | inl empty ↦ IsDue-cons s count row i msgs (
      handoff-IsDue s link row (suc i) msgs
        (handoff_zero s link count row i msgs h (ground (arith, empty))))
  | inr full ↦
      let counted : count ≢ 0 = λ z. ground (arith, full, z) in
      let (rest, found, done, stored, same) = handoff_counted s link count row i msgs h counted in
      rw same (
        handed-IsDue s count row i rest found counted stored
          (IsDue-cons s count row i rest (handoff-IsDue s link row (suc i) rest done)))
]

abbrev pub as_sent : ServerLink → List DoWrite → List Sent
as_sent link = map (λ msg. to_server link (do_write msg))

sent-send_writes :
    (link : ServerLink) (msgs : List DoWrite) (s : Coordinator)
    → (send_writes link msgs s).sent ≡ s.sent ++ as_sent link msgs
sent-send_writes link [] s = sym (append-nil s.sent)
sent-send_writes link (msg ∷ msgs) s =
    sent-send_writes link msgs (send (to_server link (do_write msg)) s)
    ∙ append_assoc s.sent (to_server link (do_write msg) ∷ []) (as_sent link msgs)

abbrev greeting : Coordinator → ServerLink → Sent
greeting s link = to_server link (intro s.config.listen_ip s.config.listen_port)

recon_handler_lem :
    (id : ℕ) (link : ServerLink) (row : List ℕ) (s s' : Coordinator)
    → recon_handler id link s ≡ ok s'
    → is_hinted_handoff s.config.mode ≡ true
    → get_elem? s.hints id ≡ some row
    → (msgs : List DoWrite) × (handoff s link row 0 ≡ ok msgs)
      × (s'.sent ≡ s.sent ++ greeting s link ∷ as_sent link msgs)
unfolding recon_handler
recon_handler_lem id link row s s' h on there =
    let (msgs, found, same) =
      >>=-eq-ok (handoff s link row 0) _ (rw (on, there, recon_handler) at h) in
    (
      msgs,
      found,
      ap (λ (t : Coordinator). t.sent) (ok-injective (sym same))
          ∙ sent-send_writes link msgs (send (greeting s link) s)
          ∙ append_assoc s.sent (greeting s link ∷ []) (as_sent link msgs),
    )

-- In the mode with hints, a server that connects is sent, after the introduction, only writes of
-- values that this server holds under keys whose counter for that server is not zero.
pub handoff_sends-IsDue :
    (id : ℕ) (link : ServerLink) (row : List ℕ) (s s' : Coordinator)
    → recon_handler id link s ≡ ok s'
    → is_hinted_handoff s.config.mode ≡ true
    → get_elem? s.hints id ≡ some row
    → (msgs : List DoWrite) × (s'.sent ≡ s.sent ++ greeting s link ∷ as_sent link msgs)
      × All (IsDue s row 0) msgs
handoff_sends-IsDue id link row s s' h on there =
    let (msgs, listed, sent) = recon_handler_lem id link row s s' h on there in
    (msgs, sent, handoff-IsDue s link row 0 msgs listed)

-- In the mode with hints, a server that connects is sent the value that this server holds under
-- each key whose counter for that server is not zero.
pub handoff_covers :
    (id : ℕ) (link : ServerLink) (row : List ℕ) (s s' : Coordinator) (k c : ℕ) (e : Element)
    → recon_handler id link s ≡ ok s'
    → is_hinted_handoff s.config.mode ≡ true
    → get_elem? s.hints id ≡ some row
    → get_elem? row k ≡ some c
    → c ≢ 0
    → read s.replica k ≡ ok (some e)
    → Mem (to_server link (do_write (repair_write k e))) s'.sent
handoff_covers id link row s s' k c e h on there row_k counted held =
    let (msgs, listed, sent) = recon_handler_lem id link row s s' h on there in
    let at_k : 0 + k ≡ k = omega arith in
    let member : Mem (repair_write k e) msgs =
      rw at_k at (handoff-Mem s link row 0 msgs k c e listed row_k counted (rw at_k held)) in
    rw sent (
      mem-append_right s.sent (
        mem-cons_of_mem (greeting s link)
          (mem-map_of_mem (λ msg. to_server link (do_write msg)) member)))
