-- ===== src/Kv/Messages/Order.antt =====
-- The order of timestamps, in terms of `operator<=`; and a concrete order.
use cs.Prelude.{◌≡◌, refl, true, false, ◌&&◌, ◌||◌, arith, ltb, ◌==◌, Bool, not}
use cs.Kv.Messages.{Timestamp, TimeOps}

module _ ⦃tm : TimeOps⦄ where
  pub not_after_refl : (a : Timestamp) → tm.not_after a a ≡ true
  not_after_refl a = ground (arith, tm.not_after_lem a a, tm.before_irrefl a)

  pub not_after_total : (a b : Timestamp) → tm.not_after a b ≡ false → tm.not_after b a ≡ true
  not_after_total a b h =
      ground (
        arith,
        tm.not_after_lem a b,
        tm.not_after_lem b a,
        tm.before_trans a b a,
        tm.before_irrefl a,
      )

  pub not_after_antisym :
      (a b : Timestamp) → tm.not_after a b ≡ true → tm.not_after b a ≡ true → a ≡ b
  not_after_antisym a b h k =
      tm.before_total a b (ground (arith, tm.not_after_lem b a))
        (ground (arith, tm.not_after_lem a b))

  pub not_after_trans :
      (a b c : Timestamp)
      → tm.not_after a b ≡ true
      → tm.not_after b c ≡ true
      → tm.not_after a c ≡ true
  not_after_trans a b c h k = ground (
    arith,
    tm.not_after_lem a b,
    tm.not_after_lem b c,
    tm.not_after_lem a c,
    tm.before_trans c a b,
    tm.before_total a b,
  )

-- Seconds first, then nanoseconds.
abbrev pub earlier : Timestamp → Timestamp → Bool
earlier a b = ltb a.seconds b.seconds || (a.seconds == b.seconds && ltb a.nanos b.nanos)

pub earlier_trans :
    (a b c : Timestamp) → earlier a b ≡ true → earlier b c ≡ true → earlier a c ≡ true
earlier_trans a b c h k = ground arith

pub earlier_total : (a b : Timestamp) → earlier a b ≡ false → earlier b a ≡ false → a ≡ b
earlier_total a b h k = ground arith

pub earlier_irrefl : (a : Timestamp) → earlier a a ≡ false
earlier_irrefl a = ground arith

instance abbrev pub by_seconds : TimeOps
by_seconds = record {
  before = earlier;
  not_after = λ a b. not (earlier b a);
  not_after_lem = λ a b. refl;
  before_irrefl = earlier_irrefl;
  before_trans = earlier_trans;
  before_total = earlier_total;
}
