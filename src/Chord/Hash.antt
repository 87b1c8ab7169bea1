-- ===== src/Chord/Hash.antt =====
-- Names and identifiers of the ring: chord/src/sha256.cpp hashes with OpenSSL, which is a parameter.
use cs.Prelude.{◌≡◌, Bool, true, false, ◌&&◌, ◌||◌, [], ◌∷◌, arith, ltb, ◌==◌}
use cs.Prelude.Eq.{Bytes}

-- `sha256`
pub record Hash : Type 0 where
  pub sha256 : Bytes → Bytes

-- `operator<` of `std::string`
abbrev pub before : Bytes → Bytes → Bool
before xs [] = false
before [] (y ∷ ys) = true
before (x ∷ xs) (y ∷ ys) = ltb x y || (x == y && before xs ys)

pub before_irrefl : (a : Bytes) → before a a ≡ false
before_irrefl [] = ground arith
before_irrefl (x ∷ xs) = ground (arith, before_irrefl xs)

pub before_trans : (a b c : Bytes) → before a b ≡ true → before b c ≡ true → before a c ≡ true
before_trans a b [] h k = absurd (ground arith)
before_trans a [] (z ∷ zs) h k = absurd (ground arith)
before_trans [] (y ∷ ys) (z ∷ zs) h k = ground arith
before_trans (x ∷ xs) (y ∷ ys) (z ∷ zs) h k = ground (arith, before_trans xs ys zs)

pub before_total : (a b : Bytes) → before a b ≡ false → before b a ≡ false → a ≡ b
before_total [] [] h k = ground arith
before_total [] (y ∷ ys) h k = absurd (ground arith)
before_total (x ∷ xs) [] h k = absurd (ground arith)
before_total (x ∷ xs) (y ∷ ys) h k = ground (arith, before_total xs ys)
