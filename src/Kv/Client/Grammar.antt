-- ===== src/Kv/Client/Grammar.antt =====
-- Which lines are commands (the expressions of run_cmd in kv/client/src/client.cpp).
pub mod Sound
use Prim.Native.Char.{Char, code}
use cs.Prelude.{
  ℕ, ◌≡◌, refl, ap, sym, ◌∙◌, subst, String, Bool, true, false, ◌&&◌, ◌||◌, not, leb, Option, none,
  some, List, [], ◌∷◌, ◌==◌, if◌then◌else◌, arith, Bool-cases, Option-cases, inl, inr,
}
use cs.Kv.Client.{
  Command, get, put, is_digit, digits, digit, is_empty, one_line, lower, after, ◌>>=?◌, keyword,
  match_get, match_put, match_command,
}

infixr 6 ◌+++◌
abbrev pub ◌+++◌ : String → String → String
String.[] +++ t = t
String.◌∷◌ c s +++ t = String.◌∷◌ c (s +++ t)

abbrev pub all_digits : String → Bool
all_digits String.[] = true
all_digits (String.◌∷◌ c s) = is_digit (code c) && all_digits s

-- Three letters, in either case, and a blank.
pub record IsWord (a b c : ℕ) (k₁ k₂ k₃ gap : Char) : Type 0 where
  pub first : lower (code k₁) ≡ a
  pub second : lower (code k₂) ≡ b
  pub third : lower (code k₃) ≡ c
  pub blank : lower (code gap) ≡ 32

-- One digit, a blank, and one digit or more.
pub record IsNumbers (d gap : Char) (ds : String) : Type 0 where
  pub one : is_digit (code d) ≡ true
  pub apart : lower (code gap) ≡ 32
  pub more : is_empty ds ≡ false
  pub every : all_digits ds ≡ true

abbrev one_char : Char → String
one_char d = String.◌∷◌ d String.[]

-- "get 2 7", "put 2 7 text": the texts of the commands, with the consistency before the key.
pub data IsCommand : String → Command → Type 0 where
  is_get :
      (k₁ k₂ k₃ gap d gap' : Char) (ds : String)
      → IsWord 103 101 116 k₁ k₂ k₃ gap
      → IsNumbers d gap' ds
      → IsCommand
          (String.◌∷◌ k₁
            (String.◌∷◌ k₂ (String.◌∷◌ k₃ (String.◌∷◌ gap (String.◌∷◌ d (String.◌∷◌ gap' ds))))))
          (get (String.◌∷◌ d String.[]) ds)
  is_put :
      (k₁ k₂ k₃ gap d gap' gap'' : Char) (ds val : String)
      → IsWord 112 117 116 k₁ k₂ k₃ gap
      → IsNumbers d gap' ds
      → lower (code gap'') ≡ 32
      → is_empty val ≡ false
      → one_line val ≡ true
      → IsCommand
          (String.◌∷◌ k₁ (
            String.◌∷◌ k₂ (
              String.◌∷◌ k₃
                (String.◌∷◌ gap (String.◌∷◌ d (String.◌∷◌ gap' (ds +++ String.◌∷◌ gap'' val)))))))
          (put (String.◌∷◌ d String.[]) ds val)

not_digit : (c : ℕ) → lower c ≡ 32 → is_digit c ≡ false
not_digit c h = ground (arith, h)

digits-all : (ds : String) → all_digits ds ≡ true → digits ds ≡ (ds, String.[])
digits-all String.[] h = refl
digits-all (String.◌∷◌ c s) h = ground (arith, h, digits-all s (ground (arith, h)))

digits-stop :
    (ds val : String) (gap : Char)
    → all_digits ds ≡ true
    → lower (code gap) ≡ 32
    → digits (ds +++ String.◌∷◌ gap val) ≡ (ds, String.◌∷◌ gap val)
digits-stop String.[] val gap h blank = ground (arith, not_digit (code gap) blank)
digits-stop (String.◌∷◌ c s) val gap h blank =
    ground (arith, h, digits-stop s val gap (ground (arith, h)) blank)

after-some :
    (x : ℕ) (d : Char) (s : String) → lower (code d) ≡ x → after x (String.◌∷◌ d s) ≡ some s
after-some x d s h = rw h (ground arith)

keyword-IsWord :
    (a b c : ℕ) (k₁ k₂ k₃ gap : Char) (s : String)
    → IsWord a b c k₁ k₂ k₃ gap
    → keyword a b c (String.◌∷◌ k₁ (String.◌∷◌ k₂ (String.◌∷◌ k₃ (String.◌∷◌ gap s)))) ≡ some s
keyword-IsWord a b c k₁ k₂ k₃ gap s w =
    ap (λ o. o >>=? λ s₁. after b s₁ >>=? λ s₂. after c s₂ >>=? after 32)
      (after-some a k₁ _ w.first)
    ∙ ap (λ o. o >>=? λ s₂. after c s₂ >>=? after 32) (after-some b k₂ _ w.second)
    ∙ ap (λ o. o >>=? after 32) (after-some c k₃ _ w.third)
    ∙ after-some 32 gap s w.blank

other_word :
    (a b c x : ℕ) (k : Char) (s : String)
    → lower (code k) ≡ x
    → (x == a) ≡ false
    → keyword a b c (String.◌∷◌ k s) ≡ none
other_word a b c x k s h differ = rw (h, differ) refl

digit-one :
    (d : Char) (s : String)
    → is_digit (code d) ≡ true
    → digit (String.◌∷◌ d s) ≡ some (one_char d, s)
digit-one d s h = rw h refl

-- What the expressions say after the first blank.
get_tail : String → String → Option Command
get_tail d r =
    if is_empty (digits r).0 || not (is_empty (digits r).1) then none else some (get d (digits r).0)

put_tail : String → String → Option Command
put_tail d r = after 32 (digits r).1 >>=? λ val.
    if is_empty (digits r).0 || is_empty val || not (one_line val)
    then none
    else some (put d (digits r).0 val)

abbrev numbered : (String → String → Option Command) → String × String → Option Command
numbered tail d = after 32 d.1 >>=? tail d.0

numbered-tail :
    (tail : String → String → Option Command) (d gap : Char) (r : String)
    → is_digit (code d) ≡ true
    → lower (code gap) ≡ 32
    → (digit (String.◌∷◌ d (String.◌∷◌ gap r)) >>=? numbered tail) ≡ tail (one_char d) r
numbered-tail tail d gap r one apart =
    ap (λ o. o >>=? numbered tail) (digit-one d (String.◌∷◌ gap r) one)
    ∙ ap (λ o. o >>=? tail (one_char d)) (after-some 32 gap r apart)

match_get-tail :
    (s : String) → match_get s ≡ (keyword 103 101 116 s >>=? digit >>=? numbered get_tail)
unfolding match_get get_tail
match_get-tail s = refl

match_put-tail :
    (s : String) → match_put s ≡ (keyword 112 117 116 s >>=? digit >>=? numbered put_tail)
unfolding match_put put_tail
match_put-tail s = refl

get_tail-digits :
    (d ds : String) → is_empty ds ≡ false → all_digits ds ≡ true → get_tail d ds ≡ some (get d ds)
unfolding get_tail
get_tail-digits d ds more every = rw (digits-all ds every, more) refl

put_tail-digits :
    (d ds val : String) (gap : Char)
    → is_empty ds ≡ false
    → all_digits ds ≡ true
    → lower (code gap) ≡ 32
    → is_empty val ≡ false
    → one_line val ≡ true
    → put_tail d (ds +++ String.◌∷◌ gap val) ≡ some (put d ds val)
unfolding put_tail
put_tail-digits d ds val gap more every blank some_text line =
    ap
      (λ p. after 32 p.1 >>=? λ v.
        if is_empty p.0 || is_empty v || not (one_line v) then none else some (put d p.0 v))
      (digits-stop ds val gap every blank)
    ∙ ap
        (λ o. o >>=? λ v.
          if is_empty ds || is_empty v || not (one_line v) then none else some (put d ds v))
        (after-some 32 gap val blank)
    ∙ rw (more, some_text, line) refl

abbrev or_else : Option Command → Option Command → Option Command
or_else a b = elim a [ some c ↦ some c | none ↦ b ]

-- A command is recognised, with its fields.
pub match_command-IsCommand :
    (line : String) (command : Command) → IsCommand line command → match_command line ≡ some command
match_command-IsCommand line command (is_get k₁ k₂ k₃ gap d gap' ds word numbers) =
    ap (λ o. or_else o (match_put line))
      (match_get-tail line
        ∙ ap (λ o. o >>=? digit >>=? numbered get_tail)
            (keyword-IsWord 103 101 116 k₁ k₂ k₃ gap _ word)
        ∙ numbered-tail get_tail d gap' ds numbers.one numbers.apart
        ∙ get_tail-digits (one_char d) ds numbers.more numbers.every)
match_command-IsCommand line command
      (is_put k₁ k₂ k₃ gap d gap' gap'' ds val word numbers blank some_text one) =
    ap (λ o. or_else o (match_put line))
      (match_get-tail line
        ∙ ap (λ o. o >>=? digit >>=? numbered get_tail)
            (other_word 103 101 116 112 k₁ _ word.first refl))
    ∙ match_put-tail line
    ∙ ap (λ o. o >>=? digit >>=? numbered put_tail) (keyword-IsWord 112 117 116 k₁ k₂ k₃ gap _ word)
    ∙ numbered-tail put_tail d gap' _ numbers.one numbers.apart
    ∙ put_tail-digits (one_char d) ds val gap'' numbers.more numbers.every blank some_text one
