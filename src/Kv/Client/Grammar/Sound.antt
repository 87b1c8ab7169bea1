-- ===== src/Kv/Client/Grammar/Sound.antt =====
-- What is recognised is a command (the expressions of run_cmd in kv/client/src/client.cpp).
use Prim.Native.Char.{Char, code}
use cs.Prelude.{
  ℕ, ◌≡◌, refl, ap, sym, ◌∙◌, subst, String, true, false, Option, none, some, ◌==◌, arith,
  Bool-cases, Option-cases, inl, inr,
}
use cs.Kv.Client.{
  Command, get, put, is_digit, digits, digit, is_empty, one_line, lower, after, ◌>>=?◌, keyword,
  match_get, match_put, match_command,
}
use cs.Kv.Client.Grammar.{
  ◌+++◌, all_digits, one_char, IsWord, IsNumbers, IsCommand, is_get, is_put, get_tail, put_tail,
  numbered, or_else, match_get-tail, match_put-tail,
}

>>=?-eq-some :
    {A B : Type 0} (o : Option A) (f : A → Option B) (b : B)
    → (o >>=? f) ≡ some b
    → (a : A) × (o ≡ some a) × (f a ≡ some b)
>>=?-eq-some none f b h = absurd (cc h)
>>=?-eq-some (some a) f b h = (a, refl, h)

after-eq-some :
    (x : ℕ) (s r : String)
    → after x s ≡ some r
    → (d : Char) × (s ≡ String.◌∷◌ d r) × (lower (code d) ≡ x)
after-eq-some x String.[] r h = absurd (cc h)
after-eq-some x (String.◌∷◌ d s) r h = elim (Bool-cases (lower (code d) == x)) [
  | inl same ↦ let e : s ≡ r = cc (rw same at h) in (d, ap (String.◌∷◌ d) e, ground (arith, same))
  | inr other ↦ absurd (cc (rw other at h))
]

digit-eq-some :
    (s : String) (p : String × String)
    → digit s ≡ some p
    → (d : Char) × (s ≡ String.◌∷◌ d p.1) × (p.0 ≡ one_char d) × (is_digit (code d) ≡ true)
digit-eq-some String.[] p h = absurd (cc h)
digit-eq-some (String.◌∷◌ d s) p h = elim (Bool-cases (is_digit (code d))) [
  | inl one ↦
      let e : (one_char d, s) ≡ p = cc (rw one at h) in
      (d, ap (λ (q : String × String). String.◌∷◌ d q.1) e, ap (λ q. q.0) (sym e), one)
  | inr other ↦ absurd (cc (rw other at h))
]

digits-whole : (s : String) → (digits s).0 +++ (digits s).1 ≡ s
digits-whole String.[] = refl
digits-whole (String.◌∷◌ c s) = elim (Bool-cases (is_digit (code c))) [
  | inl one ↦ rw one (ap (String.◌∷◌ c) (digits-whole s))
  | inr other ↦ rw other refl
]

digits_all : (s : String) → all_digits (digits s).0 ≡ true
digits_all String.[] = refl
digits_all (String.◌∷◌ c s) = elim (Bool-cases (is_digit (code c))) [
  | inl one ↦ rw (one, digits_all s) (rw one refl)
  | inr other ↦ rw other refl
]

-- A recognised word with what follows it.
record Word (a b c : ℕ) (s rest : String) : Type 0 where
  k₁ : Char
  k₂ : Char
  k₃ : Char
  gap : Char
  whole : s ≡ String.◌∷◌ k₁ (String.◌∷◌ k₂ (String.◌∷◌ k₃ (String.◌∷◌ gap rest)))
  word : IsWord a b c k₁ k₂ k₃ gap

keyword-Word : (a b c : ℕ) (s rest : String) → keyword a b c s ≡ some rest → Word a b c s rest
keyword-Word a b c s rest h =
    let (s₁, h₁, g₁) = >>=?-eq-some (after a s) _ rest h in
    let (s₂, h₂, g₂) = >>=?-eq-some (after b s₁) _ rest g₁ in
    let (s₃, h₃, h₄) = >>=?-eq-some (after c s₂) _ rest g₂ in
    let (k₁, e₁, l₁) = after-eq-some a s s₁ h₁ in
    let (k₂, e₂, l₂) = after-eq-some b s₁ s₂ h₂ in
    let (k₃, e₃, l₃) = after-eq-some c s₂ s₃ h₃ in
    let (gap, e₄, l₄) = after-eq-some 32 s₃ rest h₄ in
    record {
      k₁ = k₁;
      k₂ = k₂;
      k₃ = k₃;
      gap = gap;
      whole = cc (e₁, e₂, e₃, e₄);
      word = record { first = l₁; second = l₂; third = l₃; blank = l₄ };
    }

-- The same with the digit and the blank after it.
record Numbered (a b c : ℕ) (s r : String) (tail : String → String → Option Command)
    (command : Command) : Type 0 where
  rest : String
  start : Word a b c s rest
  d : Char
  gap' : Char
  whole : rest ≡ String.◌∷◌ d (String.◌∷◌ gap' r)
  one : is_digit (code d) ≡ true
  apart : lower (code gap') ≡ 32
  last : tail (one_char d) r ≡ some command

numbered-Numbered :
    (a b c : ℕ) (s : String) (tail : String → String → Option Command) (command : Command)
    → (keyword a b c s >>=? digit >>=? numbered tail) ≡ some command
    → (r : String) × Numbered a b c s r tail command
numbered-Numbered a b c s tail command h =
    let (p, h₁, g₁) = >>=?-eq-some (keyword a b c s >>=? digit) (numbered tail) command h in
    let (rest, h₂, h₃) = >>=?-eq-some (keyword a b c s) digit p h₁ in
    let (r, h₄, h₅) = >>=?-eq-some (after 32 p.1) (tail p.0) command g₁ in
    let (d, e₁, named, one) = digit-eq-some rest p h₃ in
    let (gap', e₂, apart) = after-eq-some 32 p.1 r h₄ in
    (
      r,
      record {
        rest = rest;
        start = keyword-Word a b c s rest h₂;
        d = d;
        gap' = gap';
        whole = e₁ ∙ ap (String.◌∷◌ d) e₂;
        one = one;
        apart = apart;
        last = ap (λ q. tail q r) (sym named) ∙ h₅;
      },
    )

no_more : (s t : String) → is_empty t ≡ true → s +++ t ≡ s
no_more String.[] String.[] h = refl
no_more String.[] (String.◌∷◌ d t) h = absurd (cc h)
no_more (String.◌∷◌ c s) t h = ap (String.◌∷◌ c) (no_more s t h)

get_tail-IsNumbers :
    (d : Char) (gap' : Char) (r : String) (command : Command)
    → is_digit (code d) ≡ true
    → lower (code gap') ≡ 32
    → get_tail (one_char d) r ≡ some command
    → IsNumbers d gap' r × (get (one_char d) r ≡ command)
unfolding get_tail
get_tail-IsNumbers d gap' r command one apart h = elim (Bool-cases (is_empty (digits r).0)) [
  | inl none_there ↦ absurd (cc (rw none_there at h))
  | inr more ↦ elim (Bool-cases (is_empty (digits r).1)) [
    | inr left ↦ absurd (cc (rw (more, left) at h))
    | inl done ↦
        let all : (digits r).0 ≡ r =
          sym (no_more (digits r).0 (digits r).1 done) ∙ digits-whole r in
        (
          record {
            one = one;
            apart = apart;
            more = rw all at more;
            every = rw all at (digits_all r);
          },
          ap (get (one_char d)) (sym all) ∙ cc (rw (more, done) at h),
        )
  ]
]

get-IsCommand : (s : String) (command : Command) → match_get s ≡ some command → IsCommand s command
get-IsCommand s command h =
    let (r, n) = numbered-Numbered 103 101 116 s get_tail command (sym (match_get-tail s) ∙ h) in
    let (numbers, same) = get_tail-IsNumbers n.d n.gap' r command n.one n.apart n.last in
    let w = n.start in
    let whole =
      w.whole
      ∙ ap (λ t. String.◌∷◌ w.k₁ (String.◌∷◌ w.k₂ (String.◌∷◌ w.k₃ (String.◌∷◌ w.gap t))))
          n.whole in
    subst (IsCommand s) same (
      subst (λ t. IsCommand t (get (one_char n.d) r)) (sym whole)
        (is_get w.k₁ w.k₂ w.k₃ w.gap n.d n.gap' r w.word numbers))

-- The key and the text of a put.
record Put (d gap' : Char) (r : String) (command : Command) : Type 0 where
  gap'' : Char
  ds : String
  val : String
  whole : r ≡ ds +++ String.◌∷◌ gap'' val
  numbers : IsNumbers d gap' ds
  blank : lower (code gap'') ≡ 32
  some_text : is_empty val ≡ false
  line : one_line val ≡ true
  same : put (one_char d) ds val ≡ command

put_tail-Put :
    (d : Char) (gap' : Char) (r : String) (command : Command)
    → is_digit (code d) ≡ true
    → lower (code gap') ≡ 32
    → put_tail (one_char d) r ≡ some command
    → Put d gap' r command
unfolding put_tail
put_tail-Put d gap' r command one apart h =
    let (val, there, g) = >>=?-eq-some (after 32 (digits r).1) _ command h in
    let (gap'', e, blank) = after-eq-some 32 (digits r).1 val there in
    elim (Bool-cases (is_empty (digits r).0)) [
      | inl none_there ↦ absurd (cc (rw none_there at g))
      | inr more ↦ elim (Bool-cases (is_empty val)) [
        | inl nothing ↦ absurd (cc (rw (more, nothing) at g))
        | inr some_text ↦ elim (Bool-cases (one_line val)) [
          | inr lines ↦ absurd (cc (rw (more, some_text, lines) at g))
          | inl line ↦ record {
            gap'' = gap'';
            ds = (digits r).0;
            val = val;
            whole = sym (digits-whole r) ∙ ap (λ t. (digits r).0 +++ t) e;
            numbers = record { one = one; apart = apart; more = more; every = digits_all r };
            blank = blank;
            some_text = some_text;
            line = line;
            same = cc (rw (more, some_text, line) at g);
          }
        ]
      ]
    ]

put-IsCommand : (s : String) (command : Command) → match_put s ≡ some command → IsCommand s command
put-IsCommand s command h =
    let (r, n) = numbered-Numbered 112 117 116 s put_tail command (sym (match_put-tail s) ∙ h) in
    let p = put_tail-Put n.d n.gap' r command n.one n.apart n.last in
    let w = n.start in
    let whole =
      w.whole
      ∙ ap (λ t. String.◌∷◌ w.k₁ (String.◌∷◌ w.k₂ (String.◌∷◌ w.k₃ (String.◌∷◌ w.gap t))))
          (n.whole ∙ ap (λ t. String.◌∷◌ n.d (String.◌∷◌ n.gap' t)) p.whole) in
    subst (IsCommand s) p.same (
      subst (λ t. IsCommand t (put (one_char n.d) p.ds p.val)) (sym whole)
        (is_put w.k₁ w.k₂ w.k₃ w.gap n.d n.gap' p.gap'' p.ds p.val w.word p.numbers p.blank
          p.some_text p.line))

pub command-IsCommand :
    (s : String) (command : Command) → match_command s ≡ some command → IsCommand s command
command-IsCommand s command h = elim (Option-cases (match_get s)) [
  | inl nothing ↦ put-IsCommand s command (sym (ap (λ o. or_else o (match_put s)) nothing) ∙ h)
  | inr (c, there) ↦
      get-IsCommand s command (there ∙ sym (ap (λ o. or_else o (match_put s)) there) ∙ h)
]
