-- ===== src/Bank/Controller/Lines.antt =====
-- The lines of the file of branches (do_read_list of bank/src/controller.cpp).
use Prim.Native.Char.{code}
use cs.Prelude.{
  ℕ, ◌%◌, ◌^◌, ◌<◌, ◌≡◌, refl, ap, ◌∙◌, sym, String, Bool, true, false, ◌&&◌, not, some, List, [],
  ◌∷◌, ◌++◌, map, All, arith, append-nil, append_assoc,
}
use cs.Prelude.Outcome.{ok}
use cs.Bank.Messages.{PeerInfo}
use cs.Bank.Controller.{
  Controller, is_space, is_digit, is_empty, span, match_line, number, read_line, read_lines,
}

-- A line as its three fields and the two gaps between them.
pub record Row : Type 0 where
  pub name : String
  pub gap₁ : String
  pub ip : String
  pub gap₂ : String
  pub port : String

infixr 6 ◌+++◌
abbrev pub ◌+++◌ : String → String → String
String.[] +++ t = t
String.◌∷◌ c s +++ t = String.◌∷◌ c (s +++ t)

abbrev pub text : Row → String
text r = r.name +++ (r.gap₁ +++ (r.ip +++ (r.gap₂ +++ r.port)))

abbrev pub all_in : (ℕ → Bool) → String → Bool
all_in in_class String.[] = true
all_in in_class (String.◌∷◌ c s) = in_class (code c) && all_in in_class s

abbrev pub no_space : ℕ → Bool
no_space c = not (is_space c)

-- Not empty, and of characters of a class.
pub record IsField (in_class : ℕ → Bool) (s : String) : Type 0 where
  pub some_text : is_empty s ≡ false
  pub every : all_in in_class s ≡ true

pub record IsRow (r : Row) : Type 0 where
  pub named : IsField no_space r.name
  pub apart₁ : IsField is_space r.gap₁
  pub placed : IsField no_space r.ip
  pub apart₂ : IsField is_space r.gap₂
  pub numbered : IsField is_digit r.port
  pub small : number 0 r.port < 2 ^ 64

-- The name, the host and the port, of which 16 bits are kept.
abbrev pub peer : Row → PeerInfo
peer r = (r.name, r.ip, number 0 r.port % 2 ^ 16)

starts : (ℕ → Bool) → String → Bool
starts in_class String.[] = false
starts in_class (String.◌∷◌ c s) = in_class (code c)

starts-other :
    (in_class other : ℕ → Bool) (s t : String)
    → ((c : ℕ) → in_class c ≡ true → other c ≡ false)
    → IsField in_class s
    → starts other (s +++ t) ≡ false
unfolding starts
starts-other in_class other String.[] t differ f = absurd (cc (f.some_text))
starts-other in_class other (String.◌∷◌ c s) t differ f = differ (code c) (ground (arith, f.every))

span-field :
    (in_class : ℕ → Bool) (s t : String)
    → all_in in_class s ≡ true
    → starts in_class t ≡ false
    → span in_class (s +++ t) ≡ (s, t)
unfolding starts
span-field in_class String.[] String.[] every stop = refl
span-field in_class String.[] (String.◌∷◌ c t) every stop = ground (arith, stop)
span-field in_class (String.◌∷◌ c s) t every stop =
    ground (arith, every, span-field in_class s t (ground (arith, every)) stop)

no_more : (s : String) → s +++ String.[] ≡ s
no_more String.[] = refl
no_more (String.◌∷◌ c s) = ap (String.◌∷◌ c) (no_more s)

match_line-text : (r : Row) → IsRow r → match_line (text r) ≡ some (r.name, r.ip, r.port)
unfolding match_line starts
match_line-text r h =
    let name =
      span-field no_space r.name (r.gap₁ +++ (r.ip +++ (r.gap₂ +++ r.port))) h.named.every
        (starts-other is_space no_space r.gap₁ _ (λ c e. ground (arith, e)) h.apart₁) in
    let gap₁ =
      span-field is_space r.gap₁ (r.ip +++ (r.gap₂ +++ r.port)) h.apart₁.every
        (starts-other no_space is_space r.ip _ (λ c e. ground (arith, e)) h.placed) in
    let ip =
      span-field no_space r.ip (r.gap₂ +++ r.port) h.placed.every
        (starts-other is_space no_space r.gap₂ _ (λ c e. ground (arith, e)) h.apart₂) in
    let gap₂ = span-field is_space r.gap₂ r.port h.apart₂.every (
      ap (starts is_space) (sym (no_more r.port))
      ∙ starts-other is_digit is_space r.port String.[] (λ c e. ground (arith, e)) h.numbered) in
    let port =
      ap (span is_digit) (sym (no_more r.port))
      ∙ span-field is_digit r.port String.[] h.numbered.every refl in
    rw
      (
        match_line, name, gap₁, ip, gap₂, port, h.named.some_text, h.apart₁.some_text,
        h.placed.some_text, h.apart₂.some_text, h.numbered.some_text,
      )
      refl

pub read_lines-rows :
    (rows : List Row) (c : Controller)
    → All IsRow rows
    → read_lines (map text rows) c
      ≡ ok (record c {
        peers = c.peers ++ map peer rows;
        msg = record c.msg { all_branches = c.msg.all_branches ++ map peer rows };
      })
unfolding read_lines read_line
read_lines-rows [] c rows_ok = ground (arith, append-nil c.peers, append-nil c.msg.all_branches)
read_lines-rows (r ∷ rows) c (row_ok, rows_ok) =
    let next = record c {
      peers = c.peers ++ peer r ∷ [];
      msg = record c.msg { all_branches = c.msg.all_branches ++ peer r ∷ [] };
    } in
    ground (
      arith,
      match_line-text r row_ok,
      row_ok.small,
      read_lines-rows rows next rows_ok,
      append_assoc c.peers (peer r ∷ []) (map peer rows),
      append_assoc c.msg.all_branches (peer r ∷ []) (map peer rows),
    )
