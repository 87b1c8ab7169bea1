-- ===== src/Kv/Client.antt =====
-- kv/client/src/client.cpp: the interactive client. What it shows of a command's state (the prompt
-- and that a command failed or is invalid) is left out.
pub mod Grammar
pub mod Sent
use Prim.Native.Char.{code}
use cs.Prelude.{
  ℕ, ◌+◌, ◌-◌, ◌*◌, ◌^◌, ◌≡◌, String, Bool, true, false, ◌&&◌, ◌||◌, not, leb, ltb, ◌==◌,
  if◌then◌else◌, Option, none, some, List, [], ◌∷◌, ◌++◌,
}
use cs.Prelude.Outcome.{Outcome, ok, fault, out_of_range, ◌>>=◌}
use cs.Kv.Messages.{GetKey, PutKey, ClientMessage, get_key, put_key, get_key_resp, put_key_resp}
use cs.Kv.Messages

-- A command as its expression's groups.
pub data Command : Type 0 where
  get : String → String → Command
  put : String → String → String → Command

-- What is written of a response: its key, and its value where it has one.
pub data Shown : Type 0 where
  put_at : ℕ → Shown
  get_at : ℕ → String → Shown

-- `timer` says that the timer of the last command runs; `exited` that the input has ended.
pub record Client : Type 0 where
  pub sent : List ClientMessage
  pub shown : List Shown
  pub timer : Bool
  pub exited : Bool

abbrev pub is_digit : ℕ → Bool
is_digit c = leb 48 c && leb c 57

-- \d+, and the one-character \d: the match and the rest.
abbrev pub digits : String → String × String
digits String.[] = (String.[], String.[])
digits (String.◌∷◌ c s) =
    let (front, rest) = digits s in
    if is_digit (code c) then (String.◌∷◌ c front, rest) else (String.[], String.◌∷◌ c s)

abbrev pub digit : String → Option (String × String)
digit String.[] = none
digit (String.◌∷◌ c s) = if is_digit (code c) then some (String.◌∷◌ c String.[], s) else none

abbrev pub is_empty : String → Bool
is_empty String.[] = true
is_empty (String.◌∷◌ c s) = false

-- (.+)$, whose dot is any character but a line's end.
abbrev pub one_line : String → Bool
one_line String.[] = true
one_line (String.◌∷◌ c s) = not (code c == 10 || code c == 13) && one_line s

-- The rest after a character, in either case where it is a letter.
abbrev pub lower : ℕ → ℕ
lower c = if leb 65 c && leb c 90 then c + 32 else c

abbrev pub after : ℕ → String → Option String
after c String.[] = none
after c (String.◌∷◌ d s) = if lower (code d) == c then some s else none

infixl 5 ◌>>=?◌
abbrev pub ◌>>=?◌ : {A B : Type 0} → Option A → (A → Option B) → Option B
none >>=? f = none
some a >>=? f = f a

-- The three letters of a command and the blank after them.
abbrev pub keyword : ℕ → ℕ → ℕ → String → Option String
keyword a b c s = after a s >>=? λ s₁. after b s₁ >>=? λ s₂. after c s₂ >>=? after 32

-- ^get (\d) (\d+)$
unfoldable pub match_get : String → Option Command
match_get s = keyword 103 101 116 s >>=? digit >>=? λ d. after 32 d.1 >>=? λ r.
    if is_empty (digits r).0 || not (is_empty (digits r).1)
    then none
    else some (get d.0 (digits r).0)

-- ^put (\d) (\d+) (.+)$
unfoldable pub match_put : String → Option Command
match_put s = keyword 112 117 116 s >>=? digit >>=? λ d. after 32 d.1 >>=? λ r.
    after 32 (digits r).1 >>=? λ val.
    if is_empty (digits r).0 || is_empty val || not (one_line val)
    then none
    else some (put d.0 (digits r).0 val)

abbrev pub number : ℕ → String → ℕ
number acc String.[] = acc
number acc (String.◌∷◌ c s) = number (acc * 10 + (code c - 48)) s

-- `std::stoi` of digits
abbrev pub stoi : String → Outcome ℕ
stoi s = if ltb (number 0 s) (2 ^ 31) then ok (number 0 s) else fault out_of_range

unfoldable pub request : Command → Outcome ClientMessage
request (get c k) = do
  consistency ← stoi c
  key ← stoi k
  ok (get_key (record { stream = 0; key = key; consistency = consistency }))
request (put c k val) = do
  consistency ← stoi c
  key ← stoi k
  ok (put_key (record { stream = 0; key = key; val = val; consistency = consistency }))

abbrev pub match_command : String → Option Command
match_command line = elim (match_get line) [ some c ↦ some c | none ↦ match_put line ]

-- `run_cmd` on the lines of the input that a newline ends, up to a valid command: the client, and
-- the lines that are left. Where the input ends, the program does.
unfoldable pub run_cmd : List String → Client → Outcome (Client × List String)
unfolding match_get match_put request
run_cmd [] c = ok (record c { timer = false; exited = true }, [])
run_cmd (line ∷ lines) c = elim (match_command line) [
  | none ↦ run_cmd lines (record c { timer = false })
  | some command ↦ do
    msg ← request command
    ok (record c { sent = c.sent ++ msg ∷ []; timer = true }, lines)
]

abbrev pub show : ClientMessage → List Shown
show (put_key_resp stream key) = put_at key ∷ []
show (get_key_resp stream key val) = get_at key val ∷ []
show _ = []

unfoldable pub message_handler :
    ClientMessage → List String → Client → Outcome (Client × List String)
unfolding run_cmd
message_handler msg lines c = run_cmd lines (record c { shown = c.shown ++ show msg })

-- The handler of the timer: the last command got no answer within five seconds.
unfoldable pub timed_out : List String → Client → Outcome (Client × List String)
unfolding run_cmd
timed_out lines c = run_cmd lines c
