-- ===== src/Kv/Client/Sent.antt =====
-- What the client sends (run_cmd of kv/client/src/client.cpp).
use cs.Prelude.{
  ◌^◌, ◌<◌, ◌≡◌, refl, String, true, false, none, List, [], ◌∷◌, ◌++◌, All, arith, inl, inr,
  Option-cases,
}
use cs.Prelude.Outcome.{ok}
use cs.Kv.Messages.{ClientMessage, get_key, put_key}
use cs.Kv.Client.{Client, Command, get, put, number, request, run_cmd, match_command}
use cs.Kv.Client.Grammar.{IsCommand, is_get, is_put, match_command-IsCommand}
use cs.Kv.Client.Grammar.Sound.{command-IsCommand}

-- The message for a command's consistency, key and value.
abbrev pub asked : Command → ClientMessage
asked (get consistency key) =
    get_key (record { stream = 0; key = number 0 key; consistency = number 0 consistency })
asked (put consistency key val) =
    put_key
      (record { stream = 0; key = number 0 key; val = val; consistency = number 0 consistency })

abbrev pub key_of : Command → String
key_of (get consistency key) = key
key_of (put consistency key val) = key

-- The text of no command.
abbrev pub NoCommand : String → Type 0
NoCommand line = (command : Command) → ¬ IsCommand line command

no_match : (line : String) → NoCommand line → match_command line ≡ none
no_match line other = elim (Option-cases (match_command line)) [
  | inl nothing ↦ nothing
  | inr (command, there) ↦ absurd (other command (command-IsCommand line command there))
]

request-asked :
    (line : String) (command : Command)
    → IsCommand line command
    → number 0 (key_of command) < 2 ^ 31
    → request command ≡ ok (asked command)
unfolding request
request-asked _ _ (is_get k₁ k₂ k₃ gap d gap' ds word numbers) small =
    ground (arith, numbers.one, small)
request-asked _ _ (is_put k₁ k₂ k₃ gap d gap' gap'' ds val word numbers blank some_text line)
      small =
    ground (arith, numbers.one, small)

-- Lines that are the text of no command are skipped and nothing is sent for them. Where the input ends
-- with them, the client leaves. Where a command comes after them, in either case of letters and with
-- a key below 2^31, the client sends one request, with stream 0 and the consistency, the key and the
-- value in their places in the line, starts its timer, and leaves the lines that follow.
pub one_request :
    (skipped rest : List String) (line : String) (command : Command) (c : Client)
    → All NoCommand skipped
    → IsCommand line command
    → number 0 (key_of command) < 2 ^ 31
    → (run_cmd skipped c ≡ ok (record c { timer = false; exited = true }, []))
      × (run_cmd (skipped ++ line ∷ rest) c
          ≡ ok (record c { sent = c.sent ++ asked command ∷ []; timer = true }, rest))
unfolding run_cmd
one_request [] rest line command c none_before is_it small = (
  refl,
  rw (match_command-IsCommand line command is_it, request-asked line command is_it small, run_cmd)
      refl,
)
one_request (other ∷ skipped) rest line command c (unlike, none_before) is_it small =
    let (ends, sends) =
      one_request skipped rest line command (record c { timer = false }) none_before is_it small in
    let skip = no_match other unlike in (rw (skip, run_cmd) ends, rw (skip, run_cmd) sends)
