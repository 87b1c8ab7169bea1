-- ===== src/Kv/Examples/Commands.antt =====
-- A session of the client.
use cs.Prelude.{arith, ◌≡◌, refl, true, false, [], ◌∷◌}
use cs.Prelude.Outcome.{ok}
use cs.Kv.Messages.{get_key}
use cs.Kv.Client.{Client, get, run_cmd, match_get, match_put}
use cs.Kv.Client.Grammar.{IsCommand, match_command-IsCommand}
use cs.Kv.Client.Grammar.Sound.{command-IsCommand}
use cs.Kv.Client.Sent.{NoCommand, one_request}

abbrev idle : Client
idle = record { sent = []; shown = []; timer = false; exited = false }

what-NoCommand : NoCommand "what"
unfolding match_get match_put
what-NoCommand command it_is = cc (match_command-IsCommand "what" command it_is)

get-IsCommand : IsCommand "GET 2 7" (get "2" "7")
unfolding match_get match_put
get-IsCommand = command-IsCommand "GET 2 7" (get "2" "7") refl

one_request_example :
    (run_cmd ("what" ∷ []) idle ≡ ok (record idle { exited = true }, []))
    × (run_cmd ("what" ∷ "GET 2 7" ∷ "put 1 8 some text" ∷ []) idle
        ≡ ok (
          record idle {
            sent = get_key (record { stream = 0; key = 7; consistency = 2 }) ∷ [];
            timer = true;
          },
          "put 1 8 some text" ∷ [],
        ))
one_request_example =
    one_request ("what" ∷ []) ("put 1 8 some text" ∷ []) "GET 2 7" (get "2" "7") idle
      (what-NoCommand, tt) get-IsCommand (omega arith)
