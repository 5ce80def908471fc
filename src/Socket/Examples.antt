-- ===== src/Socket/Examples.antt =====
-- Runs of the socket server of src/foundation/argo_socket.c.
use argo.Base.{ℕ, ◌≡◌, refl, List, [], ◌∷◌, none, some, true, false, Bytes, codes, arith, str_eq}
use argo.CiRegistry.{Registry, create, add_ci, write, new_entry}
use argo.Error.{success}
use argo.Socket.{
  Pending, Context, Token, socket_send_message, Message, server_init, check_request_timeouts,
  parse_json_message, accepted,
}
use argo.Socket.Timeouts.{unexpired, overdue, check_request_timeouts_lem}
use argo.Socket.Valid.{IsValid}
use argo.Socket.Runs.{
  Op, set_registry, send_message, check_timeouts, accept_one, cleanup_one, run, socket_run-IsValid,
}

abbrev to_bob : Message
to_bob = record { from = codes "alice"; to = codes "bob"; type = codes "request"; content = none }

abbrev asked : ℕ → ℕ → Pending
asked id when = record {
  id = id;
  callback = 7;
  timestamp = when;
  timeout_ms = 30000;
  target_ci = codes "bob";
}

abbrev waiting : Context
unfolding server_init
waiting = record server_init {
  requests = asked 1 10 ∷ asked 2 10 ∷ asked 3 60 ∷ asked 4 20 ∷ [];
  next_request_id = 5;
}

two_in_a_row : (check_request_timeouts waiting 65).0.requests ≡ asked 3 60 ∷ []
unfolding check_request_timeouts waiting
two_in_a_row = refl

check_request_timeouts_lem_example :
    ((check_request_timeouts waiting 65).0.requests ≡ unexpired 65 waiting.requests)
    × ((check_request_timeouts waiting 65).1 ≡ overdue 65 waiting.requests)
check_request_timeouts_lem_example = check_request_timeouts_lem waiting 65

abbrev string_token : Bytes → Token
string_token text = record { is_string = true; text = text }

-- The tokens of {"to":"bob","type":"t","content":"x"}: the value of the type begins the key "to", and
-- the next token is written over the name of the target.
abbrev misread : List Token
misread =
    record { is_string = false; text = codes "{\"to\":\"bob\",\"type\":\"t\",\"content\":\"x\"}" }
    ∷ string_token (codes "to")
    ∷ string_token (codes "bob")
    ∷ string_token (codes "type")
    ∷ string_token (codes "t")
    ∷ string_token (codes "content")
    ∷ string_token (codes "x")
    ∷ []

value_taken_for_key : parse_json_message (some misread) true true ≡ (
  some record {
    from = [];
    to = codes "content";
    type = codes "request";
    content = some (codes "x");
  },
  success,
)
unfolding parse_json_message
value_taken_for_key = refl

abbrev bob_there : Registry
bob_there =
    write
      (add_ci create (some (codes "bob")) (some (codes "builder")) (some (codes "m")) 9000 true 1).0
      (codes "bob") (λ e. record e { socket_fd = some 4 })

bob_is_asked :
    socket_send_message
      (record server_init { registry = some bob_there })
      (some to_bob)
      (some 7)
      (λ fd text. true)
      10
    ≡ (
      record server_init {
        registry = some bob_there;
        requests = asked 1 10 ∷ [];
        next_request_id = 2;
        messages_sent = 1;
      },
      success,
    )
unfolding socket_send_message server_init write add_ci create str_eq new_entry
bob_is_asked = refl

abbrev script : List Op
script =
    set_registry bob_there
    ∷ accept_one (accepted 5) true
    ∷ send_message (some to_bob) (some 7) (λ fd text. true) 10
    ∷ check_timeouts 45
    ∷ cleanup_one 1
    ∷ []

socket_run-IsValid_example : IsValid 5 (run server_init script)
socket_run-IsValid_example = socket_run-IsValid script (omega arith)
