-- ===== src/Daemon/Helpers/Examples.antt =====
-- Requests and registries for src/daemon/argo_daemon_workflow_helpers.c.
use argo.Base.{◌≡◌, refl, arith, true, false, [], ◌∷◌, none, some, Bytes, codes}
use argo.Json.{after}
use argo.Error.{success, e_input_null}
use argo.WorkflowRegistry.{Entry, Registry, pending, find, create, add}
use argo.WorkflowRegistry.Valid.{IsValid, create-IsValid, add-IsValid}
use argo.Daemon.Helpers.{
  highest, two_digits, generate_workflow_id, parse_args_from_json, parse_env_from_json,
}
use argo.Daemon.Helpers.Fresh.{generate_workflow_id_fresh}
use argo.Daemon.Helpers.Args.{parse_args_from_json-items}

abbrev entry : Bytes → Entry
entry id = record {
  workflow_id = id;
  workflow_name = codes "build";
  state = pending;
  executor_pid = 0;
  stdin_pipe = 0;
  start_time = 0;
  end_time = 0;
  exit_code = 0;
  abandon_requested = false;
  current_step = 0;
  total_steps = 0;
  timeout_seconds = 0;
  retry_count = 0;
  max_retries = 0;
  last_retry_time = 0;
}

abbrev one_build : Registry
one_build = (add create (some (entry (codes "build_07"))) true).0

one_build-IsValid : IsValid one_build
one_build-IsValid = add-IsValid create (some (entry (codes "build_07"))) true create-IsValid

generate_workflow_id_fresh_example :
    (generate_workflow_id one_build (some (codes "build")) none 128 [] true
      ≡ (some (codes "build_08"), success))
    × (generate_workflow_id one_build (some (codes "build")) (some []) 128 [] true
        ≡ (some (codes "build_08"), success))
    × (find one_build (codes "build_08") ≡ none)
unfolding highest two_digits add create
generate_workflow_id_fresh_example =
    generate_workflow_id_fresh one_build (codes "build") [] 128 one_build-IsValid (omega arith)
      (omega arith) (omega arith)

parse_args_from_json-items_example :
    parse_args_from_json (codes "{\"args\": [\"a\",\"b c\"], \"n\": [1]}") true (λ a. true)
    ≡ (codes "a" ∷ codes "b c" ∷ [], success)
unfolding after
parse_args_from_json-items_example =
    parse_args_from_json-items (codes "{\"args\": [\"a\",\"b c\"], \"n\": [1]}") (codes ": ")
      (codes ", \"n\": [1]}") (codes "a" ∷ codes "b c" ∷ []) refl (ground arith) (ground arith)
      (ground arith)

-- From the number 100 on the IDs repeat: only its first two digits are read.
abbrev full : Registry
full = record { head = entry (codes "build_100") ∷ entry (codes "build_99") ∷ []; count = 2 }

repeated :
    generate_workflow_id full (some (codes "build")) none 128 [] true
    ≡ (some (codes "build_100"), success)
unfolding generate_workflow_id
repeated = refl

no_template : generate_workflow_id full none none 128 [] true ≡ (none, e_input_null)
unfolding generate_workflow_id
no_template = refl

-- A bracket in an argument ends the array.
bracket_in_argument :
    parse_args_from_json (codes "{\"args\":[\"a]b\"]}") true (λ a. true) ≡ ([], success)
unfolding parse_args_from_json
bracket_in_argument = refl

env_of_body :
    parse_env_from_json (codes "{\"env\": {\"A\": \"1\", \"B\":\"x y\"}}") true (λ a. true)
    ≡ some ((some (codes "A"), codes "1") ∷ (some (codes "B"), codes "x y") ∷ [], success)
unfolding parse_env_from_json
env_of_body = refl

-- A key without a colon behind it makes the reader follow a NULL pointer.
colon_in_key : parse_env_from_json (codes "{\"env\":{\"a:b\"}}") true (λ a. true) ≡ none
unfolding parse_env_from_json
colon_in_key = refl
