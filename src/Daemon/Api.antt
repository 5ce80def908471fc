-- ===== src/Daemon/Api.antt =====
-- The endpoints that start a workflow (src/daemon/argo_daemon_workflow_api.c) and send it input
-- (src/daemon/argo_daemon_workflow_control.c). As for the other endpoints, what is kept of a response
-- is its HTTP status and the result code. `none` for a body is a NULL pointer.
pub mod Start
pub mod Input
mod Examples
use argo.Base.{
  take, ℕ, Bool, true, false, ◌||◌, not, List, [], ◌∷◌, Option, none, some, ltb, if◌then◌else◌,
  Bytes, codes, map,
}
use argo.Error.{
  Code, success, e_system_process, e_input_null, e_input_format, e_not_found, e_invalid_state,
  e_duplicate,
}
use argo.Json.{extract_string_field, unescape}
use argo.WorkflowRegistry.{State, running, paused, Entry, Registry, state_eq, find}
use argo.Daemon.Control.{workflow_id}
use argo.Daemon.Execute.{System, execute_bash_workflow}
use argo.Daemon.Helpers.{EnvVar, parse_args_from_json, parse_env_from_json, generate_workflow_id}

-- The allocator's answers for the three fields, for the arrays, for the arguments and variables, and
-- for the list of the workflows; and the text of the clock's microseconds.
pub record Alloc : Type 0 where
  pub script : Bool
  pub template : Bool
  pub instance_name : Bool
  pub arrays : Bool
  pub item : Bytes → Bool
  pub listing : Bool
  pub usec : Bytes

pub record Started : Type 0 where
  pub registry : Registry
  pub status : ℕ
  pub code : Code

abbrev pub status_of : Code → ℕ
status_of success = 200
status_of e_duplicate = 409
status_of _ = 500

abbrev pub reply : Registry × Code → Started
reply (r, code) = record { registry = r; status = status_of code; code = code }

-- The key of a variable.
abbrev pub key_of : EnvVar → Option Bytes
key_of v = v.0

-- From the ID on.
unfoldable pub start_with : Registry → System → Bytes → List EnvVar → Option Bytes × Code → Started
unfolding execute_bash_workflow
start_with r sys script vars (id, success) =
    reply (execute_bash_workflow r sys (some script) (map key_of vars) id)
start_with r sys script vars (id, other) = record { registry = r; status = 500; code = other }

-- From the script on; `none` is a read through a NULL pointer.
unfoldable pub start_script : Registry → System → Alloc → Bytes → Bytes → Option Started
unfolding start_with extract_string_field parse_args_from_json parse_env_from_json
    generate_workflow_id
start_script r sys alloc body script =
    let template = (extract_string_field body (codes "template") alloc.template).0 in
    let suffix = (extract_string_field body (codes "instance") alloc.instance_name).0 in
    elim (parse_args_from_json body alloc.arrays alloc.item).1 [
      | success ↦ elim (parse_env_from_json body alloc.arrays alloc.item) [
        | none ↦ none
        | some (vars, success) ↦ some (
            start_with r sys script vars
              (generate_workflow_id r template suffix 128 alloc.usec alloc.listing))
        | some (vars, other) ↦ some (record { registry = r; status = 500; code = other })
      ]
      | other ↦ some (record { registry = r; status = 500; code = other })
    ]

unfoldable pub api_workflow_start : Registry → System → Alloc → Option Bytes → Option Started
unfolding start_script
api_workflow_start r sys alloc none =
    some (record { registry = r; status = 400; code = e_input_null })
api_workflow_start r sys alloc (some body) =
    elim (extract_string_field body (codes "script") alloc.script).0 [
      | none ↦ some (record { registry = r; status = 400; code = e_input_format })
      | some script ↦ start_script r sys alloc body script
    ]

-- What a request for input leads to: the pipe and the bytes that it takes, if any, and the number of
-- bytes that the response tells.
pub record Sent : Type 0 where
  pub written : Option (ℕ × Bytes)
  pub bytes_written : Option ℕ
  pub status : ℕ
  pub code : Code

abbrev pub refuse_input : ℕ → Code → Sent
refuse_input status code = record {
  written = none;
  bytes_written = none;
  status = status;
  code = code;
}

-- From the text on; `write` is what write returns, the number of bytes that the pipe takes, which may
-- be fewer than the text has, or `none` for a failure.
abbrev pub send_text : ℕ → Bytes → Option ℕ → Sent
send_text pipe text none = refuse_input 500 e_system_process
send_text pipe text (some n) = record {
  written = some (pipe, take n text);
  bytes_written = some n;
  status = 200;
  code = success;
}

unfoldable pub send_input : Entry → Option Bytes → Bool → Option ℕ → Sent
unfolding extract_string_field unescape
send_input e body mem write =
    if not (state_eq e.state running || state_eq e.state paused)
    then refuse_input 400 e_invalid_state
    else if not (ltb 0 e.stdin_pipe)
    then refuse_input 400 e_invalid_state
    else elim body [
      | none ↦ refuse_input 400 e_input_null
      | some json ↦ elim (extract_string_field json (codes "input") mem).0 [
        | none ↦ refuse_input 400 e_input_format
        | some text ↦ send_text e.stdin_pipe (unescape text) write
      ]
    ]

unfoldable pub api_workflow_input : Registry → Bytes → Option Bytes → Bool → Option ℕ → Sent
unfolding workflow_id find send_input
api_workflow_input r path body mem write = elim (workflow_id path) [
  | none ↦ refuse_input 400 e_input_null
  | some id ↦ elim (find r id) [
    | none ↦ refuse_input 404 e_not_found
    | some e ↦ send_input e body mem write
  ]
]
