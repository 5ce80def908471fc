-- ===== src/Daemon/Control.antt =====
-- The endpoints that steer a workflow: pause and resume (src/daemon/argo_daemon_workflow_control.c)
-- and abandon (src/daemon/argo_daemon_workflow_api.c). A handler takes the request's path and the
-- answer of `kill` (`true` where the signal was sent), and returns the registry, the signals sent,
-- the HTTP status and the result code. The text of a response is left out.
pub mod Machine
mod Examples
use argo.Base.{
  ℕ, Bool, true, false, ◌||◌, List, [], ◌∷◌, Option, none, some, ltb, ◌==◌, if◌then◌else◌, Bytes,
}
use argo.Error.{Code, success, e_system_process, e_input_null, e_not_found, e_invalid_state}
use argo.WorkflowRegistry.{State, running, paused, Entry, Registry, state_eq, find, write, id_of}
use argo.Daemon.Tasks.{with_abandon}

pub data Signal : Type 0 where
  sigstop sigcont sigterm : Signal

pub record Reply : Type 0 where
  pub registry : Registry
  pub signals : List (Signal × ℕ)
  pub status : ℕ
  pub code : Code

-- What follows the last '/' of the path; `none` if it has none.
unfoldable pub after_slash : Bytes → Option Bytes
after_slash [] = none
after_slash (c ∷ cs) =
    let rest = after_slash cs in
    elim rest [ some found ↦ some found | none ↦ if c == b'/' then some cs else none ]

-- `strrchr(path, '/')` with the check that something follows.
unfoldable pub workflow_id : Bytes → Option Bytes
unfolding after_slash
workflow_id path = elim (after_slash path) [
  | none ↦ none
  | some [] ↦ none
  | some (c ∷ cs) ↦ some (c ∷ cs)
]

unfoldable pub set_state : State → Entry → Entry
set_state s e = record e { state = s }

abbrev refuse : Registry → ℕ → Code → Reply
refuse r status code = record { registry = r; signals = []; status = status; code = code }

-- The common body of pause and resume, on the entry found: from one state to another, by a signal
-- to the process if there is one.
unfoldable pub switch : State → State → Signal → Bool → Registry → Entry → Reply
unfolding write set_state
switch from to signal kill r e =
    if state_eq e.state from
    then if ltb 0 e.executor_pid
      then if kill
        then record {
          registry = write r e.workflow_id (set_state to);
          signals = (signal, e.executor_pid) ∷ [];
          status = 200;
          code = success;
        }
        else refuse r 500 e_system_process
      else record {
        registry = write r e.workflow_id (set_state to);
        signals = [];
        status = 200;
        code = success;
      }
    else refuse r 400 e_invalid_state

unfoldable pub api_workflow_pause : Registry → Bytes → Bool → Reply
unfolding workflow_id find switch
api_workflow_pause r path kill = elim (workflow_id path) [
  | none ↦ refuse r 400 e_input_null
  | some id ↦ elim (find r id) [
    | none ↦ refuse r 404 e_not_found
    | some e ↦ switch running paused sigstop kill r e
  ]
]

unfoldable pub api_workflow_resume : Registry → Bytes → Bool → Reply
unfolding workflow_id find switch
api_workflow_resume r path kill = elim (workflow_id path) [
  | none ↦ refuse r 400 e_input_null
  | some id ↦ elim (find r id) [
    | none ↦ refuse r 404 e_not_found
    | some e ↦ switch paused running sigcont kill r e
  ]
]

-- The flag is set before the signal is tried, and stays set where the signal fails.
unfoldable pub abandon : Registry → Entry → Bool → Reply
unfolding write with_abandon
abandon r e kill =
    let r' = write r e.workflow_id with_abandon in
    if ltb 0 e.executor_pid
    then if state_eq e.state running
      then if kill
        then record {
          registry = r';
          signals = (sigterm, e.executor_pid) ∷ [];
          status = 200;
          code = success;
        }
        else refuse r' 500 e_system_process
      else record { registry = r'; signals = []; status = 200; code = success }
    else record { registry = r'; signals = []; status = 200; code = success }

unfoldable pub api_workflow_abandon : Registry → Bytes → Bool → Reply
unfolding workflow_id find abandon
api_workflow_abandon r path kill = elim (workflow_id path) [
  | none ↦ refuse r 400 e_input_null
  | some id ↦ elim (find r id) [ none ↦ refuse r 404 e_not_found | some e ↦ abandon r e kill ]
]
