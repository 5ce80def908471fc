-- ===== src/Daemon/Api/Input.antt =====
-- What reaches a workflow's pipe (src/daemon/argo_daemon_workflow_control.c).
use argo.Base.{ℕ, ◌<◌, ◌≡◌, refl, true, ◌||◌, none, some, arith, ltb, Bytes, codes, Option, take}
use argo.Error.{success, e_system_process}
use argo.Json.Extract.{NoBackslash, object, extract-escaped}
use argo.WorkflowRegistry.{running, paused, Entry, Registry, state_eq, find}
use argo.Daemon.Control.{workflow_id}
use argo.Daemon.Api.{send_text, send_input, api_workflow_input}

send_input-escaped :
    (e : Entry) (v rest : Bytes) (write : Option ℕ)
    → (state_eq e.state running || state_eq e.state paused) ≡ true
    → 0 < e.stdin_pipe
    → NoBackslash v
    → send_input e (some (object (codes "input") v rest)) true write
      ≡ send_text e.stdin_pipe v write
unfolding send_input
send_input-escaped e v rest write live pipe plain =
    let (read, back) = extract-escaped (codes "input") v rest (omega arith) plain in
    let there : ltb 0 e.stdin_pipe ≡ true = ground arith in
    rw (live, send_input) (rw (there) (rw (read, send_input) (rw back refl)))

-- A text that a client sends to a running or a paused workflow with a pipe, escaped in the field
-- "input" at the head of the body, reaches the pipe as far as the one write takes it: the
-- pipe holds the first bytes of the text itself, as many as the response tells, with 200 also where
-- they are not all; and if the write fails the answer is 500 and nothing is sent. Memory is given for
-- the field, and the text holds no backslash.
pub api_workflow_input-escaped :
    (r : Registry) (path id v rest : Bytes) (e : Entry) (write : Option ℕ)
    → workflow_id path ≡ some id
    → find r id ≡ some e
    → (state_eq e.state running || state_eq e.state paused) ≡ true
    → 0 < e.stdin_pipe
    → NoBackslash v
    → api_workflow_input r path (some (object (codes "input") v rest)) true write ≡ (elim write [
      | some n ↦ record {
        written = some (e.stdin_pipe, take n v);
        bytes_written = some n;
        status = 200;
        code = success;
      }
      | none ↦ record {
        written = none;
        bytes_written = none;
        status = 500;
        code = e_system_process;
      }
    ])
unfolding api_workflow_input
api_workflow_input-escaped r path id v rest e write named at live pipe plain =
    rw (named, api_workflow_input)
      (rw (at, api_workflow_input) (send_input-escaped e v rest write live pipe plain))
