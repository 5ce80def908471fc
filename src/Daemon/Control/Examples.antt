-- ===== src/Daemon/Control/Examples.antt =====
-- The endpoints of src/daemon/argo_daemon_workflow_control.c and
-- src/daemon/argo_daemon_workflow_api.c on a registry of one workflow.
use argo.Base.{◌≡◌, refl, [], ◌∷◌, some, none, true, false, Bytes, codes, str_eq}
use argo.Base.Nodes.{find_node}
use argo.Error.{success}
use argo.WorkflowRegistry.{State, paused, Entry, Registry, find}
use argo.WorkflowRegistry.Valid.{IsValid}
use argo.Daemon.Tasks.{with_abandon}
use argo.Daemon.Tasks.Retry.{Exit}
use argo.Daemon.Control.{workflow_id, api_workflow_pause, api_workflow_abandon}
use argo.Daemon.Control.Machine.{endpoint, error_unchanged, handle_list, abandoned_paused_stays}

abbrev entry : State → Entry
entry s = record {
  workflow_id = codes "a";
  workflow_name = codes "build.sh";
  state = s;
  executor_pid = 41;
  stdin_pipe = 5;
  start_time = 10;
  end_time = 0;
  exit_code = 0;
  abandon_requested = false;
  current_step = 0;
  total_steps = 1;
  timeout_seconds = 3600;
  retry_count = 0;
  max_retries = 3;
  last_retry_time = 0;
}

abbrev one : State → Registry
one s = record { head = entry s ∷ []; count = 1 }

one-IsValid : (s : State) → IsValid (one s)
unfolding find_node
one-IsValid s = record { counted = refl; distinct = (refl, tt) }

abbrev path : Bytes
path = codes "/api/workflow/pause/a"

error_unchanged_example :
    ((endpoint true (one paused) path true).registry ≡ one paused)
    × ((endpoint true (one paused) path true).signals ≡ [])
unfolding api_workflow_pause str_eq
error_unchanged_example = error_unchanged true (one paused) path true (λ e. cc)

abbrev killed : Exit
killed = record {
  slot = record { pid = 41; exit_code = 137; timestamp = 20; valid = true };
  mem = true;
  fork = none;
  now = 21;
}

abandoned_paused_stays_example :
    ((api_workflow_abandon (one paused) path true).code ≡ success)
    × ((api_workflow_abandon (one paused) path true).signals ≡ [])
    × (find
          (handle_list (api_workflow_abandon (one paused) path true).registry (killed ∷ []))
          (codes "a")
        ≡ some (with_abandon (entry paused)))
unfolding workflow_id find str_eq
abandoned_paused_stays_example =
    abandoned_paused_stays (one paused) path (codes "a") true (entry paused) (killed ∷ [])
      (one-IsValid paused) refl refl refl
