-- ===== src/Daemon/Tasks/Examples.antt =====
-- The workflow tasks of src/daemon/argo_daemon_tasks.c on a registry of two workflows.
use argo.Base.{
  ℕ, ◌≤◌, ◌≡◌, refl, [], ◌∷◌, List, some, true, false, Bytes, codes, str_eq, if◌then◌else◌,
}
use argo.Base.Nodes.{find_node}
use argo.ExitQueue
use argo.ExitQueue.{Slot}
use argo.ExitQueue.Fifo
use argo.WorkflowRegistry.{running, Entry, Registry, find}
use argo.WorkflowRegistry.Valid.{IsValid}
use argo.Daemon.{Daemon}
use argo.Daemon.Tasks.{match_pid, handle_exit, Env, completion_task, timeout_task}
use argo.Daemon.Tasks.Valid.{tasks-IsValid}
use argo.Daemon.Tasks.Exit.{after_exit, handle_exit_matched}
use argo.Daemon.Tasks.Retry.{Exit, runs, budget, runs-le-budget}
use argo.Daemon.Tasks.Drain.{handle_all, completion_task_lem}

abbrev entry : Bytes → ℕ → Entry
entry id pid = record {
  workflow_id = id;
  workflow_name = codes "build.sh";
  state = running;
  executor_pid = pid;
  stdin_pipe = 5;
  start_time = 10;
  end_time = 0;
  exit_code = 0;
  abandon_requested = false;
  current_step = 0;
  total_steps = 1;
  timeout_seconds = 3600;
  retry_count = 0;
  max_retries = 3;
  last_retry_time = 0;
}

abbrev two : Registry
two = record { head = entry (codes "b") 42 ∷ entry (codes "a") 41 ∷ []; count = 2 }

two-IsValid : IsValid two
unfolding find_node str_eq
two-IsValid = record { counted = refl; distinct = (refl, (refl, tt)) }

abbrev exit_of : ℕ → ℕ → Slot
exit_of pid code = record { pid = pid; exit_code = code; timestamp = 20; valid = true }

handle_exit_matched_example :
    find (handle_exit two (exit_of 41 1) true (some 50) 20) (codes "a") ≡ (
      if str_eq (codes "a") (codes "a")
      then after_exit 1 (some 50) 20 (entry (codes "a") 41)
      else find two (codes "a"))
unfolding match_pid
handle_exit_matched_example =
    handle_exit_matched two (exit_of 41 1) (some 50) 20 (entry (codes "a") 41) (codes "a")
      two-IsValid refl

abbrev failing : List Exit
failing =
    record { slot = exit_of 41 1; mem = true; fork = some 50; now = 20 }
    ∷ record { slot = exit_of 50 1; mem = true; fork = some 51; now = 30 }
    ∷ record { slot = exit_of 51 1; mem = true; fork = some 52; now = 40 }
    ∷ record { slot = exit_of 52 1; mem = true; fork = some 53; now = 50 }
    ∷ []

runs-le-budget_example : runs (codes "a") two failing ≤ budget (find two (codes "a"))
runs-le-budget_example = runs-le-budget (codes "a") two failing two-IsValid

abbrev daemon : Daemon
daemon = record { registry = two; queue = (ExitQueue.push ExitQueue.init 41 1 20).0 }

abbrev env : Env
env = record { mem = λ s. true; fork = λ s. some 50; now = 21 }

completion_task_lem_example :
    ((completion_task env daemon).registry
      ≡ handle_all env daemon.registry (Fifo.contents daemon.queue))
    × (Fifo.contents (completion_task env daemon).queue ≡ [])
    × ((completion_task env daemon).queue.dropped ≡ 0)
completion_task_lem_example =
    completion_task_lem env daemon (Fifo.push-IsValid ExitQueue.init 41 1 20 Fifo.init-IsValid)

tasks-IsValid_example :
    IsValid (completion_task env daemon).registry
    × IsValid (timeout_task daemon true 9000).0.registry
tasks-IsValid_example = tasks-IsValid daemon env true 9000 two-IsValid
