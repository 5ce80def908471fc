-- ===== src/Lifecycle/Runs.antt =====
-- Any operation of the lifecycle manager (src/daemon/argo_lifecycle.c,
-- src/daemon/argo_lifecycle_monitoring.c) and its agreement with the CI registry.
use argo.Base.{ℕ, Bool, Option, Bytes, length}
use argo.Lifecycle.{Event, Manager, start_ci, stop_ci, restart_ci, transition}
use argo.Lifecycle.Monitoring.{
  assign_task, complete_task, heartbeat, report_error, check_heartbeats,
}
use argo.Lifecycle.Sync.{
  IsSynced, start_ci-IsSynced, stop_ci-IsSynced, restart_ci-IsSynced, transition-IsSynced,
}
use argo.Lifecycle.Ops.{
  assign_task-IsSynced, complete_task-IsSynced, heartbeat-IsSynced, report_error-IsSynced,
}
use argo.Lifecycle.Heartbeats.{heartbeats_loop-IsSynced}

-- The operations on a CI that is there, with their arguments.
pub data Op : Type 0 where
  start_op : Option Bytes → Op
  stop_op : Option Bytes → Bool → Op
  restart_op : Option Bytes → Op
  transition_op : Option Bytes → Event → Option Bytes → Op
  assign_op : Option Bytes → Option Bytes → Bool → Op
  complete_op : Option Bytes → Bool → Op
  heartbeat_op : Option Bytes → Op
  error_op : Option Bytes → Option Bytes → Bool → Op
  check_op : (ℕ → Bool) → (ℕ → Bool) → Op

unfoldable pub step : Manager → Op → Bool → ℕ → Manager
step m (start_op name) mem now = (start_ci m name mem now).0
step m (stop_op name graceful) mem now = (stop_ci m name graceful mem now).0
step m (restart_op name) mem now = (restart_ci m name mem now).0
step m (transition_op name e reason) mem now = (transition m name e reason mem now).0
step m (assign_op name task copied) mem now = (assign_task m name task copied mem now).0
step m (complete_op name ok) mem now = (complete_task m name ok mem now).0
step m (heartbeat_op name) mem now = (heartbeat m name now).0
step m (error_op name message copied) mem now = (report_error m name message copied mem now).0
step m (check_op copied written) mem now = (check_heartbeats m copied written now).0

-- Starting, stopping, restarting, an event, a task's assignment and completion, a heartbeat, an
-- error report and the check of all heartbeats keep the two components in step: whoever is known to
-- both the manager and the registry has the same status in both, also where an allocation fails.
pub step-IsSynced :
    (m : Manager) (o : Op) (mem : Bool) (now : ℕ) → IsSynced m → IsSynced (step m o mem now)
unfolding step check_heartbeats
step-IsSynced m (start_op name) mem now h = start_ci-IsSynced m name mem now h
step-IsSynced m (stop_op name graceful) mem now h = stop_ci-IsSynced m name graceful mem now h
step-IsSynced m (restart_op name) mem now h = restart_ci-IsSynced m name mem now h
step-IsSynced m (transition_op name e reason) mem now h =
    transition-IsSynced m name e reason mem now h
step-IsSynced m (assign_op name task copied) mem now h =
    assign_task-IsSynced m name task copied mem now h
step-IsSynced m (complete_op name ok) mem now h = complete_task-IsSynced m name ok mem now h
step-IsSynced m (heartbeat_op name) mem now h = heartbeat-IsSynced m name now h
step-IsSynced m (error_op name message copied) mem now h =
    report_error-IsSynced m name message copied mem now h
step-IsSynced m (check_op copied written) mem now h =
    heartbeats_loop-IsSynced (length m.cis) 0 m copied written now h
