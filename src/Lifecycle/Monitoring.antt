-- ===== src/Lifecycle/Monitoring.antt =====
-- Tasks, heartbeats, errors and health of a CI, in src/daemon/argo_lifecycle_monitoring.c.
use argo.Base.{
  ℕ, zero, suc, ◌+◌, ◌-◌, Bool, true, false, not, ◌&&◌, List, [], ◌∷◌, Option, none, some, ltb, leb,
  if◌then◌else◌, Bytes, codes, length,
}
use argo.Error.{Code, success, e_system_memory, e_input_null, e_input_invalid, e_ci_invalid}
use argo.CiRegistry
use argo.CiRegistry.{Status, offline, starting, ready, busy, error, shutdown, status_eq}
use argo.Lifecycle.{
  task_assigned, task_complete, error_event, Ci, Manager, find_ci, write, transition,
}

unfoldable pub with_task : Option Bytes → ℕ → Ci → Ci
with_task task now c = record c { current_task = task; task_start_time = now }

-- `copied` is the answer of strdup, which is asked only for a text that is not NULL.
unfoldable pub if_copied : Option Bytes → Bool → Manager × Code → Manager × Code → Manager × Code
if_copied none copied done failed = done
if_copied (some text) copied done failed = if copied then done else failed

unfoldable pub assign_task :
    Manager → Option Bytes → Option Bytes → Bool → Bool → ℕ → Manager × Code
assign_task m none task copied mem now = (m, e_input_null)
assign_task m (some name) task copied mem now = elim (find_ci m name) [
  | none ↦ (m, e_input_invalid)
  | some c ↦
      if status_eq c.current_status ready
      then (let m' = write m name (with_task task now) in
          let done = transition m' (some name) task_assigned task mem now in
          if_copied task copied done (m, e_system_memory))
      else (m, e_ci_invalid)
]

unfoldable pub without_task : Ci → Ci
without_task c = record c { current_task = none }

unfoldable pub complete_task : Manager → Option Bytes → Bool → Bool → ℕ → Manager × Code
complete_task m none ok mem now = (m, e_input_null)
complete_task m (some name) ok mem now = elim (find_ci m name) [
  | none ↦ (m, e_input_invalid)
  | some c ↦
      transition (write m name without_task) (some name) task_complete
        (some (if ok then codes "Task completed successfully" else codes "Task failed")) mem now
]

unfoldable pub with_heartbeat : ℕ → Ci → Ci
with_heartbeat now c = record c { last_heartbeat = now; missed_heartbeats = 0 }

unfoldable pub heartbeat : Manager → Option Bytes → ℕ → Manager × Code
heartbeat m none now = (m, e_input_null)
heartbeat m (some name) now = elim (find_ci m name) [
  | none ↦ (m, e_input_invalid)
  | some c ↦ (
    record (write m name (with_heartbeat now)) {
      registry = (CiRegistry.heartbeat m.registry (some name) now).0;
    },
    success,
  )
]

unfoldable pub with_error : Option Bytes → Ci → Ci
with_error message c = record c { error_count = c.error_count + 1; last_error = message }

unfoldable pub report_error :
    Manager → Option Bytes → Option Bytes → Bool → Bool → ℕ → Manager × Code
report_error m none message copied mem now = (m, e_input_null)
report_error m (some name) message copied mem now = elim (find_ci m name) [
  | none ↦ (m, e_input_invalid)
  | some c ↦
      let done =
        transition (write m name (with_error message)) (some name) error_event message mem now in
      if_copied message copied done (m, e_system_memory)
]

-- How many CIs are in error, plus how many have missed a heartbeat.
unfoldable pub count_unhealthy : List Ci → ℕ
count_unhealthy [] = 0
count_unhealthy (c ∷ cs) =
    (if status_eq c.current_status error then 1 else 0)
    + (if ltb 0 c.missed_heartbeats then 1 else 0)
    + count_unhealthy cs

unfoldable pub health_check : Manager → ℕ
unfolding count_unhealthy
health_check m = count_unhealthy m.cis

-- `manager->cis[i]`.
unfoldable pub ci_at : ℕ → List Ci → Option Ci
ci_at i [] = none
ci_at zero (c ∷ cs) = some c
ci_at (suc i) (c ∷ cs) = ci_at i cs

unfoldable pub with_missed : Ci → Ci
with_missed c = record c { missed_heartbeats = c.missed_heartbeats + 1 }

-- `manager->cis[i]->missed_heartbeats++`.
unfoldable pub count_missed : ℕ → List Ci → List Ci
unfolding with_missed
count_missed i [] = []
count_missed zero (c ∷ cs) = with_missed c ∷ cs
count_missed (suc i) (c ∷ cs) = c ∷ count_missed i cs

abbrev pub is_stale : Manager → ℕ → Ci → Bool
is_stale m now c =
    not (status_eq c.current_status offline)
    && ltb m.heartbeat_timeout_seconds (now - c.last_heartbeat)

-- What is done to the stale CI `c` in slot `i`.
unfoldable pub miss : Manager → ℕ → Ci → Bool → Bool → ℕ → Manager
unfolding count_missed
miss m i c copied mem now =
    let m' = record m { cis = count_missed i m.cis } in
    if leb m.max_missed_heartbeats (c.missed_heartbeats + 1)
    then (report_error m' (some c.ci_name) (some (codes "Max missed heartbeats exceeded")) copied
        mem now).0
    else m'

-- The loop from slot `i` on, for `rounds` slots; `copied` and `mem` answer for each slot.
unfoldable pub heartbeats_loop : ℕ → ℕ → Manager → (ℕ → Bool) → (ℕ → Bool) → ℕ → Manager × ℕ
unfolding ci_at miss
heartbeats_loop zero i m copied mem now = (m, 0)
heartbeats_loop (suc rounds) i m copied mem now = elim (ci_at i m.cis) [
  | none ↦ heartbeats_loop rounds (i + 1) m copied mem now
  | some c ↦ elim (is_stale m now c) [
    | false ↦ heartbeats_loop rounds (i + 1) m copied mem now
    | true ↦
        let (last, stale) =
          heartbeats_loop rounds (i + 1) (miss m i c (copied i) (mem i) now) copied mem now in
        (last, stale + 1)
  ]
]

-- The number of stale CIs comes with the manager.
unfoldable pub check_heartbeats : Manager → (ℕ → Bool) → (ℕ → Bool) → ℕ → Manager × ℕ
unfolding heartbeats_loop
check_heartbeats m copied mem now = heartbeats_loop (length m.cis) 0 m copied mem now
