-- ===== src/Lifecycle/Ops.antt =====
-- The operations of the lifecycle manager (src/daemon/argo_lifecycle.c,
-- src/daemon/argo_lifecycle_monitoring.c) and its agreement with the CI registry.
use mathlib.Core.Option
use argo.Base.{
  ℕ, ◌≡◌, refl, Bool, true, false, Option, none, some, Bytes, str_eq, Bool-cases, Option-cases, inl,
  inr,
}
use argo.Error.{Code}
use argo.CiRegistry
use argo.CiRegistry.{Status, offline, ready, status_eq}
use argo.CiRegistry.Valid.{find_ci-heartbeat}
use argo.Lifecycle.{task_assigned, task_complete, error_event, Ci, Manager, find_ci, write}
use argo.Lifecycle.Monitoring.{
  if_copied, with_task, assign_task, without_task, complete_task, with_heartbeat, heartbeat,
  with_error, report_error,
}
use argo.Lifecycle.Restart.{find_ci-write}
use argo.Lifecycle.Sync.{Agree, IsSynced, write-IsSynced, transition-IsSynced}

if_copied-IsSynced :
    (text : Option Bytes) (copied : Bool) (done bad : Manager × Code)
    → IsSynced done.0
    → IsSynced bad.0
    → IsSynced (if_copied text copied done bad).0
unfolding if_copied
if_copied-IsSynced none copied done bad d b = d
if_copied-IsSynced (some text) true done bad d b = d
if_copied-IsSynced (some text) false done bad d b = b

pub assign_task-IsSynced :
    (m : Manager) (name task : Option Bytes) (copied mem : Bool) (now : ℕ)
    → IsSynced m
    → IsSynced (assign_task m name task copied mem now).0
unfolding assign_task with_task
assign_task-IsSynced m none task copied mem now h = h
assign_task-IsSynced m (some name) task copied mem now h =
    let w = write-IsSynced m name (with_task task now) (λ c. refl) (λ c. refl) h in
    let t = transition-IsSynced _ (some name) task_assigned task mem now w in
    elim (Option-cases (find_ci m name)) [
      | inl missing ↦ rw (missing, assign_task) h
      | inr (c, at) ↦ elim (Bool-cases (status_eq c.current_status ready)) [
        | inr other ↦ rw (at, assign_task) (rw other h)
        | inl is_ready ↦ rw (at, assign_task) (rw is_ready (if_copied-IsSynced task copied _ _ t h))
      ]
    ]

pub complete_task-IsSynced :
    (m : Manager) (name : Option Bytes) (ok mem : Bool) (now : ℕ)
    → IsSynced m
    → IsSynced (complete_task m name ok mem now).0
unfolding complete_task without_task
complete_task-IsSynced m none ok mem now h = h
complete_task-IsSynced m (some name) ok mem now h =
    let w = write-IsSynced m name without_task (λ c. refl) (λ c. refl) h in
    elim (Option-cases (find_ci m name)) [
      | inl missing ↦ rw (missing, complete_task) h
      | inr (c, at) ↦
          rw (at, complete_task) (transition-IsSynced _ (some name) task_complete _ mem now w)
    ]

Agree-heartbeat :
    (oc : Option Ci) (oe : Option CiRegistry.Entry) (now : ℕ)
    → Agree oc oe
    → Agree (Option.map (with_heartbeat now) oc) (Option.map (CiRegistry.with_heartbeat now) oe)
unfolding with_heartbeat CiRegistry.with_heartbeat
Agree-heartbeat none oe now a = tt
Agree-heartbeat (some c) none now a = tt
Agree-heartbeat (some c) (some e) now a = a

find_ci_registry :
    (m : Manager) (r : CiRegistry.Registry) (j : Bytes)
    → find_ci (record m { registry = r }) j ≡ find_ci m j
unfolding find_ci
find_ci_registry m r j = refl

heartbeat_found :
    (m : Manager) (name : Bytes) (now : ℕ)
    → IsSynced m
    → IsSynced (record (write m name (with_heartbeat now)) {
      registry = (CiRegistry.heartbeat m.registry (some name) now).0;
    })
heartbeat_found m name now h j =
    rw
      (
        find_ci_registry (write m name (with_heartbeat now)) _ j,
        find_ci-write m name j (with_heartbeat now) (λ c. unfold with_heartbeat in refl),
        find_ci-heartbeat m.registry name j now,
      )
      (elim (Bool-cases (str_eq name j)) [
        | inl here ↦
            rw here (Agree-heartbeat (find_ci m j) (CiRegistry.find_ci m.registry j) now (h j))
        | inr elsewhere ↦ rw elsewhere (h j)
      ])

pub heartbeat-IsSynced :
    (m : Manager) (name : Option Bytes) (now : ℕ) → IsSynced m → IsSynced (heartbeat m name now).0
unfolding heartbeat
heartbeat-IsSynced m none now h = h
heartbeat-IsSynced m (some name) now h = elim (Option-cases (find_ci m name)) [
  | inl missing ↦ rw (missing, heartbeat) h
  | inr (c, at) ↦ rw (at, heartbeat) (heartbeat_found m name now h)
]

pub report_error-IsSynced :
    (m : Manager) (name message : Option Bytes) (copied mem : Bool) (now : ℕ)
    → IsSynced m
    → IsSynced (report_error m name message copied mem now).0
unfolding report_error with_error
report_error-IsSynced m none message copied mem now h = h
report_error-IsSynced m (some name) message copied mem now h =
    let w = write-IsSynced m name (with_error message) (λ c. refl) (λ c. refl) h in
    let t = transition-IsSynced _ (some name) error_event message mem now w in
    elim (Option-cases (find_ci m name)) [
      | inl missing ↦ rw (missing, report_error) h
      | inr (c, at) ↦ rw (at, report_error) (if_copied-IsSynced message copied _ _ t h)
    ]
