-- ===== src/Lifecycle/Restart.antt =====
-- What restarting and completing do to a CI that is shut down, in src/daemon/argo_lifecycle.c and
-- src/daemon/argo_lifecycle_monitoring.c.
use mathlib.Core.Option
use argo.Base.{
  ℕ, ◌≡◌, ◌≢◌, refl, sym, Bool, true, false, Option, some, arith, if◌then◌else◌, Bytes, str_eq,
  str_eq_refl, codes, Bool-cases, inl, inr,
}
use argo.Base.Nodes.{find-modify}
use argo.Error.{success}
use argo.CiRegistry.{Status, offline, ready, shutdown, status_eq}
use argo.Lifecycle.{
  Event, shutdown_req, task_complete, Ci, Manager, name_of, find_ci, write, add_transition, moved,
  move, start_ci, stop_ci, start_after, restart_ci, next_status, transition,
}
use argo.Lifecycle.Monitoring.{complete_task, without_task}

pub find_ci-write :
    (m : Manager) (name j : Bytes) (f : Ci → Ci)
    → ((c : Ci) → name_of (f c) ≡ name_of c)
    → find_ci (write m name f) j
      ≡ (if str_eq name j then Option.map f (find_ci m j) else find_ci m j)
unfolding find_ci write
find_ci-write m name j f keep = find-modify name_of name j f m.cis keep

pub moved-name :
    (e : Event) (to : Status) (reason : Option Bytes) (mem : Bool) (now : ℕ) (c : Ci)
    → name_of (moved e to reason mem now c) ≡ name_of c
unfolding moved add_transition
moved-name e to reason mem now c = ground arith

pub moved-status :
    (e : Event) (to : Status) (reason : Option Bytes) (mem : Bool) (now : ℕ) (c : Ci)
    → (moved e to reason mem now c).current_status ≡ to
unfolding moved add_transition
moved-status e to reason mem now c = ground arith

pub find_ci-move :
    (m : Manager) (name j : Bytes) (e : Event) (to : Status) (reason : Option Bytes) (mem : Bool)
    (now : ℕ)
    → find_ci (move m name e to reason mem now) j ≡ (
        if str_eq name j then Option.map (moved e to reason mem now) (find_ci m j) else find_ci m j)
unfolding move find_ci write
find_ci-move m name j e to reason mem now =
    find-modify name_of name j (moved e to reason mem now) m.cis (moved-name e to reason mem now)

start_ci_started :
    (m : Manager) (name : Bytes) (mem : Bool) (now : ℕ) (c : Ci)
    → find_ci m name ≡ some c
    → c.current_status ≢ offline
    → start_ci m (some name) mem now ≡ (m, success)
unfolding start_ci
start_ci_started m name mem now c at up = ground arith

-- The state after a graceful stop.
abbrev stopped : Manager → Bytes → Bool → ℕ → Manager
stopped m name mem now =
    move m name shutdown_req shutdown (some (codes "Graceful shutdown requested")) mem now

stop_ci_graceful :
    (m : Manager) (name : Bytes) (mem : Bool) (now : ℕ) (c : Ci)
    → find_ci m name ≡ some c
    → stop_ci m (some name) true mem now ≡ (stopped m name mem now, success)
unfolding stop_ci
stop_ci_graceful m name mem now c at = ground arith

find_ci-stopped :
    (m : Manager) (name : Bytes) (mem : Bool) (now : ℕ) (c : Ci)
    → find_ci m name ≡ some c
    → (d : Ci) × (find_ci (stopped m name mem now) name ≡ some d) × (d.current_status ≡ shutdown)
find_ci-stopped m name mem now c at =
    let why = some (codes "Graceful shutdown requested") in
    (
      moved shutdown_req shutdown why mem now c,
      ground (arith, find_ci-move m name name shutdown_req shutdown why mem now, str_eq_refl name),
      moved-status shutdown_req shutdown why mem now c,
    )

-- A restart of any known CI reports success and leaves the CI in SHUTDOWN: the graceful stop puts
-- it there, and the start that follows does nothing to a CI that is not OFFLINE.
pub restart_ci_shutdown :
    (m : Manager) (name : Bytes) (mem : Bool) (now : ℕ) (c : Ci)
    → find_ci m name ≡ some c
    → ((restart_ci m (some name) mem now).1 ≡ success)
      × ((d : Ci) × (find_ci (restart_ci m (some name) mem now).0 name ≡ some d)
          × (d.current_status ≡ shutdown))
unfolding restart_ci start_after
restart_ci_shutdown m name mem now c at =
    let (d, found, down) = find_ci-stopped m name mem now c at in
    rw (stop_ci_graceful m name mem now c at) (
      rw (start_ci_started (stopped m name mem now) name mem now d found (ground arith))
        (refl, (d, found, down)))

status_eq→eq : (a b : Status) → status_eq a b ≡ true → a ≡ b
status_eq→eq a b h = ground arith

pub transition_same :
    (m : Manager) (name : Bytes) (e : Event) (reason : Option Bytes) (mem : Bool) (now : ℕ) (c : Ci)
    → find_ci m name ≡ some c
    → status_eq (next_status e c.current_status) c.current_status ≡ true
    → transition m (some name) e reason mem now ≡ (m, success)
unfolding transition
transition_same m name e reason mem now c at same = ground arith

pub transition_moved :
    (m : Manager) (name : Bytes) (e : Event) (reason : Option Bytes) (mem : Bool) (now : ℕ) (c : Ci)
    → find_ci m name ≡ some c
    → status_eq (next_status e c.current_status) c.current_status ≡ false
    → transition m (some name) e reason mem now
      ≡ (move m name e (next_status e c.current_status) reason mem now, success)
unfolding transition
transition_moved m name e reason mem now c at other = ground arith

-- An event on a known CI succeeds and leaves the CI in the status that the event calls for.
pub find_ci-transition :
    (m : Manager) (name : Bytes) (e : Event) (reason : Option Bytes) (mem : Bool) (now : ℕ) (c : Ci)
    → find_ci m name ≡ some c
    → (d : Ci) × (find_ci (transition m (some name) e reason mem now).0 name ≡ some d)
      × (d.current_status ≡ next_status e c.current_status)
      × ((transition m (some name) e reason mem now).1 ≡ success)
find_ci-transition m name e reason mem now c at =
    elim (Bool-cases (status_eq (next_status e c.current_status) c.current_status)) [
      | inl same ↦
          let did = transition_same m name e reason mem now c at same in
          (c, rw did at, sym (status_eq→eq _ _ same), rw did)
      | inr other ↦
          let did = transition_moved m name e reason mem now c at other in
          let to = next_status e c.current_status in
          (
            moved e to reason mem now c,
            rw did (ground (arith, find_ci-move m name name e to reason mem now, str_eq_refl name)),
            moved-status e to reason mem now c,
            rw did,
          )
    ]

completes :
    (m : Manager) (name : Bytes) (ok mem : Bool) (now : ℕ) (c : Ci)
    → find_ci m name ≡ some c
    → (d : Ci) × (find_ci (complete_task m (some name) ok mem now).0 name ≡ some d)
      × (d.current_status ≡ ready)
unfolding complete_task without_task next_status
completes m name ok mem now c at =
    let why = some (if ok then codes "Task completed successfully" else codes "Task failed") in
    let m' = write m name without_task in
    let found : find_ci m' name ≡ some (without_task c) =
      ground (arith, find_ci-write m name name without_task (λ x. refl), str_eq_refl name) in
    let (d, there, status, _) =
      find_ci-transition m' name task_complete why mem now (without_task c) found in
    rw (at, complete_task) (d, there, status)

-- The completion of the current task undoes a graceful shutdown: a CI that was put into SHUTDOWN
-- to wait for its task is READY after it, whether or not the task succeeded.
pub complete_task-stop_ci :
    (m : Manager) (name : Bytes) (ok mem : Bool) (now later : ℕ) (c : Ci)
    → find_ci m name ≡ some c
    → (d : Ci) × (find_ci
          (complete_task (stop_ci m (some name) true mem now).0 (some name) ok mem later).0
          name
        ≡ some d)
      × (d.current_status ≡ ready)
complete_task-stop_ci m name ok mem now later c at =
    let (d, found, _) = find_ci-stopped m name mem now c at in
    rw (stop_ci_graceful m name mem now c at)
      (completes (stopped m name mem now) name ok mem later d found)
