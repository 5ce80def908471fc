-- ===== src/Lifecycle/Examples.antt =====
-- Runs of the lifecycle manager of src/daemon/argo_lifecycle.c on one CI.
use argo.Base.{◌≡◌, refl, [], ◌∷◌, some, none, true, false, arith, codes, str_eq}
use argo.CiRegistry
use argo.CiRegistry.{Status, offline, ready, shutdown}
use argo.Lifecycle.{Ci, Manager, Alloc, create, create_ci, find_ci, restart_ci}
use argo.Error.{success}
use argo.Lifecycle.Restart.{restart_ci_shutdown}
use argo.Lifecycle.Sync.{IsSynced}
use argo.CiRegistry.Valid.{IsValid, create-IsValid}
use argo.Lifecycle.Creation.{create_ci-IsSynced}
use argo.Lifecycle.Runs.{stop_op, step, step-IsSynced}

abbrev argo_ci : Ci
argo_ci = record {
  ci_name = codes "Argo";
  current_status = ready;
  created_at = 1;
  last_transition = 2;
  transition_count = 0;
  transitions = [];
  last_heartbeat = 2;
  missed_heartbeats = 0;
  heartbeat_interval_seconds = 60;
  current_task = none;
  task_start_time = 0;
  error_count = 0;
  last_error = none;
}

abbrev one : Manager
one = record {
  cis = argo_ci ∷ [];
  capacity = 16;
  registry = CiRegistry.create;
  heartbeat_timeout_seconds = 60;
  max_missed_heartbeats = 3;
  auto_restart_on_error = false;
}

found : find_ci one (codes "Argo") ≡ some argo_ci
unfolding find_ci str_eq
found = refl

empty-IsSynced : IsSynced (create CiRegistry.create)
unfolding find_ci create
empty-IsSynced j = tt

empty-IsValid : IsValid (create CiRegistry.create).registry
unfolding create
empty-IsValid = create-IsValid

abbrev all_given : Alloc
all_given = record { array = true; ci = true; entry = true; transition = true }

abbrev born : Manager
born =
    (create_ci (create CiRegistry.create) (some (codes "Argo")) (some (codes "builder"))
      (some (codes "m")) all_given 1).0

create_ci-IsSynced_example : IsSynced born
create_ci-IsSynced_example =
    create_ci-IsSynced (create CiRegistry.create) (codes "Argo") (codes "builder") (codes "m")
      all_given 1 empty-IsSynced empty-IsValid (omega arith)

born-IsSynced : IsSynced born
born-IsSynced =
    create_ci-IsSynced (create CiRegistry.create) (codes "Argo") (codes "builder") (codes "m")
      all_given 1 empty-IsSynced empty-IsValid (omega arith)

step-IsSynced_example : IsSynced (step born (stop_op (some (codes "Argo")) true) true 5)
step-IsSynced_example = step-IsSynced born (stop_op (some (codes "Argo")) true) true 5 born-IsSynced

restart_ci_shutdown_example :
    ((restart_ci one (some (codes "Argo")) true 5).1 ≡ success)
    × ((d : Ci) × (find_ci (restart_ci one (some (codes "Argo")) true 5).0 (codes "Argo") ≡ some d)
        × (d.current_status ≡ shutdown))
restart_ci_shutdown_example = restart_ci_shutdown one (codes "Argo") true 5 argo_ci found
