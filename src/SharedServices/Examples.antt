-- ===== src/SharedServices/Examples.antt =====
-- Runs of the task table of src/daemon/argo_shared_services.c.
use argo.Base.{ℕ, [], ◌∷◌, arith, true, false}
use argo.SharedServices.{Task, Services, create}
use argo.SharedServices.Valid.{IsValid}

abbrev task : ℕ → Task
task f = record { fn = f; context = 0; interval_sec = 5; last_run = 0; enabled = true }

abbrev two : Services
two = record {
  running = true;
  should_stop = false;
  tasks = task 1 ∷ task 2 ∷ [];
  total_task_runs = 0;
  started_at = 0;
}

create-IsValid : IsValid create
unfolding create
create-IsValid = omega arith
