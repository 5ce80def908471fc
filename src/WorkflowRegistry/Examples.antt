-- ===== src/WorkflowRegistry/Examples.antt =====
-- Runs of the workflow registry of src/daemon/argo_workflow_registry.c.
use argo.Base.{str_eq, ℕ, ◌≡◌, refl, [], ◌∷◌, List, some, none, true, false, Bytes, codes}
use argo.Base.Nodes.{find_node}
use argo.WorkflowRegistry.{State, pending, running, completed, Entry, Registry, find, prune}
use argo.WorkflowRegistry.Valid.{IsValid}
use argo.WorkflowRegistry.Map.{Op, add_op, update_state_op, remove_op, step, spec, step_refines}

abbrev entry : Bytes → State → ℕ → Entry
entry id s ended = record {
  workflow_id = id;
  workflow_name = codes "build.sh";
  state = s;
  executor_pid = 41;
  stdin_pipe = 5;
  start_time = 10;
  end_time = ended;
  exit_code = 0;
  abandon_requested = false;
  current_step = 0;
  total_steps = 1;
  timeout_seconds = 3600;
  retry_count = 0;
  max_retries = 3;
  last_retry_time = 0;
}

abbrev two : Registry
two = record { head = entry (codes "b") running 0 ∷ entry (codes "a") completed 20 ∷ []; count = 2 }

two-IsValid : IsValid two
unfolding find_node str_eq
two-IsValid = record { counted = refl; distinct = (refl, (refl, tt)) }

abbrev finish_b : Op
finish_b = update_state_op (some (codes "b")) completed 30

step_refines_example : find (step two finish_b) (codes "b") ≡ spec (find two) finish_b (codes "b")
step_refines_example = step_refines two finish_b (codes "b") two-IsValid

abbrev script : List Op
script =
    add_op (some (entry (codes "a") pending 0)) true ∷ finish_b ∷ remove_op (some (codes "a")) ∷ []

prune_test : find (prune two 25).0 (codes "a") ≡ none
unfolding prune find str_eq
prune_test = refl
