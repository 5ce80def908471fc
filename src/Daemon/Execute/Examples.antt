-- ===== src/Daemon/Execute/Examples.antt =====
-- Starts of a workflow in src/daemon/argo_daemon_workflow.c.
use argo.Base.{
  ◌≤◌, ◌≡◌, ◌⊎◌, refl, [], ◌∷◌, List, arith, some, Option, true, Bytes, codes, str_eq, length, All,
}
use argo.Error.{e_invalid_params}
use argo.WorkflowRegistry.{create, find}
use argo.WorkflowRegistry.Valid.{create-IsValid}
use argo.Daemon.Execute.{
  validate_script_path, has_dots, has_any, all_safe, is_safe_env_var, is_blocked, is_name, System,
  execute_bash_workflow,
}
use argo.Daemon.Execute.Safe.{IsSafePath, IsSafeKey, execute_bash_workflow_safe}
use argo.Daemon.Execute.Start.{started, execute_bash_workflow_lem}

abbrev sys : System
sys = record {
  stat = λ path. record { exists = true; regular = true };
  mem = true;
  pipe = some 5;
  fork = some 41;
  now = 10;
}

abbrev keys : List (Option Bytes)
keys = some (codes "CI_MODEL") ∷ []

execute_bash_workflow_safe_example :
    (IsSafePath sys.stat (codes "a;b.sh")
      × All IsSafeKey keys
      × (1 ≤ length (codes "wf_1"))
      × (length (codes "wf_1") ≤ 63))
    ⊎ (execute_bash_workflow create sys (some (codes "a;b.sh")) keys (some (codes "wf_1"))
        ≡ (create, e_invalid_params))
execute_bash_workflow_safe_example =
    execute_bash_workflow_safe create sys (codes "a;b.sh") keys (codes "wf_1")

execute_bash_workflow_lem_example :
    (find
        (execute_bash_workflow create sys (some (codes "b.sh")) keys (some (codes "wf_1"))).0
        (codes "wf_1")
      ≡ (started create sys
          (codes "wf_1")
          (codes "b.sh")
          (codes "wf_1")
          (find create (codes "wf_1"))).0)
    × ((execute_bash_workflow create sys (some (codes "b.sh")) keys (some (codes "wf_1"))).1
        ≡ (started create sys
            (codes "wf_1")
            (codes "b.sh")
            (codes "wf_1")
            (find create (codes "wf_1"))).1)
unfolding validate_script_path has_dots has_any all_safe is_safe_env_var is_blocked is_name str_eq
execute_bash_workflow_lem_example =
    execute_bash_workflow_lem create sys (codes "b.sh") keys (codes "wf_1") (codes "wf_1")
      create-IsValid refl refl (omega arith) (omega arith)
