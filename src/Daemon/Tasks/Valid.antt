-- ===== src/Daemon/Tasks/Valid.antt =====
-- The tasks of src/daemon/argo_daemon_tasks.c and the invariant of the registry.
use argo.Base.{
  ℕ, zero, suc, refl, Bool, List, [], ◌∷◌, Option, none, some, arith, inl, inr, Option-cases,
}
use argo.ExitQueue.{Slot, pop}
use argo.WorkflowRegistry.{Entry, Registry, running}
use argo.WorkflowRegistry.Valid.{IsValid, write-IsValid, remove-IsValid, update_state-IsValid}
use argo.Daemon.{Daemon}
use argo.Daemon.Tasks.{
  with_abandon, with_retry, with_pid, with_exit, timeout_loop, timeout_task, retried,
  handle_failure, settle, match_pid, handle_exit, Env, drain, completion_task,
}

timeout_loop-IsValid :
    (now : ℕ) (es : List Entry) (r : Registry) → IsValid r → IsValid (timeout_loop now es r).0
unfolding timeout_loop
timeout_loop-IsValid now [] r h = h
timeout_loop-IsValid now (e ∷ es) r h =
    timeout_loop-IsValid now es _
      (ground (arith, write-IsValid r e.workflow_id with_abandon (λ x. refl) h))

pub timeout_task-IsValid :
    (d : Daemon) (mem : Bool) (now : ℕ)
    → IsValid d.registry
    → IsValid (timeout_task d mem now).0.registry
unfolding timeout_task
timeout_task-IsValid d mem now h =
    ground (arith, timeout_loop-IsValid now d.registry.head d.registry h)

retried-IsValid :
    (r : Registry) (e : Entry) (fork : Option ℕ) (now : ℕ)
    → IsValid r
    → IsValid (retried r e fork now)
unfolding retried
retried-IsValid r e none now h = h
retried-IsValid r e (some pid) now h =
    update_state-IsValid _ (some e.workflow_id) running now
      (write-IsValid r e.workflow_id (with_pid pid) (λ x. refl) h)

handle_failure-IsValid :
    (r : Registry) (e : Entry) (fork : Option ℕ) (now : ℕ)
    → IsValid r
    → IsValid (handle_failure r e fork now)
unfolding handle_failure
handle_failure-IsValid r e fork now h = ground (
  arith,
  remove-IsValid r (some e.workflow_id) h,
  retried-IsValid _ e fork now (write-IsValid r e.workflow_id (with_retry now) (λ x. refl) h),
)

settle-IsValid :
    (r : Registry) (e : Entry) (code : ℕ) (fork : Option ℕ) (now : ℕ)
    → IsValid r
    → IsValid (settle r e code fork now)
unfolding settle
settle-IsValid r e code fork now h =
    let w = write-IsValid r e.workflow_id (with_exit code) (λ x. refl) h in
    ground (arith, remove-IsValid _ (some e.workflow_id) w, handle_failure-IsValid _ e fork now w)

pub handle_exit-IsValid :
    (r : Registry) (s : Slot) (mem : Bool) (fork : Option ℕ) (now : ℕ)
    → IsValid r
    → IsValid (handle_exit r s mem fork now)
unfolding handle_exit
handle_exit-IsValid r s mem fork now h = elim (Option-cases (match_pid s.pid r.head)) [
  | inl absent ↦ ground arith
  | inr (e, at) ↦ ground (arith, settle-IsValid r e s.exit_code fork now h)
]

drain-IsValid :
    (fuel : ℕ) (env : Env) (d : Daemon) → IsValid d.registry → IsValid (drain fuel env d).registry
unfolding drain
drain-IsValid zero env d h = h
drain-IsValid (suc fuel) env d h = elim (Option-cases (pop d.queue).1) [
  | inl empty ↦ rw (empty, drain) h
  | inr (s, got) ↦
      rw (got, drain)
        (drain-IsValid fuel env _
          (handle_exit-IsValid d.registry s (env.mem s) (env.fork s) env.now h))
]

-- Both workflow tasks keep the registry valid: the count is that of the nodes and no ID occurs
-- twice, whatever the exit codes, the clock, the allocator and the forks do.
pub tasks-IsValid :
    (d : Daemon) (env : Env) (mem : Bool) (now : ℕ)
    → IsValid d.registry
    → IsValid (completion_task env d).registry × IsValid (timeout_task d mem now).0.registry
unfolding completion_task
tasks-IsValid d env mem now h = (drain-IsValid 128 env _ h, timeout_task-IsValid d mem now h)
