-- ===== src/Daemon/Tasks/Drain.antt =====
-- The drain loop of `workflow_completion_task` in src/daemon/argo_daemon_tasks.c, against a fold
-- over the held exit codes.
use argo.Base.{
  ℕ, zero, suc, ◌<◌, ◌≡◌, refl, sym, ap, ◌∙◌, List, [], ◌∷◌, arith, length, Option-cases, inl, inr,
}
use argo.ExitQueue.{Slot, pop, get_dropped}
use argo.ExitQueue.Fifo.{IsValid, contents, pop-IsValid, pop-contents, oldest-none, length-contents}
use argo.WorkflowRegistry.{Registry}
use argo.Daemon.{Daemon}
use argo.Daemon.Tasks.{handle_exit, Env, drain, completion_task}

-- The handling of a list of exit codes, first to last.
pub handle_all : Env → Registry → List Slot → Registry
handle_all env r [] = r
handle_all env r (s ∷ ss) = handle_all env (handle_exit r s (env.mem s) (env.fork s) env.now) ss

drain_lem :
    (fuel : ℕ) (env : Env) (d : Daemon)
    → IsValid d.queue
    → length (contents d.queue) < fuel
    → ((drain fuel env d).registry ≡ handle_all env d.registry (contents d.queue))
      × (contents (drain fuel env d).queue ≡ [])
      × ((drain fuel env d).queue.dropped ≡ d.queue.dropped)
unfolding drain handle_all
drain_lem zero env d h lt = absurd (omega arith)
drain_lem (suc fuel) env d h lt = elim (Option-cases (pop d.queue).1) [
  | inl empty ↦
      let did = pop-contents d.queue h in
      let none_held = oldest-none (contents d.queue) (sym did.0 ∙ empty) in
      let left : contents (pop d.queue).0 ≡ [] = (rw empty at did.1) ∙ none_held in
      rw (empty, drain, none_held) (refl, left, did.2)
  | inr (s, got) ↦
      let did = pop-contents d.queue h in
      let held : contents d.queue ≡ s ∷ contents (pop d.queue).0 = sym (rw got at did.1) in
      let d' : Daemon = record {
        registry = handle_exit d.registry s (env.mem s) (env.fork s) env.now;
        queue = (pop d.queue).0;
      } in
      let rest = drain_lem fuel env d' (pop-IsValid d.queue h) (omega (arith, ap length held)) in
      rw (got, drain, held) (rest.0, rest.1, rest.2 ∙ did.2)
]

-- On a valid exit queue the completion task ends with an empty queue and a cleared dropped counter,
-- and its registry is that of handling each held exit code once, oldest first.
pub completion_task_lem :
    (env : Env) (d : Daemon)
    → IsValid d.queue
    → ((completion_task env d).registry ≡ handle_all env d.registry (contents d.queue))
      × (contents (completion_task env d).queue ≡ [])
      × ((completion_task env d).queue.dropped ≡ 0)
unfolding completion_task get_dropped
completion_task_lem env d h =
    drain_lem 128 env (record d { queue = record (d.queue) { dropped = 0 } })
      (record {
        sized = h.sized;
        write_bound = h.write_bound;
        read_bound = h.read_bound;
        marked = h.marked;
      })
      (omega (arith, length-contents d.queue))
