-- ===== src/Daemon/Tasks.antt =====
-- The workflow tasks of src/daemon/argo_daemon_tasks.c. `now` is the clock, which is read once;
-- `mem` tells whether the copy of the entries can be allocated; `fork` gives the PID of the child
-- that a retry starts, or `none` where fork fails. A task returns the daemon's new state.
pub mod Valid
pub mod Exit
pub mod Retry
pub mod Drain
mod Examples
use argo.Base.{
  ℕ, zero, suc, ◌+◌, ◌-◌, Bool, true, false, not, ◌&&◌, ◌||◌, List, [], ◌∷◌, Option, none, some,
  ltb, ◌==◌, if◌then◌else◌,
}
use argo.ExitQueue.{Slot, Queue, pop, get_dropped}
use argo.WorkflowRegistry.{
  Entry, Registry, running, state_eq, find, write, update_state, remove, list,
}
use argo.Daemon.{Daemon}

-- Has a listed workflow run for longer than its timeout?
abbrev pub timed_out : ℕ → Entry → Bool
timed_out now e =
    not (not (state_eq e.state running) || e.timeout_seconds == 0)
    && ltb e.timeout_seconds (now - e.start_time)

unfoldable pub with_abandon : Entry → Entry
with_abandon e = record e { abandon_requested = true }

-- The loop over the copied entries, with the PIDs that get SIGTERM.
unfoldable pub timeout_loop : ℕ → List Entry → Registry → Registry × List ℕ
unfolding write with_abandon
timeout_loop now [] r = (r, [])
timeout_loop now (e ∷ es) r =
    let out = timed_out now e in
    let r' =
      if out
      then elim (find r e.workflow_id) [ none ↦ r | some _ ↦ write r e.workflow_id with_abandon ]
      else r in
    let (last, killed) = timeout_loop now es r' in
    (last, if out && ltb 0 e.executor_pid then e.executor_pid ∷ killed else killed)

unfoldable pub timeout_task : Daemon → Bool → ℕ → Daemon × List ℕ
unfolding timeout_loop list
timeout_task d mem now = elim (list d.registry mem).0 [
  | none ↦ (d, [])
  | some entries ↦
      let (r, killed) = timeout_loop now entries d.registry in (record d { registry = r }, killed)
]

unfoldable pub with_retry : ℕ → Entry → Entry
with_retry now m = record m { retry_count = m.retry_count + 1; last_retry_time = now }

unfoldable pub with_pid : ℕ → Entry → Entry
with_pid pid m = record m { executor_pid = pid }

-- The parent's side of a retry, after the fork.
unfoldable pub retried : Registry → Entry → Option ℕ → ℕ → Registry
unfolding write with_pid update_state
retried r e none now = r
retried r e (some pid) now =
    (update_state (write r e.workflow_id (with_pid pid)) (some e.workflow_id) running now).0

unfoldable pub handle_failure : Registry → Entry → Option ℕ → ℕ → Registry
unfolding find write with_retry retried remove
handle_failure r e fork now = elim (find r e.workflow_id) [
  | none ↦ r
  | some m ↦
      if ltb m.retry_count m.max_retries
      then retried (write r e.workflow_id (with_retry now)) e fork now
      else (remove r (some e.workflow_id)).0
]

-- The first listed entry that runs under the PID.
unfoldable pub match_pid : ℕ → List Entry → Option Entry
match_pid pid [] = none
match_pid pid (e ∷ es) =
    if e.executor_pid == pid && state_eq e.state running then some e else match_pid pid es

unfoldable pub with_exit : ℕ → Entry → Entry
with_exit code m = record m { exit_code = code }

-- What follows once an entry matches the exit.
unfoldable pub settle : Registry → Entry → ℕ → Option ℕ → ℕ → Registry
unfolding find write with_exit remove handle_failure
settle r e code fork now = elim (find r e.workflow_id) [
  | none ↦ r
  | some m ↦
      let r' = write r e.workflow_id (with_exit code) in
      if m.abandon_requested
      then (remove r' (some e.workflow_id)).0
      else if code == 0
      then (remove r' (some e.workflow_id)).0
      else handle_failure r' e fork now
]

-- The body of the drain loop, for one popped exit code.
unfoldable pub handle_exit : Registry → Slot → Bool → Option ℕ → ℕ → Registry
unfolding list match_pid settle
handle_exit r s mem fork now = elim (list r mem).0 [
  | none ↦ r
  | some entries ↦ elim (match_pid s.pid entries) [
    | none ↦ r
    | some e ↦ settle r e s.exit_code fork now
  ]
]

-- The answers of the system while one exit code is handled.
pub record Env : Type 0 where
  pub mem : Slot → Bool
  pub fork : Slot → Option ℕ
  pub now : ℕ

-- `while (exit_queue_pop(...))`, on fuel.
unfoldable pub drain : ℕ → Env → Daemon → Daemon
unfolding handle_exit
drain zero env d = d
drain (suc fuel) env d = elim (pop d.queue).1 [
  | none ↦ record d { queue = (pop d.queue).0 }
  | some s ↦ drain fuel env (record {
    registry = handle_exit d.registry s (env.mem s) (env.fork s) env.now;
    queue = (pop d.queue).0;
  })
]

-- The queue holds at most 127 entries, so 128 rounds are enough.
unfoldable pub completion_task : Env → Daemon → Daemon
unfolding drain get_dropped
completion_task env d = drain 128 env (record d { queue = (get_dropped d.queue).0 })
