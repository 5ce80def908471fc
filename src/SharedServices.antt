-- ===== src/SharedServices.antt =====
-- The shared background thread of src/daemon/argo_shared_services.c and
-- include/argo_shared_services.h. A task function is known by its address, a number, with `none`
-- for NULL; `locked` is the answer of pthread_mutex_lock, `started` that of pthread_create. The
-- array of tasks is the list of its first `task_count` slots. What other threads do while a task
-- runs with the lock released is a list of operations.
pub mod Valid
pub mod Race
mod Examples
use argo.Base.{
  ℕ, zero, suc, ◌+◌, ◌-◌, Bool, true, false, not, ◌&&◌, List, [], ◌∷◌, ◌++◌, Option, none, some,
  leb, ◌==◌, if◌then◌else◌, length, set,
}
use argo.Error.{
  Code, success, e_system_process, e_system_thread, e_invalid_params, e_invalid_state, e_not_found,
  e_duplicate, e_resource_limit,
}

pub record Task : Type 0 where
  pub fn : ℕ
  pub context : ℕ
  pub interval_sec : ℕ
  pub last_run : ℕ
  pub enabled : Bool

pub record Services : Type 0 where
  pub running : Bool
  pub should_stop : Bool
  pub tasks : List Task
  pub total_task_runs : ℕ
  pub started_at : ℕ

abbrev pub max_tasks : ℕ
max_tasks = 32

unfoldable pub create : Services
create = record {
  running = false;
  should_stop = false;
  tasks = [];
  total_task_runs = 0;
  started_at = 0;
}

unfoldable pub start : Services → Bool → Bool → ℕ → Services × Code
start s locked started now =
    if not locked
    then (s, e_system_process)
    else if s.running
    then (s, e_invalid_state)
    else if started
    then (record s { should_stop = false; started_at = now; running = true }, success)
    else (record s { should_stop = false; started_at = now }, e_system_thread)

-- The loops over `tasks[i].fn == fn`.
unfoldable pub has_fn : ℕ → List Task → Bool
has_fn f [] = false
has_fn f (t ∷ ts) = if t.fn == f then true else has_fn f ts

unfoldable pub register_task : Services → Option ℕ → ℕ → ℕ → Bool → ℕ → Services × Code
unfolding has_fn
register_task s none context interval locked now = (s, e_invalid_params)
register_task s (some f) context interval locked now =
    if interval == 0
    then (s, e_invalid_params)
    else if not locked
    then (s, e_system_process)
    else if leb max_tasks (length s.tasks)
    then (s, e_resource_limit)
    else if has_fn f s.tasks
    then (s, e_duplicate)
    else (
      record s {
        tasks =
            s.tasks
            ++ record {
              fn = f;
              context = context;
              interval_sec = interval;
              last_run = now;
              enabled = true;
            }
              ∷ [];
      },
      success,
    )

-- The first task of the function goes, and those behind it move down.
unfoldable pub shift_down : ℕ → List Task → List Task
shift_down f [] = []
shift_down f (t ∷ ts) = if t.fn == f then ts else t ∷ shift_down f ts

unfoldable pub unregister_task : Services → Option ℕ → Bool → Services × Code
unfolding has_fn shift_down
unregister_task s none locked = (s, e_invalid_params)
unregister_task s (some f) locked =
    if not locked
    then (s, e_system_process)
    else if has_fn f s.tasks
    then (record s { tasks = shift_down f s.tasks }, success)
    else (s, e_not_found)

unfoldable pub set_enabled : ℕ → Bool → List Task → List Task
set_enabled f on [] = []
set_enabled f on (t ∷ ts) =
    if t.fn == f then record t { enabled = on } ∷ ts else t ∷ set_enabled f on ts

unfoldable pub enable_task : Services → Option ℕ → Bool → Bool → Services × Code
unfolding has_fn set_enabled
enable_task s none on locked = (s, e_invalid_params)
enable_task s (some f) on locked =
    if not locked
    then (s, e_system_process)
    else if has_fn f s.tasks
    then (record s { tasks = set_enabled f on s.tasks }, success)
    else (s, e_not_found)

-- What another thread may do while the lock is released.
pub data Op : Type 0 where
  register_op : Option ℕ → ℕ → ℕ → ℕ → Op
  unregister_op : Option ℕ → Op
  enable_op : Option ℕ → Bool → Op

unfoldable pub step : Services → Op → Services
unfolding register_task unregister_task enable_task
step s (register_op f context interval now) = (register_task s f context interval true now).0
step s (unregister_op f) = (unregister_task s f true).0
step s (enable_op f on) = (enable_task s f on true).0

unfoldable pub steps : Services → List Op → Services
unfolding step
steps s [] = s
steps s (o ∷ os) = steps (step s o) os

-- `task->last_run = time(NULL)` through the pointer to slot `i`, which was taken before the lock
-- was released.
unfoldable pub stamp : ℕ → ℕ → List Task → List Task
stamp i now [] = []
stamp zero now (t ∷ ts) = record t { last_run = now } ∷ ts
stamp (suc i) now (t ∷ ts) = t ∷ stamp i now ts

abbrev pub is_due : ℕ → Task → Bool
is_due now t = t.enabled && leb t.interval_sec (now - t.last_run)

-- The body of the loop for slot `i` that holds `t`: the service, and the function that ran. The
-- clock shows `later` when the task is done; the lock is then regained.
unfoldable pub visit : Services → ℕ → Task → ℕ → ℕ → List Op → Services × Option ℕ
unfolding steps stamp
visit s i t now later during =
    if is_due now t
    then (let s' = steps s during in
        (
          record s' { tasks = stamp i later s'.tasks; total_task_runs = s'.total_task_runs + 1 },
          some t.fn,
        ))
    else (s, none)
