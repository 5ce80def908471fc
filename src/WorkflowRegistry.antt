-- ===== src/WorkflowRegistry.antt =====
-- The workflow registry of src/daemon/argo_workflow_registry.c and
-- include/argo_workflow_registry.h: a linked list of workflow entries and a count. A string is
-- the list of its bytes; `none` for a string argument is a NULL pointer. `mem` is the answer of
-- the allocator and `now` that of the clock. The registry pointer itself is never NULL here.
pub mod Valid
pub mod Map
pub mod Counts
pub mod Prune
pub mod Names
mod Examples
use argo.Base.{
  ℕ, zero, suc, ◌+◌, ◌-◌, Bool, true, false, not, ◌&&◌, ◌||◌, List, [], ◌∷◌, ◌++◌, Option, none,
  some, ltb, ◌==◌, if◌then◌else◌, Bytes, codes, str_eq,
}
use argo.Base.Nodes.{find_node, modify_node, remove_node}
use argo.Error.{Code, success, e_system_memory, e_input_null, e_not_found, e_duplicate}

pub data State : Type 0 where
  pending running paused completed failed abandoned : State

pub record Entry : Type 0 where
  pub workflow_id : Bytes
  pub workflow_name : Bytes
  pub state : State
  pub executor_pid : ℕ
  pub stdin_pipe : ℕ
  pub start_time : ℕ
  pub end_time : ℕ
  pub exit_code : ℕ
  pub abandon_requested : Bool
  pub current_step : ℕ
  pub total_steps : ℕ
  pub timeout_seconds : ℕ
  pub retry_count : ℕ
  pub max_retries : ℕ
  pub last_retry_time : ℕ

pub record Registry : Type 0 where
  pub head : List Entry
  pub count : ℕ

abbrev pub id_of : Entry → Bytes
id_of e = e.workflow_id

abbrev pub state_eq : State → State → Bool
state_eq pending pending = true
state_eq running running = true
state_eq paused paused = true
state_eq completed completed = true
state_eq failed failed = true
state_eq abandoned abandoned = true
state_eq _ _ = false

unfoldable pub create : Registry
create = record { head = []; count = 0 }

unfoldable pub find : Registry → Bytes → Option Entry
unfolding find_node
find r id = find_node id_of id r.head

unfoldable pub add : Registry → Option Entry → Bool → Registry × Code
unfolding find
add r none mem = (r, e_input_null)
add r (some e) mem = elim (find r e.workflow_id) [
  | some _ ↦ (r, e_duplicate)
  | none ↦
      if mem
      then (record { head = e ∷ r.head; count = r.count + 1 }, success)
      else (r, e_system_memory)
]

-- A write through the pointer that `find_node` returned.
unfoldable pub write : Registry → Bytes → (Entry → Entry) → Registry
unfolding modify_node
write r id f = record r { head = modify_node id_of id f r.head }

abbrev pub is_terminal : State → Bool
is_terminal s = state_eq s completed || state_eq s failed || state_eq s abandoned

unfoldable pub with_state : State → ℕ → Entry → Entry
with_state s now e = record e {
  state = s;
  end_time = if is_terminal s && e.end_time == 0 then now else e.end_time;
}

unfoldable pub update_state : Registry → Option Bytes → State → ℕ → Registry × Code
unfolding find write with_state
update_state r none s now = (r, e_input_null)
update_state r (some id) s now = elim (find r id) [
  | none ↦ (r, e_not_found)
  | some _ ↦ (write r id (with_state s now), success)
]

unfoldable pub with_step : ℕ → Entry → Entry
with_step n e = record e { current_step = n }

unfoldable pub update_progress : Registry → Option Bytes → ℕ → Registry × Code
unfolding find write with_step
update_progress r none n = (r, e_input_null)
update_progress r (some id) n = elim (find r id) [
  | none ↦ (r, e_not_found)
  | some _ ↦ (write r id (with_step n), success)
]

-- The loop of `workflow_registry_remove` takes the first node with the ID out of the list; it
-- finds one exactly if `find_node` does.
unfoldable pub remove : Registry → Option Bytes → Registry × Code
unfolding find remove_node
remove r none = (r, e_input_null)
remove r (some id) = elim (find r id) [
  | none ↦ (r, e_not_found)
  | some _ ↦ (record { head = remove_node id_of id r.head; count = r.count - 1 }, success)
]

-- The copy loop of `workflow_registry_list` fills `calloc(reg->count)` in list order.
unfoldable pub list : Registry → Bool → Option (List Entry) × ℕ × Code
list r mem =
    if r.count == 0
    then (none, 0, success)
    else if mem
    then (some r.head, r.count, success)
    else (none, 0, e_system_memory)

unfoldable pub count_state : List Entry → State → ℕ
count_state [] s = 0
count_state (e ∷ es) s = (if state_eq e.state s then 1 else 0) + count_state es s

-- `none` is the state (workflow_state_t)-1, which asks for all.
unfoldable pub count_of : Registry → Option State → ℕ
unfolding count_state
count_of r none = r.count
count_of r (some s) = count_state r.head s

unfoldable pub state_to_string : State → Bytes
state_to_string pending = codes "pending"
state_to_string running = codes "running"
state_to_string paused = codes "paused"
state_to_string completed = codes "completed"
state_to_string failed = codes "failed"
state_to_string abandoned = codes "abandoned"

unfoldable pub state_from_string : Option Bytes → State
unfolding str_eq
state_from_string none = pending
state_from_string (some s) =
    if str_eq s (codes "pending")
    then pending
    else if str_eq s (codes "running")
    then running
    else if str_eq s (codes "paused")
    then paused
    else if str_eq s (codes "completed")
    then completed
    else if str_eq s (codes "failed")
    then failed
    else if str_eq s (codes "abandoned")
    then abandoned
    else pending

-- What `workflow_registry_prune` removes.
abbrev pub prunable : ℕ → Entry → Bool
prunable older_than e = is_terminal e.state && ltb 0 e.end_time && ltb e.end_time older_than

-- The loop of the pruning, with the registry's count and the number of removed nodes.
unfoldable pub prune_loop : ℕ → List Entry → ℕ → ℕ → List Entry × ℕ × ℕ
prune_loop older_than [] count pruned = ([], count, pruned)
prune_loop older_than (e ∷ es) count pruned =
    let out = prunable older_than e in
    let (rest, count', pruned') =
      prune_loop older_than es (if out then count - 1 else count)
        (if out then pruned + 1 else pruned) in
    (if out then rest else e ∷ rest, count', pruned')

unfoldable pub prune : Registry → ℕ → Registry × ℕ
unfolding prune_loop
prune r older_than =
    let (kept, count, pruned) = prune_loop older_than r.head r.count 0 in
    (record { head = kept; count = count }, pruned)
