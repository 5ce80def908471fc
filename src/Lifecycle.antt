-- ===== src/Lifecycle.antt =====
-- The lifecycle manager of src/daemon/argo_lifecycle.c and include/argo_lifecycle.h. The array of CIs is the list of its first `count` pointers, so its
-- length is the count. `mem` and the record of answers stand for the allocator, `now` for the
-- clock; a reason or an error text is `none` where it is NULL.
pub mod Monitoring
pub mod Sync
pub mod Ops
pub mod Heartbeats
pub mod Creation
pub mod Runs
pub mod Restart
mod Examples
use argo.Base.{
  ℕ, zero, suc, ◌+◌, ◌-◌, ◌*◌, Bool, true, false, not, ◌&&◌, List, [], ◌∷◌, ◌++◌, Option, none,
  some, ltb, leb, if◌then◌else◌, Bytes, codes, take, length,
}
use argo.Base.Nodes.{find_node, modify_node}
use argo.Error.{
  Code, success, e_system_memory, e_input_null, e_input_invalid, e_ci_invalid, e_protocol_queue,
}
use argo.CiRegistry
use argo.CiRegistry.{Status, offline, starting, ready, busy, error, shutdown, status_eq}

pub data Event : Type 0 where
  created initializing ready_event task_assigned task_complete error_event : Event
  shutdown_req shutdown_event terminated : Event

pub record Transition : Type 0 where
  pub timestamp : ℕ
  pub from_status : Status
  pub to_status : Status
  pub event : Event
  pub reason : Option Bytes

pub record Ci : Type 0 where
  pub ci_name : Bytes
  pub current_status : Status
  pub created_at : ℕ
  pub last_transition : ℕ
  pub transition_count : ℕ
  pub transitions : List Transition
  pub last_heartbeat : ℕ
  pub missed_heartbeats : ℕ
  pub heartbeat_interval_seconds : ℕ
  pub current_task : Option Bytes
  pub task_start_time : ℕ
  pub error_count : ℕ
  pub last_error : Option Bytes

pub record Manager : Type 0 where
  pub cis : List Ci
  pub capacity : ℕ
  pub registry : CiRegistry.Registry
  pub heartbeat_timeout_seconds : ℕ
  pub max_missed_heartbeats : ℕ
  pub auto_restart_on_error : Bool

abbrev pub name_of : Ci → Bytes
name_of c = c.ci_name

unfoldable pub create : CiRegistry.Registry → Manager
create r = record {
  cis = [];
  capacity = 16;
  registry = r;
  heartbeat_timeout_seconds = 60;
  max_missed_heartbeats = 3;
  auto_restart_on_error = false;
}

unfoldable pub find_ci : Manager → Bytes → Option Ci
unfolding find_node
find_ci m name = find_node name_of name m.cis

-- A write through the pointer that `lifecycle_find_ci_internal` returned.
unfoldable pub write : Manager → Bytes → (Ci → Ci) → Manager
unfolding modify_node
write m name f = record m { cis = modify_node name_of name f m.cis }

-- Where an allocation fails nothing is recorded; the callers ignore that.
unfoldable pub add_transition : Event → Status → Status → Option Bytes → Bool → ℕ → Ci → Ci
add_transition event from to reason mem now c =
    if mem
    then record c {
      transitions =
          record {
            timestamp = now;
            from_status = from;
            to_status = to;
            event = event;
            reason = reason;
          }
          ∷ c.transitions;
      transition_count = c.transition_count + 1;
    }
    else c

-- The answers of realloc, of the two callocs and of the one in `add_transition`.
pub record Alloc : Type 0 where
  pub array : Bool
  pub ci : Bool
  pub entry : Bool
  pub transition : Bool

unfoldable pub new_ci : Bytes → ℕ → ℕ → Ci
new_ci name interval now = record {
  ci_name = take 31 name;
  current_status = offline;
  created_at = now;
  last_transition = now;
  transition_count = 0;
  transitions = [];
  last_heartbeat = 0;
  missed_heartbeats = 0;
  heartbeat_interval_seconds = interval;
  current_task = none;
  task_start_time = 0;
  error_count = 0;
  last_error = none;
}

-- The end of the creation: the registration under the port, and the new CI.
unfoldable pub register :
    Manager → CiRegistry.Registry → Bytes → Bytes → Bytes → ℕ → Alloc → ℕ → Manager × Code
register m r name role model port mem now =
    let (r', code) = CiRegistry.add_ci r (some name) (some role) (some model) port mem.entry now in
    elim code [
      | success ↦ (
        record m {
          registry = r';
          cis =
              m.cis
              ++ add_transition created offline offline (some (codes "Created")) mem.transition now
                  (new_ci name m.heartbeat_timeout_seconds now)
                ∷ [];
        },
        success,
      )
      | other ↦ (record m { registry = r' }, other)
    ]

-- After the search for the name and the room for the pointer.
unfoldable pub enroll : Manager → Bytes → Bytes → Bytes → Alloc → ℕ → Manager × Code
unfolding register
enroll m name role model mem now =
    if mem.ci
    then (let (r, port) = CiRegistry.allocate_port m.registry (some role) in
        elim port [
          | none ↦ (record m { registry = r }, e_protocol_queue)
          | some p ↦ register m r name role model p mem now
        ])
    else (m, e_system_memory)

unfoldable pub create_ci :
    Manager → Option Bytes → Option Bytes → Option Bytes → Alloc → ℕ → Manager × Code
unfolding enroll
create_ci m (some name) (some role) (some model) mem now = elim (find_ci m name) [
  | some _ ↦ (m, e_input_invalid)
  | none ↦
      if leb m.capacity (length m.cis)
      then if mem.array
        then enroll (record m { capacity = m.capacity * 2 }) name role model mem now
        else (m, e_system_memory)
      else enroll m name role model mem now
]
create_ci m _ _ _ mem now = (m, e_input_null)

-- A change of status with its entry in the history, as the operations below write it.
unfoldable pub moved : Event → Status → Option Bytes → Bool → ℕ → Ci → Ci
moved event to reason mem now c =
    add_transition event c.current_status to reason mem now
      (record c { current_status = to; last_transition = now })

-- The change, and the report to the registry.
unfoldable pub move : Manager → Bytes → Event → Status → Option Bytes → Bool → ℕ → Manager
move m name event to reason mem now = record (write m name (moved event to reason mem now)) {
  registry = (CiRegistry.update_status m.registry (some name) to).0;
}

unfoldable pub start_ci : Manager → Option Bytes → Bool → ℕ → Manager × Code
start_ci m none mem now = (m, e_input_null)
start_ci m (some name) mem now = elim (find_ci m name) [
  | none ↦ (m, e_input_invalid)
  | some c ↦
      if status_eq c.current_status offline
      then (move m name initializing starting (some (codes "Starting")) mem now, success)
      else (m, success)
]

unfoldable pub stop_ci : Manager → Option Bytes → Bool → Bool → ℕ → Manager × Code
stop_ci m none graceful mem now = (m, e_input_null)
stop_ci m (some name) graceful mem now = elim (find_ci m name) [
  | none ↦ (m, e_input_invalid)
  | some c ↦ (
    if graceful
        then move m name shutdown_req shutdown (some (codes "Graceful shutdown requested")) mem now
        else move m name terminated offline (some (codes "Forced shutdown")) mem now,
    success,
  )
]

unfoldable pub start_after : Manager × Code → Option Bytes → Bool → ℕ → Manager × Code
start_after (m, success) name mem now = start_ci m name mem now
start_after (m, other) name mem now = (m, other)

unfoldable pub restart_ci : Manager → Option Bytes → Bool → ℕ → Manager × Code
restart_ci m name mem now = start_after (stop_ci m name true mem now) name mem now

-- The switch on the event; `old` is the default.
unfoldable pub next_status : Event → Status → Status
next_status created old = old
next_status initializing old = starting
next_status ready_event old = ready
next_status task_assigned old = busy
next_status task_complete old = ready
next_status error_event old = error
next_status shutdown_req old = shutdown
next_status shutdown_event old = shutdown
next_status terminated old = offline

unfoldable pub transition :
    Manager → Option Bytes → Event → Option Bytes → Bool → ℕ → Manager × Code
transition m none event reason mem now = (m, e_input_null)
transition m (some name) event reason mem now = elim (find_ci m name) [
  | none ↦ (m, e_input_invalid)
  | some c ↦
      let to = next_status event c.current_status in
      (if status_eq to c.current_status then m else move m name event to reason mem now, success)
]
