-- ===== src/CiRegistry.antt =====
-- The registry of companion intelligences (CIs) of src/daemon/argo_registry.c and
-- include/argo_registry.h: a linked list of entries, a count and the port configuration. A string
-- is the list of its bytes, `none` a NULL pointer; the registry pointer itself is never NULL.
-- `mem` is the answer of the allocator and `now` that of the clock. A socket descriptor is `none`
-- where the source stores -1.
pub mod Valid
pub mod Names
pub mod Ports
pub mod Runs
pub mod Persistence
mod Examples
use argo.Base.{
  ℕ, zero, suc, ◌+◌, ◌-◌, Bool, true, false, not, ◌&&◌, List, [], ◌∷◌, Option, none, some, ltb, leb,
  ◌==◌, if◌then◌else◌, Bytes, codes, str_eq, take,
}
use argo.Base.Nodes.{find_node, modify_node, remove_node}
use argo.Error.{Code, success, e_system_memory, e_input_null, e_input_invalid, e_protocol_queue}

pub data Status : Type 0 where
  offline starting ready busy error shutdown : Status

abbrev pub status_eq : Status → Status → Bool
status_eq offline offline = true
status_eq starting starting = true
status_eq ready ready = true
status_eq busy busy = true
status_eq error error = true
status_eq shutdown shutdown = true
status_eq _ _ = false

pub record PortConfig : Type 0 where
  pub base_port : ℕ
  pub port_max : ℕ
  pub builder_offset : ℕ
  pub coordinator_offset : ℕ
  pub requirements_offset : ℕ
  pub analysis_offset : ℕ
  pub reserved_offset : ℕ

pub record Entry : Type 0 where
  pub name : Bytes
  pub role : Bytes
  pub model : Bytes
  pub host : Bytes
  pub port : ℕ
  pub socket_fd : Option ℕ
  pub status : Status
  pub last_heartbeat : ℕ
  pub registered_at : ℕ
  pub context_size : ℕ
  pub supports_streaming : Bool
  pub supports_memory : Bool
  pub messages_sent : ℕ
  pub messages_received : ℕ
  pub errors_count : ℕ
  pub last_error : ℕ

pub record Registry : Type 0 where
  pub entries : List Entry
  pub count : ℕ
  pub port_config : PortConfig

abbrev pub name_of : Entry → Bytes
name_of e = e.name

abbrev pub max_cis : ℕ
max_cis = 50

unfoldable pub create : Registry
create = record {
  entries = [];
  count = 0;
  port_config = record {
    base_port = 9000;
    port_max = 50;
    builder_offset = 0;
    coordinator_offset = 10;
    requirements_offset = 20;
    analysis_offset = 30;
    reserved_offset = 40;
  };
}

unfoldable pub find_ci : Registry → Bytes → Option Entry
unfolding find_node
find_ci r name = find_node name_of name r.entries

-- `strncpy` into a zeroed field of 32, 32, 64 or 128 bytes keeps one byte less.
unfoldable pub new_entry : Bytes → Bytes → Bytes → ℕ → ℕ → Entry
new_entry name role model port now = record {
  name = take 31 name;
  role = take 31 role;
  model = take 63 model;
  host = codes "localhost";
  port = port;
  socket_fd = none;
  status = offline;
  last_heartbeat = now;
  registered_at = now;
  context_size = 0;
  supports_streaming = false;
  supports_memory = false;
  messages_sent = 0;
  messages_received = 0;
  errors_count = 0;
  last_error = 0;
}

unfoldable pub add_ci :
    Registry → Option Bytes → Option Bytes → Option Bytes → ℕ → Bool → ℕ → Registry × Code
add_ci r (some name) (some role) (some model) port mem now =
    if leb max_cis r.count then (r, e_protocol_queue) else elim (find_ci r name) [
      | some _ ↦ (r, e_input_invalid)
      | none ↦
          if mem
          then (
            record r {
              entries = new_entry name role model port now ∷ r.entries;
              count = r.count + 1;
            },
            success,
          )
          else (r, e_system_memory)
    ]
add_ci r _ _ _ port mem now = (r, e_input_null)

unfoldable pub remove_ci : Registry → Option Bytes → Registry × Code
unfolding find_ci remove_node
remove_ci r none = (r, e_input_null)
remove_ci r (some name) = elim (find_ci r name) [
  | none ↦ (r, e_input_invalid)
  | some _ ↦
      (record r { entries = remove_node name_of name r.entries; count = r.count - 1 }, success)
]

unfoldable pub role_offset : PortConfig → Bytes → ℕ
unfolding str_eq
role_offset c role =
    if str_eq role (codes "builder")
    then c.builder_offset
    else if str_eq role (codes "coordinator")
    then c.coordinator_offset
    else if str_eq role (codes "requirements")
    then c.requirements_offset
    else if str_eq role (codes "analysis")
    then c.analysis_offset
    else c.reserved_offset

abbrev pub ports_per_role : ℕ
ports_per_role = 10

-- The first port of a role's range.
unfoldable pub role_base : Registry → Bytes → ℕ
role_base r role = r.port_config.base_port + role_offset r.port_config role

unfoldable pub port_free : ℕ → List Entry → Bool
port_free p [] = true
port_free p (e ∷ es) = if e.port == p then false else port_free p es

unfoldable pub is_port_available : Registry → ℕ → Bool
unfolding port_free
is_port_available r p = port_free p r.entries

-- The loop over the ports of a range: `rounds` ports from `p` on.
unfoldable pub first_free : Registry → ℕ → ℕ → Option ℕ
unfolding is_port_available
first_free r zero p = none
first_free r (suc rounds) p =
    let later = first_free r rounds (p + 1) in if is_port_available r p then some p else later

-- The first entry that is offline with its port in the range from `base` on.
abbrev pub reclaimable : ℕ → Entry → Bool
reclaimable base e =
    status_eq e.status offline && leb base e.port && ltb e.port (base + ports_per_role)

unfoldable pub first_reclaimable : ℕ → List Entry → Option Entry
first_reclaimable base [] = none
first_reclaimable base (e ∷ es) = if reclaimable base e then some e else first_reclaimable base es

unfoldable pub reclaim_port : Registry → Bytes → Registry × Option ℕ
unfolding first_reclaimable remove_ci role_base
reclaim_port r role = elim (first_reclaimable (role_base r role) r.entries) [
  | none ↦ (r, none)
  | some e ↦ ((remove_ci r (some e.name)).0, some e.port)
]

-- E_INPUT_NULL, (0x03 << 16) | 3001 as include/argo_error.h defines it.
abbrev pub e_input_null_value : ℕ
e_input_null_value = 199609

-- The port, or `none` for the result -1. A NULL role returns the code E_INPUT_NULL, which is
-- positive.
unfoldable pub allocate_port : Registry → Option Bytes → Registry × Option ℕ
unfolding first_free reclaim_port role_base
allocate_port r none = (r, some e_input_null_value)
allocate_port r (some role) = elim (first_free r ports_per_role (role_base r role)) [
  | some p ↦ (r, some p)
  | none ↦ reclaim_port r role
]

-- A write through the pointer that the search returned.
unfoldable pub write : Registry → Bytes → (Entry → Entry) → Registry
unfolding modify_node
write r name f = record r { entries = modify_node name_of name f r.entries }

unfoldable pub with_status : Status → Entry → Entry
with_status s e = record e { status = s }

unfoldable pub update_status : Registry → Option Bytes → Status → Registry × Code
unfolding find_ci write with_status
update_status r none s = (r, e_input_null)
update_status r (some name) s = elim (find_ci r name) [
  | none ↦ (r, e_input_invalid)
  | some _ ↦ (write r name (with_status s), success)
]

unfoldable pub with_heartbeat : ℕ → Entry → Entry
with_heartbeat now e = record e { last_heartbeat = now }

unfoldable pub heartbeat : Registry → Option Bytes → ℕ → Registry × Code
unfolding find_ci write with_heartbeat
heartbeat r none now = (r, e_input_null)
heartbeat r (some name) now = elim (find_ci r name) [
  | none ↦ (r, e_input_invalid)
  | some _ ↦ (write r name (with_heartbeat now), success)
]

-- The stale entries: not offline, and silent for more than 60 seconds.
unfoldable pub count_stale : ℕ → List Entry → ℕ
count_stale now [] = 0
count_stale now (e ∷ es) =
    (if not (status_eq e.status offline) && ltb 60 (now - e.last_heartbeat) then 1 else 0)
    + count_stale now es

unfoldable pub check_health : Registry → ℕ → ℕ
unfolding count_stale
check_health r now = count_stale now r.entries

unfoldable pub find_by_role : List Entry → Bytes → Option Entry
unfolding str_eq
find_by_role [] role = none
find_by_role (e ∷ es) role = if str_eq e.role role then some e else find_by_role es role

-- The first entry of the role that is ready.
unfoldable pub find_available : List Entry → Bytes → Option Entry
unfolding str_eq
find_available [] role = none
find_available (e ∷ es) role =
    if str_eq e.role role && status_eq e.status ready then some e else find_available es role
