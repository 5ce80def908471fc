-- ===== src/Env.antt =====
-- The environment of the daemon in src/foundation/argo_env_utils.c and
-- src/foundation/argo_env_load.c: an array of texts NAME=VALUE. The array is the list of its first
-- `argo_env_count` slots; `allocated` tells that its pointer is not NULL, and `faulted`
-- that something was written through it when it was; what is said of the state behind that means
-- nothing. `mem` is the answer of malloc for an entry, `grow` that of realloc for
-- the array, `locked` that of pthread_mutex_lock; `none` for a string argument is a NULL pointer.
pub mod Load
pub mod Expand
pub mod Store
pub mod Refinement
pub mod Lines
pub mod Parse
pub mod Expansion
mod Examples
use argo.Base.{
  ℕ, ◌+◌, Bool, true, false, not, List, [], ◌∷◌, ◌++◌, Option, none, some, leb, ◌==◌, if◌then◌else◌,
  Bytes, length,
}
use argo.CString.{cut}
use argo.Json.{strip}
use argo.Error.{Code, success, e_system_memory, e_system_process, e_input_null}

pub record Env : Type 0 where
  pub entries : List Bytes
  pub capacity : ℕ
  pub allocated : Bool
  pub initialized : Bool
  pub faulted : Bool

abbrev pub initial_capacity : ℕ
initial_capacity = 256

abbrev pub growth_quantum : ℕ
growth_quantum = 64

-- Before anything is loaded.
abbrev pub unloaded : Env
unloaded = record {
  entries = [];
  capacity = 0;
  allocated = false;
  initialized = false;
  faulted = false;
}

-- `strncmp(entry, name, strlen(name)) == 0 && entry[strlen(name)] == '='`.
unfoldable pub is_entry : Bytes → Bytes → Bool
unfolding strip
is_entry name entry = elim (strip name entry) [
  | none ↦ false
  | some [] ↦ false
  | some (c ∷ v) ↦ c == b'='
]

-- The entry that `find_env_index` finds.
unfoldable pub find_entry : Bytes → List Bytes → Option Bytes
find_entry name [] = none
find_entry name (e ∷ es) = if is_entry name e then some e else find_entry name es

-- A write to the slot that `find_env_index` finds.
unfoldable pub replace_entry : Bytes → Bytes → List Bytes → List Bytes
replace_entry name new [] = []
replace_entry name new (e ∷ es) =
    if is_entry name e then new ∷ es else e ∷ replace_entry name new es

-- The slot goes, and those behind it move down.
unfoldable pub remove_entry : Bytes → List Bytes → List Bytes
remove_entry name [] = []
remove_entry name (e ∷ es) = if is_entry name e then es else e ∷ remove_entry name es

-- `strchr(entry, '=') + 1`.
unfoldable pub value_of : Bytes → Option Bytes
unfolding cut
value_of entry = elim (cut b'=' entry) [ none ↦ none | some (name, v) ↦ some v ]

unfoldable pub lookup_value : Bytes → List Bytes → Option Bytes
unfolding value_of find_entry
lookup_value name es = elim (find_entry name es) [ none ↦ none | some e ↦ value_of e ]

abbrev pub entry_of : Bytes → Bytes → Bytes
entry_of name value = name ++ b'=' ∷ value

unfoldable pub grow_env_array : Env → Bool → Env × Code
grow_env_array env grow =
    if grow
    then (record env { capacity = env.capacity + growth_quantum; allocated = true }, success)
    else (env, e_system_memory)

-- The new entry behind the others, once there is room for it; the capacity can be there without the
-- array.
unfoldable pub append_entry : Env × Code → Bytes → Env × Code
append_entry (env, success) entry =
    if env.allocated
    then (record env { entries = env.entries ++ entry ∷ [] }, success)
    else (record env { faulted = true }, success)
append_entry (env, other) entry = (env, other)

unfoldable pub set_env_internal : Env → Bytes → Bytes → Bool → Bool → Env × Code
unfolding append_entry grow_env_array find_entry replace_entry
set_env_internal env name value mem grow =
    if not mem then (env, e_system_memory) else elim (find_entry name env.entries) [
      | some _ ↦
          (record env { entries = replace_entry name (entry_of name value) env.entries }, success)
      | none ↦
          if leb env.capacity (length env.entries)
          then append_entry (grow_env_array env grow) (entry_of name value)
          else append_entry (env, success) (entry_of name value)
    ]

unfoldable pub argo_getenv : Env → Option Bytes → Bool → Option Bytes
unfolding lookup_value
argo_getenv env none locked = none
argo_getenv env (some name) locked = if locked then lookup_value name env.entries else none

unfoldable pub argo_setenv : Env → Option Bytes → Option Bytes → Bool → Bool → Bool → Env × Code
unfolding set_env_internal
argo_setenv env (some name) (some value) locked mem grow =
    if locked then set_env_internal env name value mem grow else (env, e_system_process)
argo_setenv env _ _ locked mem grow = (env, e_input_null)

unfoldable pub argo_unsetenv : Env → Option Bytes → Bool → Env × Code
unfolding find_entry remove_entry
argo_unsetenv env none locked = (env, e_input_null)
argo_unsetenv env (some name) locked =
    if not locked then (env, e_system_process) else elim (find_entry name env.entries) [
      | none ↦ (env, success)
      | some _ ↦ (record env { entries = remove_entry name env.entries }, success)
    ]

unfoldable pub argo_clearenv : Env → Bool → Env × Code
argo_clearenv env locked =
    if locked then (record env { entries = [] }, success) else (env, e_system_process)

unfoldable pub argo_freeenv : Env → Bool → Env
argo_freeenv env locked = if locked then unloaded else env
