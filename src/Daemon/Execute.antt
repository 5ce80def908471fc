-- ===== src/Daemon/Execute.antt =====
-- The start of a workflow in src/daemon/argo_daemon_workflow.c: the validation of the script path,
-- of the workflow ID and of the environment, and the registration around pipe and fork. What the
-- file system and the kernel answer is a record. The child's side of the fork, which ends in
-- `execv`, is left out.
pub mod Safe
pub mod Start
mod Examples
use argo.Base.{
  ℕ, suc, ◌+◌, Bool, true, false, not, ◌&&◌, ◌||◌, List, [], ◌∷◌, Option, none, some, ltb, leb,
  ◌==◌, if◌then◌else◌, Bytes, codes, str_eq, length, take,
}
use argo.Error.{Code, success, e_system_fork, e_system_process, e_input_null, e_invalid_params}
use argo.WorkflowRegistry.{
  State, pending, running, failed, Entry, Registry, find, write, add, remove, update_state,
}

-- `strchr(s, c) != NULL`.
unfoldable pub has_char : ℕ → Bytes → Bool
has_char c [] = false
has_char c (x ∷ xs) = x == c || has_char c xs

-- `strstr(s, "..") != NULL`.
unfoldable pub has_dots : Bytes → Bool
has_dots [] = false
has_dots (x ∷ []) = false
has_dots (x ∷ y ∷ s) = (x == b'.' && y == b'.') || has_dots (y ∷ s)

abbrev pub dangerous_chars : Bytes
dangerous_chars = codes ";|&$`<>(){}[]!"

-- Does one of the characters occur in the path?
unfoldable pub has_any : Bytes → Bytes → Bool
unfolding has_char
has_any [] path = false
has_any (c ∷ cs) path = has_char c path || has_any cs path

-- What `stat` says of a path: it may fail, and the file may be regular.
pub record Stat : Type 0 where
  pub exists : Bool
  pub regular : Bool

-- `none` is a NULL path.
unfoldable pub validate_script_path : (Bytes → Stat) → Option Bytes → Bool
validate_script_path stat none = false
validate_script_path stat (some []) = false
validate_script_path stat (some (c ∷ cs)) =
    if has_dots (c ∷ cs)
    then false
    else if c == b'|' || c == b'>' || c == b'<' || c == b'&'
    then false
    else if has_any dangerous_chars (c ∷ cs)
    then false
    else (stat (c ∷ cs)).exists && (stat (c ∷ cs)).regular

-- `isalnum` in the C locale.
abbrev pub is_alnum : ℕ → Bool
is_alnum c = (leb b'0' c && leb c b'9') || (leb b'A' c && leb c b'Z') || (leb b'a' c && leb c b'z')

abbrev pub blocked_vars : List Bytes
blocked_vars =
    codes "LD_PRELOAD"
    ∷ codes "LD_LIBRARY_PATH"
    ∷ codes "DYLD_INSERT_LIBRARIES"
    ∷ codes "DYLD_LIBRARY_PATH"
    ∷ codes "PATH"
    ∷ codes "IFS"
    ∷ codes "BASH_ENV"
    ∷ codes "ENV"
    ∷ codes "SHELLOPTS"
    ∷ codes "PS4"
    ∷ []

unfoldable pub is_blocked : Bytes → List Bytes → Bool
unfolding str_eq
is_blocked key [] = false
is_blocked key (v ∷ vs) = str_eq key v || is_blocked key vs

unfoldable pub is_name : Bytes → Bool
is_name [] = true
is_name (c ∷ cs) = (is_alnum c || c == b'_') && is_name cs

unfoldable pub is_safe_env_var : Option Bytes → Bool
is_safe_env_var none = false
is_safe_env_var (some []) = false
is_safe_env_var (some (c ∷ cs)) =
    if is_blocked (c ∷ cs) blocked_vars then false else is_name (c ∷ cs)

unfoldable pub all_safe : List (Option Bytes) → Bool
all_safe [] = true
all_safe (k ∷ ks) = is_safe_env_var k && all_safe ks

abbrev pub workflow_id_max_length : ℕ
workflow_id_max_length = 63

-- The entry of a new workflow: 3600 seconds of timeout and 3 retries.
unfoldable pub new_entry : Bytes → Bytes → ℕ → Entry
new_entry workflow_id script_path now = record {
  workflow_id = take 63 workflow_id;
  workflow_name = take 127 script_path;
  state = pending;
  executor_pid = 0;
  stdin_pipe = 0;
  start_time = now;
  end_time = 0;
  exit_code = 0;
  abandon_requested = false;
  current_step = 0;
  total_steps = 1;
  timeout_seconds = 3600;
  retry_count = 0;
  max_retries = 3;
  last_retry_time = 0;
}

-- The answers of the system: the allocator, the write end of the pipe, and the child's PID.
pub record System : Type 0 where
  pub stat : Bytes → Stat
  pub mem : Bool
  pub pipe : Option ℕ
  pub fork : Option ℕ
  pub now : ℕ

unfoldable pub with_process : ℕ → ℕ → Entry → Entry
with_process pid fd e = record e { executor_pid = pid; stdin_pipe = fd }

-- From the registration on.
unfoldable pub launch : Registry → System → Bytes → Registry × Code
launch r sys workflow_id = elim sys.pipe [
  | none ↦ ((remove r (some workflow_id)).0, e_system_process)
  | some fd ↦ elim sys.fork [
    | none ↦ ((update_state r (some workflow_id) failed sys.now).0, e_system_fork)
    | some pid ↦
        let r' = (update_state r (some workflow_id) running sys.now).0 in
        (
          elim (find r' workflow_id) [
            | none ↦ r'
            | some _ ↦ write r' workflow_id (with_process pid fd)
          ],
          success,
        )
  ]
]

unfoldable pub launch_if : Registry × Code → System → Bytes → Registry × Code
launch_if (r, success) sys workflow_id = launch r sys workflow_id
launch_if (r, other) sys workflow_id = (r, other)

unfoldable pub execute_bash_workflow :
    Registry → System → Option Bytes → List (Option Bytes) → Option Bytes → Registry × Code
unfolding launch_if
execute_bash_workflow r sys (some script_path) env_keys (some workflow_id) =
    if not (validate_script_path sys.stat (some script_path))
    then (r, e_invalid_params)
    else if ltb workflow_id_max_length (length workflow_id) || length workflow_id == 0
    then (r, e_invalid_params)
    else if not (all_safe env_keys)
    then (r, e_invalid_params)
    else launch_if (add r (some (new_entry workflow_id script_path sys.now)) sys.mem) sys
        workflow_id
execute_bash_workflow r sys _ env_keys _ = (r, e_input_null)
