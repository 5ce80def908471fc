-- ===== src/Env/Load.antt =====
-- Loading the environment in src/foundation/argo_env_load.c: the system's variables, the files of the
-- home directory, and those of the project. Paths are taken to be shorter than PATH_MAX.
pub mod Files
pub mod Search
use argo.Base.{
  ℕ, zero, suc, Bool, true, false, not, List, [], ◌∷◌, ◌++◌, Option, none, some, ◌==◌,
  if◌then◌else◌, Bytes, codes, length,
}
use argo.CString.{cut, fgets_lines}
use argo.Env.{Env, initial_capacity, unloaded, find_entry, lookup_value, set_env_internal}
use argo.Env.Lines.{parse_env_line}
use argo.Env.Expand.{expand_from}
use argo.Error.{Code, success, e_system_memory, e_system_process, e_system_file, e_system_io}

-- The allocator's answers for the text of a line, for the entry of a name, and for the array.
pub record Memory : Type 0 where
  pub line : Bytes → Bool
  pub entry : Bytes → Bool
  pub table : Bytes → Bool

-- A file that can be opened, and whether reading it ends in an error.
pub record File : Type 0 where
  pub content : Bytes
  pub failed : Bool

unfoldable pub load_line : Memory → Bytes → Env → Env
unfolding parse_env_line
load_line mem line env = elim (parse_env_line line (mem.line line)).0 [
  | none ↦ env
  | some (key, value) ↦ (set_env_internal env key value (mem.entry key) (mem.table key)).0
]

unfoldable pub load_lines : Memory → List Bytes → Env → Env
load_lines mem [] env = env
load_lines mem (line ∷ lines) env = load_lines mem lines (load_line mem line env)

unfoldable pub load_env_file : Memory → Option File → Bool → Env → Env × Code
unfolding load_lines fgets_lines
load_env_file mem none required env = (env, if required then e_system_file else success)
load_env_file mem (some f) required env =
    (load_lines mem (fgets_lines 4096 f.content) env, if f.failed then e_system_io else success)

unfoldable pub load_system_environ : Memory → List Bytes → Env → Env × Code
unfolding cut set_env_internal
load_system_environ mem [] env = (env, success)
load_system_environ mem (e ∷ es) env = elim (cut b'=' e) [
  | none ↦ load_system_environ mem es env
  | some (name, value) ↦ elim (mem.line e) [
    | false ↦ (env, e_system_memory)
    | true ↦
        let r = set_env_internal env name value (mem.entry name) (mem.table name) in
        elim r.1 [ success ↦ load_system_environ mem es r.0 | other ↦ (r.0, other) ]
  ]
]

-- What the system answers: the variables of the process, the home directory, the working
-- directory, the files that can be opened, those that access finds, and malloc for the paths and
-- for the array.
pub record World : Type 0 where
  pub environ : List Bytes
  pub home : Option Bytes
  pub cwd : Option Bytes
  pub file : Bytes → Option File
  pub exists : Bytes → Bool
  pub paths : Bool
  pub array : Bool

abbrev pub in_dir : Bytes → Bytes → Bytes
in_dir dir name = dir ++ b'/' ∷ name

unfoldable pub load_optional_home_env : Memory → World → Env → Env
unfolding load_env_file
load_optional_home_env mem w env = elim w.home [
  | none ↦ env
  | some home ↦
      let env' = (load_env_file mem (w.file (in_dir home (codes ".env"))) false env).0 in
      (load_env_file mem (w.file (in_dir home (codes ".argorc"))) false env').0
]

-- What stands before the last '/'.
unfoldable pub before_slash : Bytes → Option Bytes
before_slash [] = none
before_slash (c ∷ s) = elim (before_slash s) [
  | some p ↦ some (c ∷ p)
  | none ↦ if c == b'/' then some [] else none
]

-- The directory above; none where the last '/' is the first byte.
unfoldable pub parent_dir : Bytes → Option Bytes
unfolding before_slash
parent_dir dir = elim (before_slash dir) [
  | none ↦ none
  | some [] ↦ none
  | some (c ∷ p) ↦ some (c ∷ p)
]

abbrev pub project_file : Bytes
project_file = codes ".env.argo"

abbrev pub local_file : Bytes
local_file = codes ".env.argo.local"

-- The directory that holds the project's file, upwards from a directory. Each round makes the path
-- shorter, so its length is fuel enough.
unfoldable pub search_up : ℕ → World → Bytes → Option Bytes
unfolding parent_dir
search_up zero w dir = none
search_up (suc fuel) w dir = elim (w.exists (in_dir dir project_file)) [
  | true ↦ some (in_dir dir project_file)
  | false ↦ elim (parent_dir dir) [ none ↦ none | some up ↦ search_up fuel w up ]
]

unfoldable pub find_env_argo_file : World → Option Bytes
unfolding search_up
find_env_argo_file w = elim w.cwd [ none ↦ none | some dir ↦ search_up (suc (length dir)) w dir ]

abbrev pub root_var : Bytes
root_var = codes "ARGO_ROOT"

-- The project's file must be there, the local one need not.
unfoldable pub load_two : Memory → World → Bytes → Bytes → Env → Env × Code
unfolding load_env_file
load_two mem w project local env =
    let r = load_env_file mem (w.file project) true env in
    elim r.1 [ success ↦ ((load_env_file mem (w.file local) false r.0).0, success) | other ↦ r ]

-- Without a root the project is searched for, and its directory becomes the root.
unfoldable pub load_found : Memory → World → Env → Env × Code
unfolding find_env_argo_file before_slash load_two
load_found mem w env = elim (find_env_argo_file w) [
  | none ↦ (env, e_system_file)
  | some path ↦ elim (before_slash path) [
    | none ↦ load_two mem w path [] env
    | some dir ↦
        let env' =
          (set_env_internal env root_var dir (mem.entry root_var) (mem.table root_var)).0 in
        load_two mem w path (in_dir dir local_file) env'
  ]
]

unfoldable pub load_project_and_local_files : Memory → World → Env → Env × Code
unfolding load_found load_two lookup_value
load_project_and_local_files mem w env =
    if not w.paths then (env, e_system_memory) else elim (lookup_value root_var env.entries) [
      | none ↦ load_found mem w env
      | some [] ↦ load_found mem w env
      | some (c ∷ root) ↦
          load_two mem w (in_dir (c ∷ root) project_file) (in_dir (c ∷ root) local_file) env
    ]

-- A step that is taken after a successful one.
abbrev pub then_if : Env × Code → (Env → Env × Code) → Env × Code
then_if (env, success) next = next env
then_if (env, other) next = (env, other)

unfoldable pub expand_all_variables : Memory → Env → Env × Code
unfolding expand_from
expand_all_variables mem env =
    let r = expand_from mem.entry [] env.entries in (record env { entries = r.0 }, r.1)

-- The array of a first load.
unfoldable pub prepare : World → Env → Env × Code
prepare w env =
    let env' = if env.initialized then record env { entries = [] } else env in
    if env.allocated
    then (env', success)
    else if w.array
    then (record env' { capacity = initial_capacity; allocated = true }, success)
    else (record env' { capacity = initial_capacity }, e_system_memory)

unfoldable pub argo_loadenv : Memory → World → Env → Bool → Env × Code
unfolding prepare load_system_environ load_optional_home_env load_project_and_local_files
    expand_all_variables
argo_loadenv mem w env locked =
    if not locked
    then (env, e_system_process)
    else then_if (prepare w env) λ env1. then_if (load_system_environ mem w.environ env1) λ env2.
      then_if (load_project_and_local_files mem w (load_optional_home_env mem w env2)) λ env3.
        then_if (expand_all_variables mem env3)
          λ env4. (record env4 { initialized = true }, success)
