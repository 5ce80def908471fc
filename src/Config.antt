-- ===== src/Config.antt =====
-- The configuration of src/foundation/argo_config.c: a linked list of keys and values that is filled
-- from the files of up to three directories. `none` for a string argument is a NULL pointer; a
-- stored value is `none` where the copy of a new value failed. Paths are taken to be shorter than
-- their buffers. The creation of the directories is left out.
pub mod Layered
mod Examples
use argo.Base.{
  ℕ, Bool, true, false, not, ◌||◌, ◌&&◌, List, [], ◌∷◌, ◌++◌, Option, none, some, ◌==◌,
  if◌then◌else◌, Bytes, codes, str_eq,
}
use argo.Base.Nodes.{find_node, modify_node}
use argo.CString.{trim, fgets_lines}
use argo.Env.Lines.{parse_pair}
use argo.Env.Load.{File, in_dir}
use argo.Error.{Code, success, e_system_memory}

pub record Entry : Type 0 where
  pub key : Bytes
  pub value : Option Bytes

pub record Config : Type 0 where
  pub head : List Entry
  pub initialized : Bool

abbrev pub key_of : Entry → Bytes
key_of e = e.key

unfoldable pub find_config_entry : List Entry → Bytes → Option Entry
unfolding find_node
find_config_entry head key = find_node key_of key head

-- A trimmed line: blank lines and comments are skipped; else the '=' cuts it.
unfoldable pub parse_trimmed : Bytes → Option (Bytes × Bytes)
unfolding parse_pair
parse_trimmed [] = none
parse_trimmed (c ∷ s) = if c == b'#' then none else parse_pair (c ∷ s)

unfoldable pub parse_config_line : Bytes → Bool → Option (Bytes × Bytes) × Code
unfolding parse_trimmed trim
parse_config_line line mem =
    if mem then (parse_trimmed (trim line), success) else (none, e_system_memory)

unfoldable pub with_value : Option Bytes → Entry → Entry
with_value v e = record e { value = v }

-- `mem` is the allocator's answer for the copies, and for the new entry.
unfoldable pub set_config_internal : List Entry → Bytes → Bytes → Bool → List Entry
unfolding find_config_entry modify_node with_value
set_config_internal head key value mem = elim (find_config_entry head key) [
  | some _ ↦ modify_node key_of key (with_value (if mem then some value else none)) head
  | none ↦ if mem then record { key = key; value = some value } ∷ head else head
]

-- The allocator's answers for a line that is parsed and for a key that is set.
pub record Memory : Type 0 where
  pub line : Bytes → Bool
  pub entry : Bytes → Bool

unfoldable pub load_line : Memory → Bytes → List Entry → List Entry
unfolding parse_config_line set_config_internal
load_line mem line head = elim (parse_config_line line (mem.line line)).0 [
  | none ↦ head
  | some (key, value) ↦ set_config_internal head key value (mem.entry key)
]

unfoldable pub load_lines : Memory → List Bytes → List Entry → List Entry
unfolding load_line
load_lines mem [] head = head
load_lines mem (line ∷ lines) head = load_lines mem lines (load_line mem line head)

-- A file that cannot be opened is skipped, and an error while it is read is only logged.
unfoldable pub load_config_file : Memory → Option File → List Entry → List Entry
unfolding load_lines fgets_lines
load_config_file mem none head = head
load_config_file mem (some f) head = load_lines mem (fgets_lines 4096 f.content) head

-- What the system answers: the home directory, the root of the project as `argo_getenv` gives it,
-- the names in a directory in the order of readdir, whether a path is a regular file, and files.
pub record World : Type 0 where
  pub home : Option Bytes
  pub root : Option Bytes
  pub dir : Bytes → Option (List Bytes)
  pub regular : Bytes → Bool
  pub file : Bytes → Option File

abbrev pub is_dots : Bytes → Bool
is_dots name = str_eq name (codes ".") || str_eq name (codes "..")

-- The loop over the names of a directory.
unfoldable pub load_names : Memory → World → Bytes → List Bytes → List Entry → List Entry
unfolding load_config_file str_eq
load_names mem w dir [] head = head
load_names mem w dir (name ∷ names) head = load_names mem w dir names (
    if not (is_dots name) && w.regular (in_dir dir name)
    then load_config_file mem (w.file (in_dir dir name)) head
    else head)

unfoldable pub load_config_directory : Memory → World → Bytes → List Entry → List Entry
unfolding load_names
load_config_directory mem w dir head = elim (w.dir dir) [
  | none ↦ head
  | some names ↦ load_names mem w dir names head
]

-- The directories, in the order in which they are loaded.
unfoldable pub config_dirs : World → List Bytes
config_dirs w =
    elim w.home [ none ↦ [] | some home ↦ (home ++ codes "/.argo/config") ∷ [] ] ++ elim w.root [
      | none ↦ []
      | some [] ↦ []
      | some (c ∷ root) ↦
          ((c ∷ root) ++ codes "/.argo/config") ∷ ((c ∷ root) ++ codes "/workflows/config") ∷ []
    ]

unfoldable pub load_dirs : Memory → World → List Bytes → List Entry → List Entry
unfolding load_config_directory
load_dirs mem w [] head = head
load_dirs mem w (dir ∷ dirs) head = load_dirs mem w dirs (load_config_directory mem w dir head)

unfoldable pub argo_config : Memory → World → Config → Config × Code
unfolding load_dirs config_dirs
argo_config mem w c =
    if c.initialized
    then (c, success)
    else (record { head = load_dirs mem w (config_dirs w) c.head; initialized = true }, success)

unfoldable pub argo_config_get : Config → Option Bytes → Option Bytes
unfolding find_config_entry
argo_config_get c none = none
argo_config_get c (some key) = elim (find_config_entry c.head key) [
  | none ↦ none
  | some e ↦ e.value
]

unfoldable pub argo_config_cleanup : Config → Config
argo_config_cleanup c = if c.initialized then record { head = []; initialized = false } else c

unfoldable pub argo_config_reload : Memory → World → Config → Config × Code
unfolding argo_config
argo_config_reload mem w c = argo_config mem w (record { head = []; initialized = false })
