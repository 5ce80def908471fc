-- ===== src/Env/Examples.antt =====
-- Environments and files of src/foundation/argo_env_load.c at concrete texts.
use argo.Base.{
  ◌≡◌, ◌≤◌, refl, arith, true, false, List, [], ◌∷◌, ◌++◌, none, some, Bytes, codes, str_eq,
  if◌then◌else◌, inl, length,
}
use argo.Error.{Code, success}
use argo.Env.{Env, is_entry, set_env_internal, lookup_value}
use argo.Env.Store.{IsValid, set_env_internal-IsValid}
use argo.Env.Refinement.{Op, set_op, step, outcome, cleared-IsValid, env_step_refines}
use argo.Env.Lines.{export_prefix, parse_env_line}
use argo.Env.Parse.{assignment, parse_env_line-quoted}
use argo.CString.Laws.{quoted}
use argo.Env.Expand.{line_max, expand_loop, expand_value}
use argo.Env.Expansion.{expand_value_lem}
use argo.Env.Load.{File, load_line, World, load_optional_home_env, load_project_and_local_files}
use argo.Env.Load.Files.{all_given, last_value, layers, load_files_lem}

abbrev blank : Env
blank = record {
  entries = [];
  capacity = 256;
  allocated = true;
  initialized = true;
  faulted = false;
}

abbrev blank_used : Env
blank_used = record blank { entries = codes "X=0" ∷ [] }

abbrev root_set : Env
root_set = (set_env_internal blank (codes "ARGO_ROOT") (codes "/r") true true).0

blank-IsValid : IsValid blank
blank-IsValid = cleared-IsValid blank_used refl refl

root_set-IsValid : IsValid root_set
root_set-IsValid =
    set_env_internal-IsValid blank (codes "ARGO_ROOT") (codes "/r") true true (ground arith)
      blank-IsValid

abbrev set_port : Op
set_port = set_op (some (codes "PORT")) (some (codes "80")) true true true

env_step_refines_example :
    (lookup_value (codes "PORT") (step root_set set_port).0.entries
      ≡ outcome
          (λ k. lookup_value k root_set.entries)
          set_port
          (step root_set set_port).1
          (codes "PORT"))
    × IsValid (step root_set set_port).0
env_step_refines_example =
    env_step_refines root_set set_port (codes "PORT") root_set-IsValid (ground arith) (ground arith)

parse_env_line-quoted_example :
    (parse_env_line
        (codes "  " ++ (assignment (codes "KEY") (codes " ") (quoted 34 (codes "a = b ")) ++ []))
        true
      ≡ (some (codes "KEY", codes "a = b "), success))
    × (parse_env_line
          (codes "  "
            ++ ((export_prefix ++ assignment (codes "KEY") (codes " ") (quoted 34 (codes "a = b ")))
                ++ []))
          true
        ≡ (some (codes "KEY", codes "a = b "), success))
parse_env_line-quoted_example =
    parse_env_line-quoted (codes "  ") (codes "KEY") (codes " ") (codes "a = b ") [] 34
      (ground arith) (ground arith) tt (ground arith) (inl refl)

-- A variable that refers to itself.
abbrev loop_entries : List Bytes
loop_entries = codes "A=x${A}" ∷ []

expand_value_lem_example :
    (length (expand_value 3 loop_entries (codes "${A}!")) ≤ line_max)
    × (expand_loop (expand_value 2 loop_entries) loop_entries 9 (codes "${A}!") []
        ≡ expand_value 3 loop_entries (codes "${A}!"))
expand_value_lem_example = expand_value_lem 2 loop_entries (codes "${A}!") 9 (omega arith)

abbrev home_env : File
home_env = record { content = codes "PORT=1\n"; failed = false }

abbrev project : File
project = record { content = codes "PORT=2\n"; failed = false }

abbrev world : World
world = record {
  environ = [];
  home = some (codes "/h");
  cwd = none;
  file = λ p.
      if str_eq p (codes "/h/.env")
      then some home_env
      else if str_eq p (codes "/r/.env.argo")
      then some project
      else none;
  exists = λ p. false;
  paths = true;
  array = true;
}

abbrev loaded : Env × Code
loaded =
    load_project_and_local_files all_given world (load_optional_home_env all_given world root_set)

load_files_lem_example :
    (loaded.1 ≡ success)
    × (lookup_value (codes "PORT") loaded.0.entries
        ≡ last_value
            (codes "PORT")
            (layers world (codes "/r") project)
            (lookup_value (codes "PORT") root_set.entries))
    × IsValid loaded.0
unfolding load_optional_home_env lookup_value set_env_internal str_eq load_line is_entry
load_files_lem_example =
    load_files_lem root_set world b'/' (codes "r") project (codes "PORT") root_set-IsValid
      (ground arith) refl refl refl refl
