-- ===== src/Config/Examples.antt =====
-- Configurations of src/foundation/argo_config.c at concrete files.
use argo.Base.{◌≡◌, refl, true, false, [], ◌∷◌, none, some, codes, str_eq, if◌then◌else◌}
use argo.CString.Layers.{last_of}
use argo.Env.Load.{File}
use argo.Error.{success}
use argo.Config.{Config, World, argo_config, argo_config_get, argo_config_reload, config_dirs}
use argo.Config.Layered.{all_given, config_pair, lines_of_dirs, argo_config_lem}

abbrev home_file : File
home_file = record { content = codes "# ports\nport = 9876\nlog=debug\n"; failed = false }

abbrev root_file : File
root_file = record { content = codes "port=\"8000\"\n"; failed = false }

abbrev world : World
world = record {
  home = some (codes "/h");
  root = some (codes "/r");
  dir = λ d.
      if str_eq d (codes "/r/workflows/config") then none else some (codes ".." ∷ codes "a" ∷ []);
  regular = λ p. true;
  file = λ p. some (if str_eq p (codes "/h/.argo/config/a") then home_file else root_file);
}

abbrev empty : Config
empty = record { head = []; initialized = false }

argo_config_lem_example :
    (false ≡ false
      → ((argo_config all_given world empty).1 ≡ success)
        × (argo_config_get (argo_config all_given world empty).0 (some (codes "port"))
            ≡ last_of config_pair
                (codes "port")
                (lines_of_dirs world (config_dirs world))
                (argo_config_get empty (some (codes "port")))))
    × ((argo_config_reload all_given world empty).1 ≡ success)
    × (argo_config_get (argo_config_reload all_given world empty).0 (some (codes "port"))
        ≡ last_of config_pair (codes "port") (lines_of_dirs world (config_dirs world)) none)
argo_config_lem_example = argo_config_lem world empty (codes "port")

-- The file of the root directory is read after the one of the home directory.
port_of_root :
    argo_config_get (argo_config_reload all_given world empty).0 (some (codes "port"))
    ≡ some (codes "8000")
unfolding argo_config_get argo_config_reload
port_of_root = refl

log_of_home :
    argo_config_get (argo_config_reload all_given world empty).0 (some (codes "log"))
    ≡ some (codes "debug")
unfolding argo_config_get argo_config_reload
log_of_home = refl
