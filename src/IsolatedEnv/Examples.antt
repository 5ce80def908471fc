-- ===== src/IsolatedEnv/Examples.antt =====
-- The environment of a child process, for src/foundation/argo_env.c.
use argo.Base.{◌≡◌, refl, arith, true, false, List, [], ◌∷◌, some, Bytes, codes, length}
use argo.Env.{lookup_value}
use argo.Error.{success, e_system_memory}
use argo.IsolatedEnv.{IsolatedEnv, argo_env_get, argo_env_set, argo_env_size, argo_spawn_with_env}
use argo.IsolatedEnv.Child.{IsValid, set_all, last_set, argo_spawn_with_env_lem}

abbrev one_key : IsolatedEnv
one_key = record { head = record { key = codes "CI"; value = codes "a" } ∷ []; count = 1 }

one_key-IsValid : IsValid one_key
one_key-IsValid = record { counted = refl; named = (ground arith, tt) }

abbrev sets : List (Bytes × Bytes)
sets = (codes "X", codes "1") ∷ (codes "CI", codes "b=c") ∷ []

argo_spawn_with_env_lem_example :
    (envp : List Bytes) × (argo_spawn_with_env true
        (some (set_all sets one_key))
        true
        (λ v. true)
        (some 7)
      ≡ (some (record { envp = envp; pid = 7 }), success))
    × (length envp ≡ argo_env_size (some (set_all sets one_key)))
    × (lookup_value (codes "CI") envp
        ≡ last_set (codes "CI") sets (argo_env_get one_key (some (codes "CI"))))
argo_spawn_with_env_lem_example =
    argo_spawn_with_env_lem sets one_key (codes "CI") 7 (ground arith) (ground arith)
      one_key-IsValid

denied : argo_env_set one_key (some (codes "X")) (some []) false ≡ (one_key, e_system_memory)
unfolding argo_env_set
denied = refl
