-- ===== src/IsolatedEnv.antt =====
-- The environments for child processes of src/foundation/argo_env.c: a linked list of keys and values
-- with a count. `none` for a string argument is a NULL pointer, and a Boolean argument is the answer
-- of the allocator. The child's own side of a fork is left out.
pub mod Child
mod Examples
use mathlib.Core.Option
use argo.Base.{ℕ, ◌+◌, Bool, true, false, List, [], ◌∷◌, Option, none, some, if◌then◌else◌, Bytes}
use argo.Base.Nodes.{find_node, modify_node}
use argo.Env.{entry_of}
use argo.Error.{Code, success, e_system_memory, e_system_process, e_input_null}

pub record Variable : Type 0 where
  pub key : Bytes
  pub value : Bytes

pub record IsolatedEnv : Type 0 where
  pub head : List Variable
  pub count : ℕ

abbrev pub key_of : Variable → Bytes
key_of v = v.key

unfoldable pub argo_env_create : Bool → Option IsolatedEnv
argo_env_create mem = if mem then some (record { head = []; count = 0 }) else none

unfoldable pub with_value : Bytes → Variable → Variable
with_value value v = record v { value = value }

-- A key that is there gets the new value, another goes to the head of the list.
unfoldable pub set_key : IsolatedEnv → Bytes → Bytes → Bool → IsolatedEnv × Code
unfolding find_node modify_node with_value
set_key env key value false = (env, e_system_memory)
set_key env key value true = elim (find_node key_of key env.head) [
  | some _ ↦ (record env { head = modify_node key_of key (with_value value) env.head }, success)
  | none ↦ (
    record { head = record { key = key; value = value } ∷ env.head; count = env.count + 1 },
    success,
  )
]

unfoldable pub argo_env_set : IsolatedEnv → Option Bytes → Option Bytes → Bool → IsolatedEnv × Code
unfolding set_key
argo_env_set env (some key) (some value) mem = set_key env key value mem
argo_env_set env _ _ mem = (env, e_input_null)

unfoldable pub argo_env_get : IsolatedEnv → Option Bytes → Option Bytes
unfolding find_node
argo_env_get env none = none
argo_env_get env (some key) = elim (find_node key_of key env.head) [
  | none ↦ none
  | some v ↦ some v.value
]

-- The texts KEY=VALUE of the list; `mem` answers for each.
unfoldable pub texts : (Variable → Bool) → List Variable → Option (List Bytes)
texts mem [] = some []
texts mem (v ∷ vs) = elim (mem v) [
  | false ↦ none
  | true ↦ Option.map (λ es. entry_of v.key v.value ∷ es) (texts mem vs)
]

-- The array without the NULL at its end.
unfoldable pub argo_env_to_envp : IsolatedEnv → Bool → (Variable → Bool) → Option (List Bytes)
unfolding texts
argo_env_to_envp env array mem = if array then texts mem env.head else none

unfoldable pub argo_env_size : Option IsolatedEnv → ℕ
argo_env_size none = 0
argo_env_size (some env) = env.count

-- The environment that a child is started with, and its PID.
pub record Spawned : Type 0 where
  pub envp : List Bytes
  pub pid : ℕ

abbrev pub forked : List Bytes → Option ℕ → Option Spawned × Code
forked envp none = (none, e_system_process)
forked envp (some pid) = (some (record { envp = envp; pid = pid }), success)

-- `given` tells that no pointer is NULL but perhaps that of the environment; `fork` is the answer of
-- the kernel. Without an environment the child gets an empty one.
unfoldable pub argo_spawn_with_env :
    Bool → Option IsolatedEnv → Bool → (Variable → Bool) → Option ℕ → Option Spawned × Code
unfolding argo_env_to_envp
argo_spawn_with_env false env array mem fork = (none, e_input_null)
argo_spawn_with_env true none array mem fork = forked [] fork
argo_spawn_with_env true (some env) array mem fork = elim (argo_env_to_envp env array mem) [
  | none ↦ (none, e_system_memory)
  | some envp ↦ forked envp fork
]
