-- ===== src/IsolatedEnv/Child.antt =====
-- What a child process finds in its environment (src/foundation/argo_env.c).
use argo.Base.{
  ℕ, suc, ◌≡◌, refl, ◌∙◌, ap, sym, Bool, true, false, List, [], ◌∷◌, Option, none, some, arith,
  if◌then◌else◌, Bytes, length, All, str_eq, str_eq_iff, Option-cases, inl, inr,
}
use argo.Base.Nodes.{find_node, modify_node, find-modify, length-modify}
use argo.CString.Layers.{assigned}
use argo.Env.{entry_of, find_entry, lookup_value}
use argo.Env.Store.{IsName, is_entry-entry_of, value_of-entry_of}
use argo.Error.{success}
use argo.IsolatedEnv.{
  Variable, IsolatedEnv, key_of, with_value, set_key, argo_env_set, argo_env_get, texts,
  argo_env_to_envp, argo_env_size, argo_spawn_with_env,
}

abbrev pub HasName : Variable → Type 0
HasName v = IsName v.key

-- The count is that of the list, and no key holds a '='.
pub record IsValid (env : IsolatedEnv) : Type 0 where
  pub counted : env.count ≡ length env.head
  pub named : All HasName env.head

modify-names :
    (k v : Bytes) (vs : List Variable)
    → All HasName vs
    → All HasName (modify_node key_of k (with_value v) vs)
unfolding modify_node with_value
modify-names k v [] h = tt
modify-names k v (x ∷ vs) h = ground (arith, modify-names k v vs)

pub set_key-IsValid :
    (env : IsolatedEnv) (k v : Bytes) (mem : Bool)
    → IsName k
    → IsValid env
    → IsValid (set_key env k v mem).0
unfolding set_key
set_key-IsValid env k v false hk h = h
set_key-IsValid env k v true hk h = elim (Option-cases (find_node key_of k env.head)) [
  | inl new ↦
      rw (new, set_key) (record { counted = omega (arith, h.counted); named = (hk, h.named) })
  | inr (x, at) ↦
      rw (at, set_key)
        (record {
          counted = omega (arith, h.counted, length-modify key_of k (with_value v) env.head);
          named = modify-names k v env.head h.named;
        })
]

get-set_key :
    (env : IsolatedEnv) (k v j : Bytes)
    → argo_env_get (set_key env k v true).0 (some j)
      ≡ (if str_eq k j then some v else argo_env_get env (some j))
unfolding set_key argo_env_get find_node with_value
get-set_key env k v j = elim (Option-cases (find_node key_of k env.head)) [
  | inl new ↦ rw (new, set_key) (ground arith)
  | inr (x, at) ↦
      rw (at, set_key)
        (ground (
          arith,
          str_eq_iff k j,
          find-modify key_of k j (with_value v) env.head (λ x. refl),
          ap (λ (b : Bytes). find_node key_of b env.head) {x = k} {y = j},
        ))
]

abbrev all_given : Variable → Bool
all_given v = true

-- The texts, one for each variable, in which a name stands for what the list holds.
texts_lem :
    (vs : List Variable) (j : Bytes)
    → All HasName vs
    → IsName j
    → (es : List Bytes) × (texts all_given vs ≡ some es)
      × (length es ≡ length vs)
      × (lookup_value j es ≡ elim (find_node key_of j vs) [ none ↦ none | some v ↦ some v.value ])
unfolding texts lookup_value find_entry find_node
texts_lem [] j h hj = ([], refl, refl, refl)
texts_lem (v ∷ vs) j h hj =
    let (es, made, many, same) = texts_lem vs j h.1 hj in
    (
      entry_of v.key v.value ∷ es,
      rw (made, texts),
      ap suc many,
      ground (
        arith,
        is_entry-entry_of j v.key v.value hj h.0,
        value_of-entry_of v.key v.value h.0,
        same,
      ),
    )

-- The variables that are set one after another.
unfoldable pub set_all : List (Bytes × Bytes) → IsolatedEnv → IsolatedEnv
unfolding argo_env_set
set_all [] env = env
set_all ((k, v) ∷ kvs) env = set_all kvs (argo_env_set env (some k) (some v) true).0

-- The last value that a name is given.
unfoldable pub last_set : Bytes → List (Bytes × Bytes) → Option Bytes → Option Bytes
last_set j [] old = old
last_set j (kv ∷ kvs) old = last_set j kvs (assigned (some kv) j old)

abbrev pub IsNamed : Bytes × Bytes → Type 0
IsNamed kv = IsName kv.0

set_all-IsValid :
    (kvs : List (Bytes × Bytes)) (env : IsolatedEnv)
    → All IsNamed kvs
    → IsValid env
    → IsValid (set_all kvs env)
unfolding set_all argo_env_set
set_all-IsValid [] env h v = v
set_all-IsValid ((k, x) ∷ kvs) env h v =
    set_all-IsValid kvs (set_key env k x true).0 h.1 (set_key-IsValid env k x true h.0 v)

get-set_all :
    (kvs : List (Bytes × Bytes)) (env : IsolatedEnv) (j : Bytes)
    → argo_env_get (set_all kvs env) (some j) ≡ last_set j kvs (argo_env_get env (some j))
unfolding set_all last_set argo_env_set
get-set_all [] env j = refl
get-set_all ((k, x) ∷ kvs) env j =
    get-set_all kvs (set_key env k x true).0 j ∙ ap (last_set j kvs) (get-set_key env k x j)

-- A child that is started after some variables were set in a valid environment gets one text for
-- each variable that the environment counts, and finds each name with the last value that it was
-- set to, or else with the one that the environment had; memory and the fork are given, and neither
-- the names nor the environment's keys hold a '='.
pub argo_spawn_with_env_lem :
    (kvs : List (Bytes × Bytes)) (env : IsolatedEnv) (j : Bytes) (pid : ℕ)
    → All IsNamed kvs
    → IsName j
    → IsValid env
    → (envp : List Bytes) × (argo_spawn_with_env true
          (some (set_all kvs env))
          true
          (λ v. true)
          (some pid)
        ≡ (some (record { envp = envp; pid = pid }), success))
      × (length envp ≡ argo_env_size (some (set_all kvs env)))
      × (lookup_value j envp ≡ last_set j kvs (argo_env_get env (some j)))
unfolding argo_spawn_with_env argo_env_to_envp argo_env_get argo_env_size
argo_spawn_with_env_lem kvs env j pid named hj h =
    let valid = set_all-IsValid kvs env named h in
    let (envp, made, many, same) = texts_lem (set_all kvs env).head j valid.named hj in
    (
      envp,
      rw (made, argo_spawn_with_env) refl,
      many ∙ sym valid.counted,
      same ∙ get-set_all kvs env j,
    )
