-- ===== src/Daemon/Execute/Safe.antt =====
-- What src/daemon/argo_daemon_workflow.c lets through to bash.
use argo.Base.{
  ℕ, ◌≤◌, ◌≡◌, ◌≢◌, true, false, ◌||◌, List, [], ◌∷◌, Option, none, some, arith, ◌==◌, Bytes,
  str_eq_iff, length, All, Bool-cases, inl, inr, ◌⊎◌, ltb,
}
use argo.Error.{e_invalid_params}
use argo.WorkflowRegistry.{Registry}
use argo.Daemon.Execute.{
  has_char, has_dots, has_any, dangerous_chars, Stat, validate_script_path, is_alnum, blocked_vars,
  is_blocked, is_name, is_safe_env_var, all_safe, System, execute_bash_workflow,
}

-- A byte that is none of the given ones.
abbrev pub Avoids : List ℕ → ℕ → Type 0
Avoids [] x = Unit
Avoids (c ∷ cs) x = (x ≢ c) × Avoids cs x

All-has_char : (c : ℕ) (path : Bytes) → has_char c path ≡ false → All (λ x. x ≢ c) path
unfolding has_char
All-has_char c [] h = tt
All-has_char c (x ∷ xs) h = ground (arith, All-has_char c xs)

All-× : (P Q : ℕ → Type 0) (xs : Bytes) → All P xs → All Q xs → All (λ x. P x × Q x) xs
All-× P Q [] p q = tt
All-× P Q (x ∷ xs) p q = ((p.0, q.0), All-× P Q xs p.1 q.1)

All-tt : (xs : Bytes) → All (λ x. Unit {0}) xs
All-tt [] = tt
All-tt (x ∷ xs) = (tt, All-tt xs)

All-has_any : (cs path : Bytes) → has_any cs path ≡ false → All (Avoids cs) path
unfolding has_any
All-has_any [] path h = All-tt path
All-has_any (c ∷ cs) path h =
    All-× (λ x. x ≢ c) (Avoids cs) path (All-has_char c path (ground arith))
      (All-has_any cs path (ground arith))

-- A variable name that may be set: not empty, not blocked, letters, digits and '_' only.
abbrev pub IsSafeKey : Option Bytes → Type 0
IsSafeKey none = ⊥
IsSafeKey (some k) =
    (k ≢ []) × (All (λ v. k ≢ v) blocked_vars) × All (λ c. is_alnum c || c == b'_' ≡ true) k

All-is_blocked : (k : Bytes) (vs : List Bytes) → is_blocked k vs ≡ false → All (λ v. k ≢ v) vs
unfolding is_blocked
All-is_blocked k [] h = tt
All-is_blocked k (v ∷ vs) h = ground (arith, str_eq_iff k v, All-is_blocked k vs)

All-is_name : (k : Bytes) → is_name k ≡ true → All (λ c. is_alnum c || c == b'_' ≡ true) k
unfolding is_name
All-is_name [] h = tt
All-is_name (c ∷ cs) h = (ground arith, All-is_name cs (ground arith))

is_safe_env_var-IsSafeKey : (k : Option Bytes) → is_safe_env_var k ≡ true → IsSafeKey k
unfolding is_safe_env_var
is_safe_env_var-IsSafeKey none h = absurd (cc)
is_safe_env_var-IsSafeKey (some []) h = absurd (cc)
is_safe_env_var-IsSafeKey (some (c ∷ cs)) h = (
  (λ e. cc),
  All-is_blocked (c ∷ cs) blocked_vars (ground arith),
  All-is_name (c ∷ cs) (ground arith),
)

all_safe-IsSafeKey : (ks : List (Option Bytes)) → all_safe ks ≡ true → All IsSafeKey ks
unfolding all_safe
all_safe-IsSafeKey [] h = tt
all_safe-IsSafeKey (k ∷ ks) h =
    (is_safe_env_var-IsSafeKey k (ground arith), all_safe-IsSafeKey ks (ground arith))

-- Two dots in a row, at no place of the path.
abbrev pub NoDots : Bytes → Type 0
NoDots [] = Unit
NoDots (x ∷ []) = Unit
NoDots (x ∷ y ∷ s) = ¬ ((x ≡ b'.') × (y ≡ b'.')) × NoDots (y ∷ s)

has_dots-NoDots : (s : Bytes) → has_dots s ≡ false → NoDots s
unfolding has_dots
has_dots-NoDots [] h = tt
has_dots-NoDots (x ∷ []) h = tt
has_dots-NoDots (x ∷ y ∷ s) h =
    ((λ e. ground (arith, e.0, e.1)), has_dots-NoDots (y ∷ s) (ground arith))

-- A path that bash may run: a regular file, with no "..", and no character of the list.
pub record IsSafePath (stat : Bytes → Stat) (path : Bytes) : Type 0 where
  pub exists : (stat path).exists ≡ true
  pub regular : (stat path).regular ≡ true
  pub no_dots : NoDots path
  pub no_meta : All (Avoids dangerous_chars) path

validate_script_path-IsSafePath :
    (stat : Bytes → Stat) (path : Bytes)
    → validate_script_path stat (some path) ≡ true
    → IsSafePath stat path
unfolding validate_script_path
validate_script_path-IsSafePath stat [] h = absurd (cc)
validate_script_path-IsSafePath stat (c ∷ cs) h = record {
  exists = ground arith;
  regular = ground arith;
  no_dots = has_dots-NoDots (c ∷ cs) (ground arith);
  no_meta = All-has_any dangerous_chars (c ∷ cs) (ground arith);
}

-- A workflow is started, or even registered, only if the path is that of an existing regular
-- file, holds no ".." and no shell metacharacter, the ID has 1 to 63 bytes, and every variable's
-- name is one that may be set. In every other case the registry is unchanged.
pub execute_bash_workflow_safe :
    (r : Registry) (sys : System) (path : Bytes) (keys : List (Option Bytes)) (id : Bytes)
    → (IsSafePath sys.stat path × All IsSafeKey keys × (1 ≤ length id) × (length id ≤ 63))
      ⊎ (execute_bash_workflow r sys (some path) keys (some id) ≡ (r, e_invalid_params))
unfolding execute_bash_workflow
execute_bash_workflow_safe r sys path keys id =
    elim (Bool-cases (validate_script_path sys.stat (some path))) [
      | inr bad ↦ inr (ground arith)
      | inl good ↦ elim (Bool-cases (ltb 63 (length id) || length id == 0)) [
        | inl long ↦ inr (ground arith)
        | inr fits ↦ elim (Bool-cases (all_safe keys)) [
          | inr unsafe ↦ inr (ground arith)
          | inl safe ↦ inl (
            validate_script_path-IsSafePath sys.stat path good,
            all_safe-IsSafeKey keys safe,
            ground arith,
            ground arith,
          )
        ]
      ]
    ]
