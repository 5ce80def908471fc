-- ===== src/Env/Store.antt =====
-- The environment of src/foundation/argo_env_utils.c as a map from names to values.
use argo.Base.{
  false, ◌||◌, ◌==◌, ℕ, ◌+◌, ◌≤◌, ◌≡◌, refl, ap, Bool, true, List, [], ◌∷◌, ◌++◌, none, some, arith,
  if◌then◌else◌, Bytes, length, str_eq, str_eq_iff, Option-cases, inl, inr, length-append, ◌⊎◌,
}
use argo.CString.Laws.{Lacks, cut-append}
use argo.Json.{strip}
use argo.Error.{success, e_system_memory}
use argo.Env.{
  Env, is_entry, find_entry, replace_entry, remove_entry, value_of, lookup_value, entry_of,
  set_env_internal,
}

-- A name as the callers use it: it holds no '='.
abbrev pub IsName : Bytes → Type 0
IsName = Lacks b'='

-- The entry of one name is the entry of no other.
pub is_entry-entry_of :
    (j name v : Bytes) → IsName j → IsName name → is_entry j (entry_of name v) ≡ str_eq name j
unfolding is_entry str_eq strip
is_entry-entry_of [] [] v hj hn = refl
is_entry-entry_of [] (y ∷ name) v hj hn = ground arith
is_entry-entry_of (x ∷ j) [] v hj hn = ground arith
is_entry-entry_of (x ∷ j) (y ∷ name) v hj hn = ground (arith, is_entry-entry_of j name v hj.1 hn.1)

is_entry_unique :
    (j name e : Bytes)
    → IsName j
    → IsName name
    → is_entry name e ≡ true
    → is_entry j e ≡ str_eq name j
unfolding is_entry str_eq strip
is_entry_unique [] [] e hj hn h = h
is_entry_unique (x ∷ j) [] [] hj hn h = absurd (ground arith)
is_entry_unique (x ∷ j) [] (c ∷ e) hj hn h = ground arith
is_entry_unique j (y ∷ name) [] hj hn h = absurd (ground arith)
is_entry_unique [] (y ∷ name) (c ∷ e) hj hn h = ground arith
is_entry_unique (x ∷ j) (y ∷ name) (c ∷ e) hj hn h =
    ground (arith, is_entry_unique j name e hj.1 hn.1)

pub value_of-entry_of : (name v : Bytes) → IsName name → value_of (entry_of name v) ≡ some v
unfolding value_of
value_of-entry_of name v h = rw (cut-append b'=' name v h, value_of)

lookup-replace :
    (name v j : Bytes) (es : List Bytes) {e : Bytes}
    → IsName name
    → IsName j
    → find_entry name es ≡ some e
    → lookup_value j (replace_entry name (entry_of name v) es)
      ≡ (if str_eq name j then some v else lookup_value j es)
unfolding lookup_value find_entry replace_entry
lookup-replace name v j [] hn hj h = absurd (cc)
lookup-replace name v j (x ∷ es) {e} hn hj h = ground (
  arith,
  is_entry-entry_of j name v hj hn,
  value_of-entry_of name v hn,
  is_entry_unique j name x hj hn,
  str_eq_iff name j,
  lookup-replace name v j es {e = e} hn hj,
)

lookup-append :
    (name v j : Bytes) (es : List Bytes)
    → IsName name
    → IsName j
    → find_entry name es ≡ none
    → lookup_value j (es ++ entry_of name v ∷ [])
      ≡ (if str_eq name j then some v else lookup_value j es)
unfolding lookup_value find_entry
lookup-append name v j [] hn hj h =
    ground (arith, is_entry-entry_of j name v hj hn, value_of-entry_of name v hn)
lookup-append name v j (x ∷ es) hn hj h = ground (
  arith,
  is_entry_unique j name x hj hn,
  str_eq_iff name j,
  ap (λ (b : Bytes). is_entry b x) {x = name} {y = j},
  lookup-append name v j es hn hj,
)

-- How many entries a name has.
unfoldable pub count_entries : Bytes → List Bytes → ℕ
count_entries name [] = 0
count_entries name (e ∷ es) = (if is_entry name e then 1 else 0) + count_entries name es

count_entries-none :
    (name : Bytes) (es : List Bytes) → find_entry name es ≡ none → count_entries name es ≡ 0
unfolding find_entry count_entries
count_entries-none name [] h = refl
count_entries-none name (e ∷ es) h = ground (arith, count_entries-none name es)

find_entry-none :
    (name : Bytes) (es : List Bytes) → count_entries name es ≡ 0 → find_entry name es ≡ none
unfolding find_entry count_entries
find_entry-none name [] h = refl
find_entry-none name (e ∷ es) h = ground (arith, find_entry-none name es)

count_entries-replace :
    (name v j : Bytes) (es : List Bytes)
    → IsName name
    → IsName j
    → count_entries j (replace_entry name (entry_of name v) es) ≡ count_entries j es
unfolding count_entries replace_entry
count_entries-replace name v j [] hn hj = refl
count_entries-replace name v j (e ∷ es) hn hj = ground (
  arith,
  is_entry-entry_of j name v hj hn,
  is_entry_unique j name e hj hn,
  count_entries-replace name v j es hn hj,
)

count_entries-append :
    (j e : Bytes) (es : List Bytes)
    → count_entries j (es ++ e ∷ []) ≡ count_entries j es + (if is_entry j e then 1 else 0)
unfolding count_entries
count_entries-append j e [] = ground arith
count_entries-append j e (x ∷ es) = omega (arith, count_entries-append j e es)

pub count_entries-remove-le :
    (j name : Bytes) (es : List Bytes) → count_entries j (remove_entry name es) ≤ count_entries j es
unfolding count_entries remove_entry
count_entries-remove-le j name [] = omega arith
count_entries-remove-le j name (e ∷ es) = ground (arith, count_entries-remove-le j name es)

length-replace :
    (name new : Bytes) (es : List Bytes) → length (replace_entry name new es) ≡ length es
unfolding replace_entry
length-replace name new [] = refl
length-replace name new (e ∷ es) = ground (arith, length-replace name new es)

pub length-remove-le : (name : Bytes) (es : List Bytes) → length (remove_entry name es) ≤ length es
unfolding remove_entry
length-remove-le name [] = omega arith
length-remove-le name (e ∷ es) = ground (arith, length-remove-le name es)

pub lookup-remove :
    (name j : Bytes) (es : List Bytes)
    → IsName name
    → IsName j
    → count_entries name es ≤ 1
    → lookup_value j (remove_entry name es) ≡ (if str_eq name j then none else lookup_value j es)
unfolding lookup_value find_entry remove_entry count_entries
lookup-remove name j [] hn hj h = ground arith
lookup-remove name j (e ∷ es) hn hj h = ground (
  arith,
  is_entry_unique j name e hj hn,
  str_eq_iff name j,
  find_entry-none name es,
  ap (λ (b : Bytes). find_entry b es) {x = name} {y = j},
  lookup-remove name j es hn hj,
)

-- There is an array where there is a capacity.
abbrev pub Backed : Env → Type 0
Backed env = (env.allocated || env.capacity == 0) ≡ true

-- The array is there and large enough for its entries, no name has two of them, and nothing was
-- written through a NULL pointer.
pub record IsValid (env : Env) : Type 0 where
  pub bounded : length env.entries ≤ env.capacity
  pub backed : Backed env
  pub sound : env.faulted ≡ false
  pub once : (name : Bytes) → IsName name → count_entries name env.entries ≤ 1

set_env_internal-bounded :
    (env : Env) (name v : Bytes) (mem grow : Bool)
    → length env.entries ≤ env.capacity
    → length (set_env_internal env name v mem grow).0.entries
      ≤ (set_env_internal env name v mem grow).0.capacity
unfolding set_env_internal
set_env_internal-bounded env name v mem grow h = ground (
  arith,
  length-replace name (entry_of name v) env.entries,
  length-append env.entries (entry_of name v ∷ []),
)

set_env_internal-Backed :
    (env : Env) (name v : Bytes) (mem grow : Bool)
    → Backed env
    → Backed (set_env_internal env name v mem grow).0
unfolding set_env_internal
set_env_internal-Backed env name v mem grow h = ground arith

set_env_internal_sound :
    (env : Env) (name v : Bytes) (mem grow : Bool)
    → Backed env
    → env.faulted ≡ false
    → (set_env_internal env name v mem grow).0.faulted ≡ false
unfolding set_env_internal
set_env_internal_sound env name v mem grow backed h = ground arith

set_env_internal-once :
    (env : Env) (name v j : Bytes) (mem grow : Bool)
    → IsName name
    → IsName j
    → count_entries j env.entries ≤ 1
    → count_entries j (set_env_internal env name v mem grow).0.entries ≤ 1
unfolding set_env_internal
set_env_internal-once env name v j mem grow hn hj h = ground (
  arith,
  count_entries-replace name v j env.entries hn hj,
  count_entries-append j (entry_of name v) env.entries,
  is_entry-entry_of j name v hj hn,
  str_eq_iff name j,
  count_entries-none name env.entries,
  ap (λ (b : Bytes). count_entries b env.entries) {x = name} {y = j},
)

pub set_env_internal-IsValid :
    (env : Env) (name v : Bytes) (mem grow : Bool)
    → IsName name
    → IsValid env
    → IsValid (set_env_internal env name v mem grow).0
set_env_internal-IsValid env name v mem grow hn h = record {
  bounded = set_env_internal-bounded env name v mem grow h.bounded;
  backed = set_env_internal-Backed env name v mem grow h.backed;
  sound = set_env_internal_sound env name v mem grow h.backed h.sound;
  once = λ j hj. set_env_internal-once env name v j mem grow hn hj (h.once j hj);
}

-- A value is set where the code is success, and nowhere else.
pub lookup-set_env_internal :
    (env : Env) (name v j : Bytes) (mem grow : Bool)
    → IsName name
    → IsName j
    → Backed env
    → ((set_env_internal env name v mem grow).1 ≡ success)
        × (lookup_value j (set_env_internal env name v mem grow).0.entries
            ≡ (if str_eq name j then some v else lookup_value j env.entries))
      ⊎ (((set_env_internal env name v mem grow).1 ≡ e_system_memory)
          × (set_env_internal env name v mem grow ≡ (env, e_system_memory)))
unfolding set_env_internal
lookup-set_env_internal env name v j mem grow hn hj backed =
    elim (Option-cases (find_entry name env.entries)) [
      | inr (e, at) ↦ ground (arith, lookup-replace name v j env.entries {e = e} hn hj at)
      | inl gone ↦ ground (arith, lookup-append name v j env.entries hn hj gone)
    ]
