-- ===== src/Env/Refinement.antt =====
-- The operations of src/foundation/argo_env_utils.c refine those of a map from names to values.
use argo.Base.{
  ◌≡◌, refl, Bool, true, false, List, [], Option, none, some, arith, if◌then◌else◌, Bytes, str_eq,
  str_eq_iff, Option-cases, inl, inr, subst,
}
use argo.Error.{Code, success}
use argo.Env.{
  Env, find_entry, remove_entry, lookup_value, argo_setenv, argo_unsetenv, argo_clearenv,
}
use argo.Env.Store.{
  IsName, IsValid, Backed, count_entries, lookup-set_env_internal, set_env_internal-IsValid,
  lookup-remove, count_entries-remove-le, length-remove-le,
}

-- What the program asks of its environment.
pub data Op : Type 0 where
  set_op : Option Bytes → Option Bytes → Bool → Bool → Bool → Op
  unset_op : Option Bytes → Bool → Op
  clear_op : Bool → Op

abbrev pub step : Env → Op → Env × Code
step env (set_op name value locked mem grow) = argo_setenv env name value locked mem grow
step env (unset_op name locked) = argo_unsetenv env name locked
step env (clear_op locked) = argo_clearenv env locked

abbrev pub NamesPlain : Op → Type 0
NamesPlain (set_op (some name) value locked mem grow) = IsName name
NamesPlain (unset_op (some name) locked) = IsName name
NamesPlain _ = Unit

-- A map from names to values, and what a successful operation does to it.
abbrev pub Dict : Type 0
Dict = Bytes → Option Bytes

abbrev pub spec : Dict → Op → Dict
spec m (set_op (some name) (some v) locked mem grow) j = if str_eq name j then some v else m j
spec m (unset_op (some name) locked) j = if str_eq name j then none else m j
spec m (clear_op locked) j = none
spec m _ j = m j

abbrev pub outcome : Dict → Op → Code → Dict
outcome m o success = spec m o
outcome m o _ = m

step_set :
    (env : Env) (name v j : Bytes) (locked mem grow : Bool)
    → IsName name
    → IsName j
    → IsValid env
    → lookup_value j (argo_setenv env (some name) (some v) locked mem grow).0.entries
      ≡ outcome
          (λ k. lookup_value k env.entries)
          (set_op (some name) (some v) locked mem grow)
          (argo_setenv env (some name) (some v) locked mem grow).1
          j
unfolding argo_setenv
step_set env name v j false mem grow hn hj h = refl
step_set env name v j true mem grow hn hj h =
    elim (lookup-set_env_internal env name v j mem grow hn hj h.backed) [
      | inl (ok, found) ↦ rw ok found
      | inr (bad, same) ↦ rw bad (rw same refl)
    ]

lookup_absent :
    (name j : Bytes) (es : List Bytes)
    → find_entry name es ≡ none
    → str_eq name j ≡ true
    → lookup_value j es ≡ none
unfolding lookup_value
lookup_absent name j es gone same =
    let here : name ≡ j = (str_eq_iff name j).0 same in
    rw (subst (λ k. find_entry k es ≡ none) here gone, lookup_value)

step_unset :
    (env : Env) (name j : Bytes) (locked : Bool)
    → IsName name
    → IsName j
    → IsValid env
    → lookup_value j (argo_unsetenv env (some name) locked).0.entries
      ≡ outcome
          (λ k. lookup_value k env.entries)
          (unset_op (some name) locked)
          (argo_unsetenv env (some name) locked).1
          j
unfolding argo_unsetenv
step_unset env name j false hn hj h = refl
step_unset env name j true hn hj h = elim (Option-cases (find_entry name env.entries)) [
  | inr (e, at) ↦ rw (at, argo_unsetenv) (lookup-remove name j env.entries hn hj (h.once name hn))
  | inl gone ↦
      rw (gone, argo_unsetenv)
        (ground (arith, str_eq_iff name j, lookup_absent name j env.entries gone))
]

set-IsValid :
    (env : Env) (name v : Bytes) (locked mem grow : Bool)
    → IsName name
    → IsValid env
    → IsValid (argo_setenv env (some name) (some v) locked mem grow).0
unfolding argo_setenv
set-IsValid env name v false mem grow hn h = h
set-IsValid env name v true mem grow hn h = set_env_internal-IsValid env name v mem grow hn h

removed-IsValid :
    (env : Env) (name : Bytes)
    → IsValid env
    → IsValid (record env { entries = remove_entry name env.entries })
removed-IsValid env name h = record {
  bounded = omega (arith, length-remove-le name env.entries, h.bounded);
  backed = h.backed;
  sound = h.sound;
  once = λ j hj. omega (arith, count_entries-remove-le j name env.entries, h.once j hj);
}

unset-IsValid :
    (env : Env) (name : Bytes) (locked : Bool)
    → IsValid env
    → IsValid (argo_unsetenv env (some name) locked).0
unfolding argo_unsetenv
unset-IsValid env name false h = h
unset-IsValid env name true h = elim (Option-cases (find_entry name env.entries)) [
  | inr (e, at) ↦ rw (at, argo_unsetenv) (removed-IsValid env name h)
  | inl gone ↦ rw (gone, argo_unsetenv) h
]

pub cleared-IsValid :
    (env : Env) → Backed env → env.faulted ≡ false → IsValid (record env { entries = [] })
unfolding count_entries
cleared-IsValid env backed sound = record {
  bounded = omega arith;
  backed = backed;
  sound = sound;
  once = λ j hj. omega arith;
}

-- Setting, removing and clearing variables act on the map of values as the specification says when
-- they return success, and leave it as it was when they do not. The array stays large enough for
-- its entries, with no name in it twice, and nothing is written through a NULL pointer; the array is
-- taken to be there to begin with, or its capacity to be 0. The names hold no '='.
pub env_step_refines :
    (env : Env) (o : Op) (j : Bytes)
    → IsValid env
    → NamesPlain o
    → IsName j
    → (lookup_value j (step env o).0.entries
        ≡ outcome (λ k. lookup_value k env.entries) o (step env o).1 j)
      × IsValid (step env o).0
env_step_refines env (set_op (some name) (some v) locked mem grow) j h hn hj =
    (step_set env name v j locked mem grow hn hj h, set-IsValid env name v locked mem grow hn h)
env_step_refines env (set_op (some name) none locked mem grow) j h hn hj =
    unfold argo_setenv in (refl, h)
env_step_refines env (set_op none value locked mem grow) j h hn hj = unfold argo_setenv in (refl, h)
env_step_refines env (unset_op (some name) locked) j h hn hj =
    (step_unset env name j locked hn hj h, unset-IsValid env name locked h)
env_step_refines env (unset_op none locked) j h hn hj = unfold argo_unsetenv in (refl, h)
env_step_refines env (clear_op true) j h hn hj =
    unfold argo_clearenv lookup_value find_entry in (refl, cleared-IsValid env h.backed h.sound)
env_step_refines env (clear_op false) j h hn hj = unfold argo_clearenv in (refl, h)
