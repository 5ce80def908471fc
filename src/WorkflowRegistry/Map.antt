-- ===== src/WorkflowRegistry/Map.antt =====
-- The registry of src/daemon/argo_workflow_registry.c as a finite map from IDs to entries: a
-- specification of each operation that knows of no list, and the refinement.
use mathlib.Core.Option
use argo.Base.{
  ℕ, ◌≡◌, refl, ap, Bool, ◌&&◌, List, [], ◌∷◌, Option, none, some, arith, if◌then◌else◌, Bytes,
  str_eq, str_eq_iff,
}
use argo.Base.Nodes.{find_node, find-remove}
use argo.WorkflowRegistry.{
  State, Entry, Registry, id_of, create, find, add, with_state, with_step, update_state,
  update_progress, remove, prune,
}
use argo.WorkflowRegistry.Valid.{
  IsValid, create-IsValid, add-IsValid, remove-IsValid, update_state-IsValid,
  update_progress-IsValid, find-write,
}
use argo.WorkflowRegistry.Prune.{survivor, find-prune, prune-IsValid}

pub data Op : Type 0 where
  add_op : Option Entry → Bool → Op
  update_state_op : Option Bytes → State → ℕ → Op
  update_progress_op : Option Bytes → ℕ → Op
  remove_op : Option Bytes → Op
  prune_op : ℕ → Op

unfoldable pub step : Registry → Op → Registry
step r (add_op e mem) = (add r e mem).0
step r (update_state_op id s now) = (update_state r id s now).0
step r (update_progress_op id n) = (update_progress r id n).0
step r (remove_op id) = (remove r id).0
step r (prune_op t) = (prune r t).0

abbrev pub Dict : Type 0
Dict = Bytes → Option Entry

abbrev pub change : Bytes → (Entry → Entry) → Dict → Dict
change id f m j = if str_eq id j then Option.map f (m j) else m j

-- The entry that an `add` puts at `j`, given what the map holds at the new ID.
abbrev pub insert_new : Entry → Bool → Option Entry → Dict → Dict
insert_new e mem (some _) m j = m j
insert_new e mem none m j = if mem && str_eq e.workflow_id j then some e else m j

abbrev pub spec : Dict → Op → Dict
spec m (add_op none mem) j = m j
spec m (add_op (some e) mem) j = insert_new e mem (m e.workflow_id) m j
spec m (update_state_op none s now) j = m j
spec m (update_state_op (some id) s now) j = change id (with_state s now) m j
spec m (update_progress_op none n) j = m j
spec m (update_progress_op (some id) n) j = change id (with_step n) m j
spec m (remove_op none) j = m j
spec m (remove_op (some id)) j = if str_eq id j then none else m j
spec m (prune_op t) j = survivor t (m j)

pub step-IsValid : (r : Registry) (o : Op) → IsValid r → IsValid (step r o)
unfolding step
step-IsValid r (add_op e mem) h = add-IsValid r e mem h
step-IsValid r (update_state_op id s now) h = update_state-IsValid r id s now h
step-IsValid r (update_progress_op id n) h = update_progress-IsValid r id n h
step-IsValid r (remove_op id) h = remove-IsValid r id h
step-IsValid r (prune_op t) h = prune-IsValid r t h

pub find-add :
    (r : Registry) (e : Entry) (mem : Bool) (j : Bytes)
    → find (add r (some e) mem).0 j ≡ insert_new e mem (find r e.workflow_id) (find r) j
unfolding find add
find-add r e mem j = ground arith

pub find-update_state :
    (r : Registry) (id : Bytes) (s : State) (now : ℕ) (j : Bytes)
    → find (update_state r (some id) s now).0 j ≡ change id (with_state s now) (find r) j
unfolding update_state
find-update_state r id s now j = ground (
  arith,
  str_eq_iff id j,
  find-write r id j (with_state s now) (λ e. refl),
  ap (find r) {x = id} {y = j},
)

pub find-update_progress :
    (r : Registry) (id : Bytes) (n : ℕ) (j : Bytes)
    → find (update_progress r (some id) n).0 j ≡ change id (with_step n) (find r) j
unfolding update_progress
find-update_progress r id n j = ground (
  arith,
  str_eq_iff id j,
  find-write r id j (with_step n) (λ e. refl),
  ap (find r) {x = id} {y = j},
)

pub find-remove_op :
    (r : Registry) (id j : Bytes)
    → IsValid r
    → find (remove r (some id)).0 j ≡ (if str_eq id j then none else find r j)
unfolding find remove
find-remove_op r id j h = ground (
  arith,
  str_eq_iff id j,
  find-remove id_of id j r.head h.distinct,
  ap (λ (b : Bytes). find_node id_of b r.head) {x = id} {y = j},
)

-- In a valid registry every operation acts on the map of found entries as the specification
-- says: an insertion of an absent ID if memory is given, a change of one entry, a removal, or
-- the loss of the prunable entries; with a NULL argument or on an error nothing changes.
pub step_refines :
    (r : Registry) (o : Op) (j : Bytes) → IsValid r → find (step r o) j ≡ spec (find r) o j
unfolding step
step_refines r (add_op none mem) j h = unfold add in refl
step_refines r (add_op (some e) mem) j h = find-add r e mem j
step_refines r (update_state_op none s now) j h = unfold update_state in refl
step_refines r (update_state_op (some id) s now) j h = find-update_state r id s now j
step_refines r (update_progress_op none n) j h = unfold update_progress in refl
step_refines r (update_progress_op (some id) n) j h = find-update_progress r id n j
step_refines r (remove_op none) j h = unfold remove in refl
step_refines r (remove_op (some id)) j h = find-remove_op r id j h
step_refines r (prune_op t) j h = find-prune r t j h

pub run : Registry → List Op → Registry
run r [] = r
run r (o ∷ os) = run (step r o) os

run_from-IsValid : (r : Registry) (os : List Op) → IsValid r → IsValid (run r os)
unfolding run
run_from-IsValid r [] h = h
run_from-IsValid r (o ∷ os) h = run_from-IsValid (step r o) os (step-IsValid r o h)

-- After any operations on a fresh registry the count is the number of nodes, and no workflow ID
-- occurs twice.
pub run-IsValid : (os : List Op) → IsValid (run create os)
run-IsValid os = run_from-IsValid create os create-IsValid
