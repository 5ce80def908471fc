-- ===== src/WorkflowRegistry/Valid.antt =====
-- The invariant of src/daemon/argo_workflow_registry.c.
use mathlib.Core.Option
use argo.Base.{ℕ, ◌≡◌, refl, Bool, Option, none, some, arith, if◌then◌else◌, Bytes, str_eq, length}
use argo.Base.Nodes.{
  Distinct, find-modify, length-remove, length-modify, Distinct-modify, Distinct-remove,
}
use argo.WorkflowRegistry.{
  State, Entry, Registry, id_of, create, find, add, write, with_state, with_step, update_state,
  update_progress, remove,
}

-- The count is that of the nodes, and no ID occurs twice.
pub record IsValid (r : Registry) : Type 0 where
  pub counted : r.count ≡ length r.head
  pub distinct : Distinct id_of r.head

pub create-IsValid : IsValid create
unfolding create
create-IsValid = ground arith

pub add-IsValid :
    (r : Registry) (e : Option Entry) (mem : Bool) → IsValid r → IsValid (add r e mem).0
unfolding add
add-IsValid r none mem h = h
add-IsValid r (some e) mem h = ground arith

pub write-IsValid :
    (r : Registry) (id : Bytes) (f : Entry → Entry)
    → ((e : Entry) → id_of (f e) ≡ id_of e)
    → IsValid r
    → IsValid (write r id f)
unfolding write
write-IsValid r id f keep h = record {
  counted = omega (arith, length-modify id_of id f r.head, h.counted);
  distinct = Distinct-modify id_of id f r.head keep h.distinct;
}

pub remove-IsValid : (r : Registry) (id : Option Bytes) → IsValid r → IsValid (remove r id).0
unfolding remove
remove-IsValid r none h = h
remove-IsValid r (some id) h =
    ground (arith, length-remove id_of id r.head, Distinct-remove id_of id r.head)

pub update_state-IsValid :
    (r : Registry) (id : Option Bytes) (s : State) (now : ℕ)
    → IsValid r
    → IsValid (update_state r id s now).0
unfolding update_state
update_state-IsValid r none s now h = h
update_state-IsValid r (some id) s now h =
    ground (arith, write-IsValid r id (with_state s now) (λ e. refl) h)

pub update_progress-IsValid :
    (r : Registry) (id : Option Bytes) (n : ℕ) → IsValid r → IsValid (update_progress r id n).0
unfolding update_progress
update_progress-IsValid r none n h = h
update_progress-IsValid r (some id) n h =
    ground (arith, write-IsValid r id (with_step n) (λ e. refl) h)

-- The map law of a write.
pub find-write :
    (r : Registry) (id j : Bytes) (f : Entry → Entry)
    → ((e : Entry) → id_of (f e) ≡ id_of e)
    → find (write r id f) j ≡ (if str_eq id j then Option.map f (find r j) else find r j)
unfolding find write
find-write r id j f keep = find-modify id_of id j f r.head keep
