-- ===== src/WorkflowRegistry/Names.antt =====
-- The names of the workflow states (src/workflow/argo_workflow.c and
-- src/daemon/argo_workflow_registry.c), the result codes, and the time of the end.
use argo.Base.{
  ℕ, ◌≡◌, ◌≢◌, refl, ap, Bool, true, false, Option, none, some, arith, Bytes, str_eq_iff,
}
use argo.Error.{Code, success, e_system_memory, e_not_found, e_duplicate}
use argo.WorkflowRegistry.{
  State, pending, running, paused, completed, failed, abandoned, Entry, Registry, find, add,
  with_state, with_step, update_state, update_progress, remove, state_to_string, state_from_string,
}
use argo.WorkflowRegistry.Valid.{IsValid}
use argo.WorkflowRegistry.Map.{
  Op, add_op, update_state_op, update_progress_op, remove_op, prune_op, step, step_refines, Dict,
  spec,
}

-- The name of a state is read back as that state.
pub state_from_string-state_to_string :
    (s : State) → state_from_string (some (state_to_string s)) ≡ s
unfolding state_from_string state_to_string
state_from_string-state_to_string pending = refl
state_from_string-state_to_string running = refl
state_from_string-state_to_string paused = refl
state_from_string-state_to_string completed = refl
state_from_string-state_to_string failed = refl
state_from_string-state_to_string abandoned = refl

abbrev pub absent_code : Option Entry → Code
absent_code none = e_not_found
absent_code (some _) = success

abbrev pub add_code : Option Entry → Bool → Code
add_code (some _) mem = e_duplicate
add_code none true = success
add_code none false = e_system_memory

-- The codes of the operations on an ID: an insertion is refused as a duplicate exactly if the ID
-- is found, and else needs memory; the two updates and the removal fail exactly if it is not.
pub codes_lem :
    (r : Registry) (e : Entry) (id : Bytes) (mem : Bool) (s : State) (n : ℕ)
    → ((add r (some e) mem).1 ≡ add_code (find r e.workflow_id) mem)
      × ((update_state r (some id) s n).1 ≡ absent_code (find r id))
      × ((update_progress r (some id) n).1 ≡ absent_code (find r id))
      × ((remove r (some id)).1 ≡ absent_code (find r id))
unfolding add update_state update_progress remove
codes_lem r e id mem s n = ground arith

-- What became of an entry that had ended at `t`.
abbrev pub EndedAt : ℕ → Option Entry → Type 0
EndedAt t none = Unit
EndedAt t (some e) = e.end_time ≡ t

spec-EndedAt :
    (m : Dict) (o : Op) (j : Bytes) (e : Entry)
    → m j ≡ some e
    → e.end_time ≢ 0
    → EndedAt e.end_time (spec m o j)
unfolding with_state with_step
spec-EndedAt m (add_op none mem) j e at ended = ground arith
spec-EndedAt m (add_op (some x) mem) j e at ended =
    ground (arith, str_eq_iff x.workflow_id j, ap m {x = x.workflow_id} {y = j})
spec-EndedAt m (update_state_op none s now) j e at ended = ground arith
spec-EndedAt m (update_state_op (some id) s now) j e at ended = ground arith
spec-EndedAt m (update_progress_op none n) j e at ended = ground arith
spec-EndedAt m (update_progress_op (some id) n) j e at ended = ground arith
spec-EndedAt m (remove_op none) j e at ended = ground arith
spec-EndedAt m (remove_op (some id)) j e at ended = ground arith
spec-EndedAt m (prune_op t) j e at ended = ground arith

-- The first end time sticks: in a valid registry, whatever operation follows, an entry that has
-- an end time is afterwards either gone or found with that end time.
pub end_time_sticks :
    (r : Registry) (o : Op) (j : Bytes) (e : Entry)
    → IsValid r
    → find r j ≡ some e
    → e.end_time ≢ 0
    → EndedAt e.end_time (find (step r o) j)
end_time_sticks r o j e h at ended =
    rw (step_refines r o j h) (spec-EndedAt (find r) o j e at ended)
