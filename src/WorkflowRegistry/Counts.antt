-- ===== src/WorkflowRegistry/Counts.antt =====
-- The counters of src/daemon/argo_workflow_registry.c, and the array that lists the entries.
use argo.Base.{ℕ, ◌+◌, ◌≡◌, Bool, List, [], ◌∷◌, none, some, arith, length}
use argo.Error.{success}
use argo.WorkflowRegistry.{
  pending, running, paused, completed, failed, abandoned, Entry, Registry, list, count_state,
  count_of,
}
use argo.WorkflowRegistry.Valid.{IsValid}

count_states :
    (es : List Entry)
    → count_state es pending
        + count_state es running
        + count_state es paused
        + count_state es completed
        + count_state es failed
        + count_state es abandoned
      ≡ length es
unfolding count_state
count_states [] = omega arith
count_states (e ∷ es) = ground (arith, count_states es)

-- In a valid registry an array that `list` returns holds as many entries as it says, which is as
-- many as were allocated for it: the copy loop ends at the end of the array.
pub list-length :
    (r : Registry) (mem : Bool) (es : List Entry) (n : ℕ)
    → IsValid r
    → list r mem ≡ (some es, n, success)
    → (length es ≡ n) × (n ≡ r.count)
unfolding list
list-length r mem es n h e = ground arith

-- In a valid registry the counts of the six states add up to the count of all workflows.
pub count_of_total :
    (r : Registry)
    → IsValid r
    → count_of r (some pending)
        + count_of r (some running)
        + count_of r (some paused)
        + count_of r (some completed)
        + count_of r (some failed)
        + count_of r (some abandoned)
      ≡ count_of r none
unfolding count_of
count_of_total r h = omega (arith, count_states r.head, h.counted)
