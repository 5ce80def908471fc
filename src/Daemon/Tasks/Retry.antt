-- ===== src/Daemon/Tasks/Retry.antt =====
-- The number of retries in src/daemon/argo_daemon_tasks.c.
use argo.Base.{
  ℕ, suc, ◌+◌, ◌-◌, ◌≤◌, ◌≡◌, ap, Bool, false, List, [], ◌∷◌, Option, none, some, arith,
  if◌then◌else◌, Bytes, str_eq, str_eq_iff, Bool-cases, Option-cases, inl, inr,
}
use argo.ExitQueue.{Slot}
use argo.WorkflowRegistry.{Entry, Registry, find, with_state}
use argo.WorkflowRegistry.Valid.{IsValid}
use argo.Daemon.Tasks.{with_retry, with_pid, with_exit, match_pid, handle_exit}
use argo.Daemon.Tasks.Valid.{handle_exit-IsValid}
use argo.Daemon.Tasks.Exit.{
  after_exit, match_pid-find_id, handle_exit_matched, handle_exit_unmatched,
}

-- An exit code with the answers of the allocator, of fork and of the clock.
pub record Exit : Type 0 where
  pub slot : Slot
  pub mem : Bool
  pub fork : Option ℕ
  pub now : ℕ

abbrev pub handle : Registry → Exit → Registry
handle r x = handle_exit r x.slot x.mem x.fork x.now

-- Is this exit one of the workflow's runs?
abbrev pub concerns : Bytes → Registry → Exit → Bool
concerns id r x = elim (match_pid x.slot.pid r.head) [
  | none ↦ false
  | some e ↦ if x.mem then str_eq e.workflow_id id else false
]

-- How many of the exits are runs of the workflow.
unfoldable pub runs : Bytes → Registry → List Exit → ℕ
runs id r [] = 0
runs id r (x ∷ xs) = (if concerns id r x then 1 else 0) + runs id (handle r x) xs

-- How many runs a workflow may still end: the present one and its remaining retries.
abbrev pub budget : Option Entry → ℕ
budget none = 0
budget (some m) = suc (m.max_retries - m.retry_count)

budget-after_exit :
    (code : ℕ) (fork : Option ℕ) (now : ℕ) (e : Entry)
    → suc (budget (after_exit code fork now e)) ≤ budget (some e)
unfolding with_retry with_pid with_exit with_state
budget-after_exit code none now e = ground arith
budget-after_exit code (some pid) now e = ground arith

budget-handle :
    (id : Bytes) (r : Registry) (x : Exit)
    → IsValid r
    → (if concerns id r x then 1 else 0) + budget (find (handle r x) id) ≤ budget (find r id)
budget-handle id r x h = elim (Option-cases (match_pid x.slot.pid r.head)) [
  | inl absent ↦ ground (arith, handle_exit_unmatched r x.slot x.mem x.fork x.now (inl absent))
  | inr (e, at) ↦ elim (Bool-cases x.mem) [
    | inl given ↦
        let found : find r e.workflow_id ≡ some e = match_pid-find_id r x.slot.pid h at in
        ground (
          arith,
          handle_exit_matched r x.slot x.fork x.now e id h,
          str_eq_iff e.workflow_id id,
          budget-after_exit x.slot.exit_code x.fork x.now e,
          found,
          ap (find r) {x = e.workflow_id} {y = id},
        )
    | inr denied ↦ ground (arith, handle_exit_unmatched r x.slot x.mem x.fork x.now (inr denied))
  ]
]

-- Whatever exit codes are handled, in any number and order, in a valid registry a workflow ends
-- at most as many runs as it has retries left, and one more; once removed it ends none.
pub runs-le-budget :
    (id : Bytes) (r : Registry) (xs : List Exit) → IsValid r → runs id r xs ≤ budget (find r id)
unfolding runs
runs-le-budget id r [] h = omega arith
runs-le-budget id r (x ∷ xs) h = omega (
  arith,
  budget-handle id r x h,
  runs-le-budget id (handle r x) xs (handle_exit-IsValid r x.slot x.mem x.fork x.now h),
)
