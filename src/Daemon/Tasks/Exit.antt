-- ===== src/Daemon/Tasks/Exit.antt =====
-- What the handling of one exit code in src/daemon/argo_daemon_tasks.c does to each workflow.
use argo.Base.{
  ℕ, ◌≡◌, refl, ap, Bool, true, false, List, [], ◌∷◌, Option, none, some, arith, if◌then◌else◌, ltb,
  ◌==◌, Bytes, str_eq, str_eq_iff, str_eq_refl, Bool-cases, inl, inr, ◌&&◌, length, ◌<◌, ◌⊎◌,
}
use argo.Base.Nodes.{find_node, Distinct}
use argo.ExitQueue.{Slot}
use argo.WorkflowRegistry.{Entry, Registry, find, write, running, id_of, with_state, state_eq}
use argo.WorkflowRegistry.Valid.{IsValid, write-IsValid, find-write}
use argo.WorkflowRegistry.Map.{find-update_state, find-remove_op}
use argo.Daemon.Tasks.{
  with_retry, with_pid, with_exit, retried, handle_failure, match_pid, settle, handle_exit,
}

-- The entry of a workflow whose retry was started, or whose fork failed.
abbrev pub restarted : Option ℕ → ℕ → Entry → Entry
restarted none now m = with_retry now m
restarted (some pid) now m = with_state running now (with_pid pid (with_retry now m))

-- What a workflow's exit leaves of its entry.
abbrev pub after_exit : ℕ → Option ℕ → ℕ → Entry → Option Entry
after_exit code fork now m =
    if m.abandon_requested
    then none
    else if code == 0
    then none
    else if ltb m.retry_count m.max_retries
    then some (restarted fork now (with_exit code m))
    else none

find-retried :
    (r : Registry) (e m : Entry) (fork : Option ℕ) (now : ℕ) (j : Bytes)
    → find r e.workflow_id ≡ some m
    → find (retried (write r e.workflow_id (with_retry now)) e fork now) j
      ≡ (if str_eq e.workflow_id j then some (restarted fork now m) else find r j)
unfolding retried with_retry with_pid
find-retried r e m none now j at = ground (
  arith,
  find-write r e.workflow_id j (with_retry now) (λ x. refl),
  str_eq_iff e.workflow_id j,
  ap (find r) {x = e.workflow_id} {y = j},
)
find-retried r e m (some pid) now j at =
    let w = write r e.workflow_id (with_retry now) in
    let v = write w e.workflow_id (with_pid pid) in
    ground (
      arith,
      find-update_state v e.workflow_id running now j,
      find-write w e.workflow_id j (with_pid pid) (λ x. refl),
      find-write r e.workflow_id j (with_retry now) (λ x. refl),
      str_eq_iff e.workflow_id j,
      ap (find r) {x = e.workflow_id} {y = j},
    )

find-handle_failure :
    (r : Registry) (e m : Entry) (fork : Option ℕ) (now : ℕ) (j : Bytes)
    → IsValid r
    → find r e.workflow_id ≡ some m
    → find (handle_failure r e fork now) j ≡ (
        if str_eq e.workflow_id j
        then if ltb m.retry_count m.max_retries then some (restarted fork now m) else none
        else find r j)
unfolding handle_failure
find-handle_failure r e m fork now j h at =
    ground (arith, find-retried r e m fork now j, find-remove_op r e.workflow_id j h)

find-settle :
    (r : Registry) (e m : Entry) (code : ℕ) (fork : Option ℕ) (now : ℕ) (j : Bytes)
    → IsValid r
    → find r e.workflow_id ≡ some m
    → find (settle r e code fork now) j
      ≡ (if str_eq e.workflow_id j then after_exit code fork now m else find r j)
unfolding settle with_exit
find-settle r e m code fork now j h at =
    let w = write r e.workflow_id (with_exit code) in
    let v = write-IsValid r e.workflow_id (with_exit code) (λ x. refl) h in
    ground (
      arith,
      find-handle_failure w e (with_exit code m) fork now j v,
      find-remove_op w e.workflow_id j v,
      find-write r e.workflow_id j (with_exit code) (λ x. refl),
      find-write r e.workflow_id e.workflow_id (with_exit code) (λ x. refl),
      str_eq_refl e.workflow_id,
    )

-- The matched entry runs under the PID and is the one that its ID finds.
pub match_pid-find :
    (pid : ℕ) (es : List Entry) {e : Entry}
    → Distinct id_of es
    → match_pid pid es ≡ some e
    → (find_node id_of e.workflow_id es ≡ some e) × (e.executor_pid ≡ pid) × (e.state ≡ running)
unfolding match_pid find_node
match_pid-find pid [] d m = absurd (cc)
match_pid-find pid (x ∷ es) {e} d m =
    elim (Bool-cases (x.executor_pid == pid && state_eq x.state running)) [
      | inl hit ↦ ground (arith, str_eq_refl x.workflow_id)
      | inr miss ↦
          let later = match_pid-find pid es {e = e} d.1 (rw miss at m) in
          ground (
            arith,
            later,
            str_eq_iff x.workflow_id e.workflow_id,
            ap (λ (b : Bytes). find_node id_of b es) {x = x.workflow_id} {y = e.workflow_id},
          )
    ]

pub match_pid-find_id :
    (r : Registry) (pid : ℕ) {e : Entry}
    → IsValid r
    → match_pid pid r.head ≡ some e
    → find r e.workflow_id ≡ some e
unfolding find
match_pid-find_id r pid {e} h m = (match_pid-find pid r.head {e = e} h.distinct m).0

match_pid_pos : (pid : ℕ) (es : List Entry) {e : Entry} → match_pid pid es ≡ some e → 0 < length es
unfolding match_pid
match_pid_pos pid [] m = absurd (cc)
match_pid_pos pid (x ∷ es) m = omega arith

pub handle_exit-settle :
    (r : Registry) (s : Slot) (fork : Option ℕ) (now : ℕ) {e : Entry}
    → IsValid r
    → match_pid s.pid r.head ≡ some e
    → handle_exit r s true fork now ≡ settle r e s.exit_code fork now
unfolding handle_exit
handle_exit-settle r s fork now {e} h m = ground (arith, match_pid_pos s.pid r.head {e = e} m)

-- In a valid registry, one exit code whose PID matches a running workflow, with the entries copied:
-- that workflow is removed if it was to be abandoned, if it succeeded or if its retries are used
-- up; otherwise its retry is counted and, where the fork succeeds, it runs under the new PID. All
-- other workflows are as before.
pub handle_exit_matched :
    (r : Registry) (s : Slot) (fork : Option ℕ) (now : ℕ) (e : Entry) (j : Bytes)
    → IsValid r
    → match_pid s.pid r.head ≡ some e
    → find (handle_exit r s true fork now) j
      ≡ (if str_eq e.workflow_id j then after_exit s.exit_code fork now e else find r j)
handle_exit_matched r s fork now e j h m =
    rw (handle_exit-settle r s fork now {e = e} h m)
      (find-settle r e e s.exit_code fork now j h (match_pid-find_id r s.pid {e = e} h m))

-- One exit code whose PID no running workflow has, or for which the entries cannot be copied,
-- changes no entry at all.
pub handle_exit_unmatched :
    (r : Registry) (s : Slot) (mem : Bool) (fork : Option ℕ) (now : ℕ)
    → (match_pid s.pid r.head ≡ none) ⊎ (mem ≡ false)
    → handle_exit r s mem fork now ≡ r
unfolding handle_exit
handle_exit_unmatched r s mem fork now h = ground arith
