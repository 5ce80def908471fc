-- ===== src/Daemon/Execute/Start.antt =====
-- What the start of a workflow in src/daemon/argo_daemon_workflow.c leaves in the registry.
use argo.Base.{
  ℕ, ◌≤◌, ◌≡◌, ◌≢◌, refl, ap, ◌∙◌, Bool, true, false, List, Option, none, some, arith,
  if◌then◌else◌, Bytes, str_eq, str_eq_iff, str_eq_refl, length, take_all, Option-cases, Bool-cases,
  inl, inr,
}
use argo.Error.{Code, success, e_system_fork, e_system_process, e_system_memory, e_duplicate}
use argo.WorkflowRegistry.{running, failed, Entry, Registry, find, add, update_state, with_state}
use argo.WorkflowRegistry.Valid.{IsValid, add-IsValid, find-write}
use argo.WorkflowRegistry.Map.{find-add, find-update_state, find-remove_op}
use argo.Daemon.Execute.{
  validate_script_path, all_safe, new_entry, System, with_process, launch, launch_if,
  execute_bash_workflow,
}

-- The entry that a launch leaves, by what the pipe and the fork answer.
abbrev pub launched : System → Entry → Option Entry
launched sys e = elim sys.pipe [
  | none ↦ none
  | some fd ↦ elim sys.fork [
    | none ↦ some (with_state failed sys.now e)
    | some pid ↦ some (with_process pid fd (with_state running sys.now e))
  ]
]

abbrev pub launch_code : System → Code
launch_code sys = elim sys.pipe [
  | none ↦ e_system_process
  | some fd ↦ elim sys.fork [ none ↦ e_system_fork | some pid ↦ success ]
]

-- What the start leaves at `j`, and its code, by what the ID found before.
abbrev pub started : Registry → System → Bytes → Bytes → Bytes → Option Entry → Option Entry × Code
started r sys id path j (some _) = (find r j, e_duplicate)
started r sys id path j none =
    if sys.mem
    then (
      if str_eq id j then launched sys (new_entry id path sys.now) else find r j,
      launch_code sys,
    )
    else (find r j, e_system_memory)

find-launch :
    (r : Registry) (sys : System) (id : Bytes) (e : Entry) (j : Bytes)
    → IsValid r
    → find r id ≡ some e
    → (find (launch r sys id).0 j ≡ (if str_eq id j then launched sys e else find r j))
      × ((launch r sys id).1 ≡ launch_code sys)
unfolding launch with_process
find-launch r sys id e j h at = elim (Option-cases sys.pipe) [
  | inl no_pipe ↦ ground (arith, find-remove_op r id j h)
  | inr (fd, piped) ↦ elim (Option-cases sys.fork) [
    | inl no_fork ↦ ground (
      arith,
      find-update_state r id failed sys.now j,
      str_eq_iff id j,
      ap (find r) {x = id} {y = j},
    )
    | inr (pid, forked) ↦
        let run = (update_state r (some id) running sys.now).0 in
        ground (
          arith,
          find-update_state r id running sys.now j,
          find-update_state r id running sys.now id,
          str_eq_refl id,
          str_eq_iff id j,
          ap (find r) {x = id} {y = j},
          find-write run id j (with_process pid fd) (λ x. refl),
        )
  ]
]

fits_id : (id path : Bytes) (now : ℕ) → length id ≤ 63 → (new_entry id path now).workflow_id ≡ id
unfolding new_entry
fits_id id path now h = take_all 63 id h

validated :
    (r : Registry) (sys : System) (path : Bytes) (keys : List (Option Bytes)) (id : Bytes)
    → validate_script_path sys.stat (some path) ≡ true
    → all_safe keys ≡ true
    → 1 ≤ length id
    → length id ≤ 63
    → execute_bash_workflow r sys (some path) keys (some id)
      ≡ launch_if (add r (some (new_entry id path sys.now)) sys.mem) sys id
unfolding execute_bash_workflow
validated r sys path keys id good safe lo hi = ground arith

-- The three answers of an insertion.
add_known :
    (r : Registry) (e : Entry) (mem : Bool) {old : Entry}
    → find r e.workflow_id ≡ some old
    → add r (some e) mem ≡ (r, e_duplicate)
unfolding add
add_known r e mem at = ground arith

add_denied :
    (r : Registry) (e : Entry)
    → find r e.workflow_id ≡ none
    → add r (some e) false ≡ (r, e_system_memory)
unfolding add
add_denied r e fresh = ground arith

add_fresh :
    (r : Registry) (e : Entry) → find r e.workflow_id ≡ none → (add r (some e) true).1 ≡ success
unfolding add
add_fresh r e fresh = ground arith

launch_if_success :
    (a : Registry × Code) (sys : System) (id : Bytes)
    → a.1 ≡ success
    → launch_if a sys id ≡ launch a.0 sys id
unfolding launch_if
launch_if_success (r, success) sys id h = refl
launch_if_success (r, other) sys id h = ground arith

launch_if_error :
    (r : Registry) (c : Code) (sys : System) (id : Bytes)
    → c ≢ success
    → launch_if (r, c) sys id ≡ (r, c)
unfolding launch_if
launch_if_error r success sys id h = absurd (h refl)
launch_if_error r other sys id h = ground arith

find-launch_added :
    (r : Registry) (sys : System) (path id j : Bytes)
    → IsValid r
    → length id ≤ 63
    → find r id ≡ none
    → (find (launch (add r (some (new_entry id path sys.now)) true).0 sys id).0 j
        ≡ (if str_eq id j then launched sys (new_entry id path sys.now) else find r j))
      × ((launch (add r (some (new_entry id path sys.now)) true).0 sys id).1 ≡ launch_code sys)
find-launch_added r sys path id j h hi fresh =
    let e = new_entry id path sys.now in
    let same : e.workflow_id ≡ id = fits_id id path sys.now hi in
    let r' = (add r (some e) true).0 in
    let put : find r' id ≡ some e =
      ground
        (arith, find-add r e true id, str_eq_refl id, ap (find r) {x = e.workflow_id} {y = id}) in
    let did = find-launch r' sys id e j (add-IsValid r (some e) true h) put in
    ground (
      arith,
      did,
      find-add r e true j,
      ap (find r) {x = e.workflow_id} {y = id},
      ap (λ (b : Bytes). str_eq b j) same,
    )

find-launch_if :
    (r : Registry) (sys : System) (path id j : Bytes)
    → IsValid r
    → length id ≤ 63
    → (find (launch_if (add r (some (new_entry id path sys.now)) sys.mem) sys id).0 j
        ≡ (started r sys id path j (find r id)).0)
      × ((launch_if (add r (some (new_entry id path sys.now)) sys.mem) sys id).1
          ≡ (started r sys id path j (find r id)).1)
find-launch_if r sys path id j h hi =
    let e = new_entry id path sys.now in
    let same : find r e.workflow_id ≡ find r id = ap (find r) (fits_id id path sys.now hi) in
    elim (Option-cases (find r id)) [
      | inr (old, at) ↦
          rw
            (
              add_known r e sys.mem {old = old} (same ∙ at),
              launch_if_error r e_duplicate sys id (λ x. cc),
              at,
            )
            (refl, refl)
      | inl fresh ↦ elim (Bool-cases sys.mem) [
        | inr denied ↦ ground (
          arith,
          add_denied r e (same ∙ fresh),
          launch_if_error r e_system_memory sys id (λ x. cc),
        )
        | inl given ↦ ground (
          arith,
          launch_if_success (add r (some e) true) sys id (add_fresh r e (same ∙ fresh)),
          find-launch_added r sys path id j h hi fresh,
        )
      ]
    ]

-- A start whose arguments pass the validation, in a valid registry. A known ID is refused as a
-- duplicate and a failed allocation is reported, with the registry unchanged. Otherwise the ID
-- finds afterwards: nothing, if the pipe failed; the entry as FAILED, if the fork failed; and else
-- the entry as RUNNING with the child's PID and the pipe. No other workflow changes.
pub execute_bash_workflow_lem :
    (r : Registry) (sys : System) (path : Bytes) (keys : List (Option Bytes)) (id j : Bytes)
    → IsValid r
    → validate_script_path sys.stat (some path) ≡ true
    → all_safe keys ≡ true
    → 1 ≤ length id
    → length id ≤ 63
    → (find (execute_bash_workflow r sys (some path) keys (some id)).0 j
        ≡ (started r sys id path j (find r id)).0)
      × ((execute_bash_workflow r sys (some path) keys (some id)).1
          ≡ (started r sys id path j (find r id)).1)
execute_bash_workflow_lem r sys path keys id j h good safe lo hi =
    rw (validated r sys path keys id good safe lo hi) (find-launch_if r sys path id j h hi)
