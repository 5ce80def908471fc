-- ===== src/Daemon/Control/Machine.antt =====
-- The states that the endpoints of src/daemon/argo_daemon_workflow_control.c move a workflow
-- between, and how they meet the completion task of src/daemon/argo_daemon_tasks.c.
use argo.Base.{
  ◌≡◌, ◌≢◌, inl, inr, refl, ap, Bool, true, false, List, [], ◌∷◌, some, arith, Bytes, str_eq_iff,
  Option-cases, Bool-cases,
}
use argo.Base.Nodes.{find-key}
use argo.Error.{success}
use argo.WorkflowRegistry.{running, paused, Entry, Registry, find, write, id_of}
use argo.WorkflowRegistry.Valid.{IsValid, write-IsValid, find-write}
use argo.Daemon.Tasks.{with_abandon}
use argo.Daemon.Tasks.Retry.{Exit, handle}
use argo.Daemon.Tasks.Valid.{handle_exit-IsValid}
use argo.Daemon.Tasks.Exit.{
  match_pid-find, match_pid-find_id, handle_exit_matched, handle_exit_unmatched,
}
use argo.Daemon.Tasks.{match_pid}
use argo.Daemon.Control.{
  Reply, workflow_id, set_state, api_workflow_pause, api_workflow_resume, api_workflow_abandon,
}

-- The two endpoints that switch a workflow between running and paused.
abbrev pub endpoint : Bool → Registry → Bytes → Bool → Reply
endpoint true r path kill = api_workflow_pause r path kill
endpoint false r path kill = api_workflow_resume r path kill

-- A pause (`true`) or a resume (`false`) that does not succeed leaves the registry as it was, and
-- has sent no signal.
pub error_unchanged :
    (pausing : Bool) (r : Registry) (path : Bytes) (kill : Bool)
    → (endpoint pausing r path kill).code ≢ success
    → ((endpoint pausing r path kill).registry ≡ r) × ((endpoint pausing r path kill).signals ≡ [])
unfolding api_workflow_pause api_workflow_resume
error_unchanged true r path kill h = ground arith
error_unchanged false r path kill h = ground arith

paused_entry :
    (r : Registry) (path : Bytes) (kill : Bool)
    → IsValid r
    → (api_workflow_pause r path kill).code ≡ success
    → (id : Bytes) × (e : Entry) × (workflow_id path ≡ some id)
      × (find r id ≡ some e)
      × (e.state ≡ running)
      × ((api_workflow_pause r path kill).registry ≡ write r e.workflow_id (set_state paused))
unfolding api_workflow_pause
paused_entry r path kill h ok = elim (Option-cases (workflow_id path)) [
  | inl no_id ↦ absurd (ground arith)
  | inr (id, at) ↦ elim (Option-cases (find r id)) [
    | inl missing ↦ absurd (ground arith)
    | inr (e, found) ↦ (id, e, at, found, ground arith, ground arith)
  ]
]

find-id : (r : Registry) (id : Bytes) {e : Entry} → find r id ≡ some e → e.workflow_id ≡ id
unfolding find
find-id r id at = find-key id_of id r.head at

-- Exit codes handled one after the other.
unfoldable pub handle_list : Registry → List Exit → Registry
handle_list r [] = r
handle_list r (x ∷ xs) = handle_list (handle r x) xs

-- In a valid registry, a successful pause and the resume that follows it with the process signalled
-- leave every workflow as it was before the pause, and the resume succeeds.
pub resume-pause :
    (r : Registry) (path j : Bytes) (kill : Bool)
    → IsValid r
    → (api_workflow_pause r path kill).code ≡ success
    → ((api_workflow_resume (api_workflow_pause r path kill).registry path true).code ≡ success)
      × (find (api_workflow_resume (api_workflow_pause r path kill).registry path true).registry j
          ≡ find r j)
unfolding api_workflow_resume set_state
resume-pause r path j kill h ok =
    let (id, e, at, found, was, now) = paused_entry r path kill h ok in
    let w = write r e.workflow_id (set_state paused) in
    let mine : e.workflow_id ≡ id = find-id r id found in
    rw now (
      ground (
        arith,
        mine,
        find-write r e.workflow_id id (set_state paused) (λ x. refl),
        find-write r e.workflow_id j (set_state paused) (λ x. refl),
        find-write w e.workflow_id j (set_state running) (λ x. refl),
        str_eq_iff e.workflow_id id,
        str_eq_iff e.workflow_id j,
        ap (find r) {x = id} {y = j},
      ))

-- In a valid registry an exit code never removes or changes a paused workflow, not even its own
-- process's: the completion task settles only running ones. So a paused workflow whose process dies
-- stays.
pub paused_stays :
    (r : Registry) (x : Exit) (j : Bytes) (e : Entry)
    → IsValid r
    → find r j ≡ some e
    → e.state ≡ paused
    → find (handle r x) j ≡ some e
paused_stays r x j e h at p = elim (Option-cases (match_pid x.slot.pid r.head)) [
  | inl absent ↦ rw (handle_exit_unmatched r x.slot x.mem x.fork x.now (inl absent)) at
  | inr (m, hit) ↦ elim (Bool-cases x.mem) [
    | inr denied ↦ rw (handle_exit_unmatched r x.slot x.mem x.fork x.now (inr denied)) at
    | inl given ↦
        let found : find r m.workflow_id ≡ some m = match_pid-find_id r x.slot.pid h hit in
        let runs = (match_pid-find x.slot.pid r.head {e = m} h.distinct hit).2 in
        ground (
          arith,
          handle_exit_matched r x.slot x.fork x.now m j h hit,
          str_eq_iff m.workflow_id j,
          ap (find r) {x = m.workflow_id} {y = j},
          runs,
          ap (λ (q : Entry). q.state) {x = e} {y = m},
        )
  ]
]

handle_list_paused :
    (r : Registry) (xs : List Exit) (j : Bytes) (e : Entry)
    → IsValid r
    → find r j ≡ some e
    → e.state ≡ paused
    → find (handle_list r xs) j ≡ some e
unfolding handle_list
handle_list_paused r [] j e h at p = at
handle_list_paused r (x ∷ xs) j e h at p =
    handle_list_paused (handle r x) xs j e (handle_exit-IsValid r x.slot x.mem x.fork x.now h)
      (paused_stays r x j e h at p) p

abandon_paused :
    (r : Registry) (path id : Bytes) (kill : Bool) (e : Entry)
    → workflow_id path ≡ some id
    → find r id ≡ some e
    → e.state ≡ paused
    → api_workflow_abandon r path kill ≡ record {
      registry = write r e.workflow_id with_abandon;
      signals = [];
      status = 200;
      code = success;
    }
unfolding api_workflow_abandon
abandon_paused r path id kill e at found p = ground arith

-- In a valid registry, an abandon of a paused workflow is answered with success and sends no
-- signal, and no exit codes that are handled later remove the workflow.
pub abandoned_paused_stays :
    (r : Registry) (path id : Bytes) (kill : Bool) (e : Entry) (xs : List Exit)
    → IsValid r
    → workflow_id path ≡ some id
    → find r id ≡ some e
    → e.state ≡ paused
    → ((api_workflow_abandon r path kill).code ≡ success)
      × ((api_workflow_abandon r path kill).signals ≡ [])
      × (find (handle_list (api_workflow_abandon r path kill).registry xs) id
          ≡ some (with_abandon e))
unfolding with_abandon
abandoned_paused_stays r path id kill e xs h at found p =
    let w = write r e.workflow_id with_abandon in
    let flagged : find w id ≡ some (with_abandon e) = ground (
      arith,
      find-write r e.workflow_id id with_abandon (λ x. refl),
      find-id r id found,
      str_eq_iff e.workflow_id id,
    ) in
    rw (abandon_paused r path id kill e at found p) (
      refl,
      refl,
      handle_list_paused w xs id (with_abandon e)
          (write-IsValid r e.workflow_id with_abandon (λ x. refl) h) flagged p,
    )
