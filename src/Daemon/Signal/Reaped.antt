-- ===== src/Daemon/Signal/Reaped.antt =====
-- From the children that end to the completion task: `sigchld_handler` of
-- src/daemon/argo_daemon.c and `workflow_completion_task` of src/daemon/argo_daemon_tasks.c.
use mathlib.Core.List.{append-nil, append_assoc}
use argo.Base.{
  ℕ, zero, suc, ◌+◌, ◌-◌, ◌≤◌, ◌≡◌, refl, sym, ap, ◌∙◌, List, [], ◌∷◌, ◌++◌, map, arith, length,
  length-append, take, Bool-cases, inl, inr,
}
use argo.ExitQueue.{Slot, Queue, push}
use argo.ExitQueue.Fifo.{
  IsValid, contents, pushed, has_room, push-IsValid, push-contents, length-contents,
}
use argo.Daemon.{Daemon}
use argo.Daemon.Tasks.{Env, completion_task}
use argo.Daemon.Tasks.Drain.{handle_all, completion_task_lem}
use argo.Daemon.Signal.{Child, exit_code, sigchld_handler}

abbrev pub slot_of : ℕ → Child → Slot
slot_of now c = pushed c.pid (exit_code c.status) now

-- The free places of the ring.
abbrev pub room : Queue → ℕ
room q = 127 - length (contents q)

length_room : (q : Queue) → IsValid q → length (contents q) ≤ 127
length_room q h = omega (arith, length-contents q)

take-nil : (n : ℕ) → take {A = Slot} n [] ≡ []
take-nil zero = refl
take-nil (suc n) = refl

pub sigchld_handler_lem :
    (q : Queue) (cs : List Child) (now : ℕ)
    → IsValid q
    → IsValid (sigchld_handler q cs now)
      × (contents (sigchld_handler q cs now) ≡ contents q ++ take (room q) (map (slot_of now) cs))
      × ((sigchld_handler q cs now).dropped ≡ q.dropped + (length cs - room q))
unfolding sigchld_handler
sigchld_handler_lem q [] now h =
    (h, rw (take-nil (room q)) (sym (append-nil (contents q))), omega arith)
sigchld_handler_lem q (c ∷ cs) now h =
    let q' = (push q c.pid (exit_code c.status) now).0 in
    let did = push-contents q c.pid (exit_code c.status) now h in
    let rest = sigchld_handler_lem q' cs now (push-IsValid q c.pid (exit_code c.status) now h) in
    elim (Bool-cases (has_room q)) [
      | inl free ↦
          let holds : contents q' ≡ contents q ++ slot_of now c ∷ [] = did.0 ∙ rw free refl in
          let longer : length (contents q') ≡ length (contents q) + 1 =
            ap length holds ∙ length-append (contents q) (slot_of now c ∷ []) in
          let fewer : room q ≡ suc (room q') = ground arith in
          let same : q'.dropped ≡ q.dropped = did.1 ∙ rw free refl in
          (
            rest.0,
            rest.1
                ∙ ap (λ (l : List Slot). l ++ take (room q') (map (slot_of now) cs)) holds
                ∙ append_assoc (contents q) _ _
                ∙ ap (λ (n : ℕ). contents q ++ take n (map (slot_of now) (c ∷ cs))) (sym fewer),
            rest.2 ∙ omega arith,
          )
      | inr full ↦
          let holds : contents q' ≡ contents q = did.0 ∙ rw full refl in
          let none_left : room q ≡ 0 = ground arith in
          let none_left' : room q' ≡ 0 = omega (arith, ap length holds) in
          let counted : q'.dropped ≡ q.dropped + 1 = did.1 ∙ rw full refl in
          (
            rest.0,
            rest.1
                ∙ ap (λ (l : List Slot). l ++ take (room q') (map (slot_of now) cs)) holds
                ∙ ap (λ (n : ℕ). contents q ++ take n (map (slot_of now) cs)) none_left'
                ∙ ap (λ (n : ℕ). contents q ++ take n (map (slot_of now) (c ∷ cs))) (sym none_left),
            rest.2 ∙ omega arith,
          )
    ]

-- When children end and the completion task runs after their SIGCHLD, on a valid exit queue: the
-- task handles what the queue held and then the children in the order in which waitpid returned
-- them, each once, up to the free places of the ring; the ring is empty afterwards; and the handler
-- has counted the other children as dropped.
pub completion_task-sigchld_handler :
    (env : Env) (d : Daemon) (cs : List Child) (now : ℕ)
    → IsValid d.queue
    → let d' = record d { queue = sigchld_handler d.queue cs now } in
      ((completion_task env d').registry
        ≡ handle_all env d.registry
            (contents d.queue ++ take (room d.queue) (map (slot_of now) cs)))
      × (contents (completion_task env d').queue ≡ [])
      × (d'.queue.dropped ≡ d.queue.dropped + (length cs - room d.queue))
completion_task-sigchld_handler env d cs now h =
    let d' : Daemon = record d { queue = sigchld_handler d.queue cs now } in
    let reaped = sigchld_handler_lem d.queue cs now h in
    let did = completion_task_lem env d' reaped.0 in
    (did.0 ∙ ap (handle_all env d.registry) reaped.1, did.1, reaped.2)
