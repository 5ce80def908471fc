-- ===== src/ExitQueue/Runs.antt =====
-- Whole runs of the exit code queue: pushes by the SIGCHLD handler and pops by the completion
-- task of src/daemon/argo_daemon_exit_queue.c in any order.
use mathlib.Core.List.{append_assoc}
use argo.Base.{
  ℕ, ◌+◌, ◌≡◌, refl, sym, ap, ◌∙◌, List, [], ◌∷◌, ◌++◌, if◌then◌else◌, Bool-cases, inl, inr,
}
use argo.ExitQueue.{Slot, Queue, init, push, pop}
use argo.ExitQueue.Fifo.{
  IsValid, contents, pushed, handed, has_room, init-IsValid, push-IsValid, pop-IsValid,
  push-contents, pop-contents,
}

pub data Op : Type 0 where
  push_op : ℕ → ℕ → ℕ → Op
  pop_op : Op

-- The queue, all entries that were accepted, all that were handed over, and the refused pushes.
pub record Trace : Type 0 where
  pub queue : Queue
  pub taken_in : List Slot
  pub given_out : List Slot
  pub refused : ℕ

abbrev pub start : Trace
start = record { queue = init; taken_in = []; given_out = []; refused = 0 }

unfoldable pub step : Trace → Op → Trace
step t (push_op p c now) =
    let r = push t.queue p c now in
    record {
      queue = r.0;
      taken_in = if r.1 then t.taken_in ++ pushed p c now ∷ [] else t.taken_in;
      given_out = t.given_out;
      refused = if r.1 then t.refused else t.refused + 1;
    }
step t pop_op =
    let r = pop t.queue in
    record {
      queue = r.0;
      taken_in = t.taken_in;
      given_out = t.given_out ++ handed r.1;
      refused = t.refused;
    }

unfoldable pub run : Trace → List Op → Trace
run t [] = t
run t (o ∷ os) = run (step t o) os

pub record Conserves (t : Trace) : Type 0 where
  pub valid : IsValid t.queue
  pub in_order : t.given_out ++ contents t.queue ≡ t.taken_in
  pub counted : t.queue.dropped ≡ t.refused

step_push-Conserves : (t : Trace) (p c now : ℕ) → Conserves t → Conserves (step t (push_op p c now))
unfolding step
step_push-Conserves t p c now h =
    let did = push-contents t.queue p c now h.valid in
    record {
      valid = push-IsValid t.queue p c now h.valid;
      in_order = elim (Bool-cases (has_room t.queue)) [
        | inl room ↦
            rw (did.0, did.2, room)
              (sym (append_assoc t.given_out _ _)
                ∙ ap (λ (l : List Slot). l ++ pushed p c now ∷ []) h.in_order)
        | inr full ↦ rw (did.0, did.2, full) h.in_order
      ];
      counted = elim (Bool-cases (has_room t.queue)) [
        | inl room ↦ rw (did.1, did.2, room) h.counted
        | inr full ↦ rw (did.1, did.2, full) (ap (λ (n : ℕ). n + 1) h.counted)
      ];
    }

step_pop-Conserves : (t : Trace) → Conserves t → Conserves (step t pop_op)
unfolding step
step_pop-Conserves t h =
    let did = pop-contents t.queue h.valid in
    record {
      valid = pop-IsValid t.queue h.valid;
      in_order = append_assoc t.given_out _ _ ∙ ap (◌++◌ t.given_out) did.1 ∙ h.in_order;
      counted = did.2 ∙ h.counted;
    }

step-Conserves : (t : Trace) (o : Op) → Conserves t → Conserves (step t o)
step-Conserves t (push_op p c now) h = step_push-Conserves t p c now h
step-Conserves t pop_op h = step_pop-Conserves t h

run_from-Conserves : (t : Trace) (os : List Op) → Conserves t → Conserves (run t os)
unfolding run
run_from-Conserves t [] h = h
run_from-Conserves t (o ∷ os) h = run_from-Conserves (step t o) os (step-Conserves t o h)

-- After any pushes and pops on a fresh queue, the entries handed over, followed by those still
-- held, are the accepted entries in the order in which they were pushed: none is lost, repeated or
-- overtaken. The dropped counter is the number of refused pushes.
pub run-Conserves : (os : List Op) → Conserves (run start os)
run-Conserves os =
    run_from-Conserves start os (record {
      valid = init-IsValid;
      in_order = unfold init in refl;
      counted = unfold init in refl;
    })
