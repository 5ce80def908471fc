-- ===== src/ExitQueue/Steps/Accounting.antt =====
-- What becomes of each push onto the queue of src/daemon/argo_daemon_exit_queue.c.
use argo.Base.{
  ℕ, ◌+◌, ◌%◌, ◌≡◌, refl, [], ◌∷◌, length, length-append, arith, Bool-cases, inl, inr, ◌==◌,
}
use argo.ExitQueue.{queue_size}
use argo.ExitQueue.Fifo.{pushed}
use argo.ExitQueue.Steps.{
  Handler, Drainer, World, Move, move, handler_step, drainer_step, enter_push, enter_pop,
  enter_get_dropped, slot_at, resting, loaded, refusing, incrementing, has_room, wrote_pid,
  wrote_code, wrote_time, wrote_valid, waiting, nonempty, reading, checked, copied, cleared,
  counted, child_ends, handler_runs, pop_called, get_dropped_called, drainer_runs,
}

-- The push that the handler is in.
abbrev pub in_progress : Handler → ℕ
in_progress resting = 0
in_progress h = 1

-- Every push is published, refused or in progress.
abbrev pub Accounted : World → Type 0
Accounted w = length w.taken_in + w.refused + in_progress w.handler ≡ w.entered

handler_step-Accounted :
    (w : World) (h : Handler) (now : ℕ)
    → w.handler ≡ h
    → length w.taken_in + w.refused + in_progress h ≡ w.entered
    → Accounted (handler_step w h now)
unfolding handler_step
handler_step-Accounted w resting now at ok = rw at ok
handler_step-Accounted w (loaded p c i) now at ok =
    elim (Bool-cases ((i + 1) % queue_size == w.queue.read_idx)) [
      | inl full ↦ rw full ok
      | inr free ↦ rw free ok
    ]
handler_step-Accounted w refusing now at ok = ok
handler_step-Accounted w (incrementing n) now at ok = omega arith
handler_step-Accounted w (has_room p c i) now at ok = ok
handler_step-Accounted w (wrote_pid p c i) now at ok = ok
handler_step-Accounted w (wrote_code p c i) now at ok = ok
handler_step-Accounted w (wrote_time p c i t) now at ok = ok
handler_step-Accounted w (wrote_valid p c i t) now at ok =
    omega (arith, length-append w.taken_in (pushed p c t ∷ []))

drainer_step-Accounted : (w : World) (d : Drainer) → Accounted w → Accounted (drainer_step w d)
unfolding drainer_step
drainer_step-Accounted w waiting ok = ok
drainer_step-Accounted w nonempty ok = ok
drainer_step-Accounted w (reading i) ok = elim (Bool-cases (slot_at w.queue i).valid) [
  | inl marked ↦ rw marked ok
  | inr unmarked ↦ rw unmarked ok
]
drainer_step-Accounted w (checked i) ok = ok
drainer_step-Accounted w (copied i e) ok = ok
drainer_step-Accounted w (cleared i e) ok = ok
drainer_step-Accounted w (counted n) ok = ok

enter_push-Accounted :
    (w : World) (h : Handler) (p c : ℕ)
    → length w.taken_in + w.refused + in_progress h ≡ w.entered
    → Accounted w
    → Accounted (enter_push w h p c)
unfolding enter_push
enter_push-Accounted w resting p c rest ok = omega arith
enter_push-Accounted w h p c rest ok = ok

enter_pop-Accounted : (w : World) (d : Drainer) → Accounted w → Accounted (enter_pop w d)
unfolding enter_pop
enter_pop-Accounted w waiting ok = elim (Bool-cases (w.queue.read_idx == w.queue.write_idx)) [
  | inl same ↦ rw same ok
  | inr apart ↦ rw apart ok
]
enter_pop-Accounted w d ok = ok

enter_get_dropped-Accounted :
    (w : World) (d : Drainer) → Accounted w → Accounted (enter_get_dropped w d)
unfolding enter_get_dropped
enter_get_dropped-Accounted w waiting ok = ok
enter_get_dropped-Accounted w d ok = ok

pub move-Accounted : (w : World) (m : Move) → Accounted w → Accounted (move w m)
unfolding move
move-Accounted w (child_ends p c) ok = enter_push-Accounted w w.handler p c ok ok
move-Accounted w (handler_runs now) ok = handler_step-Accounted w w.handler now refl ok
move-Accounted w pop_called ok = enter_pop-Accounted w w.drainer ok
move-Accounted w get_dropped_called ok = enter_get_dropped-Accounted w w.drainer ok
move-Accounted w drainer_runs ok = drainer_step-Accounted w w.drainer ok
