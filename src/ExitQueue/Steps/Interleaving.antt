-- ===== src/ExitQueue/Steps/Interleaving.antt =====
-- Every interleaving of the handler and the task on the queue of
-- src/daemon/argo_daemon_exit_queue.c, statement by statement.
use argo.Base.{
  ◌+◌, length, if◌then◌else◌, ℕ, ◌≤◌, ◌≡◌, refl, List, [], ◌∷◌, ◌++◌, arith, Bool-cases, inl, inr,
  ◌==◌,
}
use argo.ExitQueue.Steps.{
  Handler, Drainer, World, Move, start, move, schedule, enter_push, enter_pop, enter_get_dropped,
  resting, loaded, waiting, nonempty, counted, child_ends, handler_runs, pop_called,
  get_dropped_called, drainer_runs,
}
use argo.ExitQueue.{init}
use argo.ExitQueue.Steps.Invariant.{Holds, pending}
use argo.ExitQueue.Steps.Accounting.{in_progress, Accounted, move-Accounted}
use argo.ExitQueue.Steps.Publishing.{Ok-handler, handler_step-Holds}
use argo.ExitQueue.Steps.Draining.{Ok-drainer, drainer_step-Holds}

enter_push-Holds :
    (w : World) (h : Handler) (p c : ℕ) → w.handler ≡ h → Holds w → Holds (enter_push w h p c)
unfolding enter_push
enter_push-Holds w resting p c at ok =
    Ok-handler w.queue w.handler (loaded p c w.queue.write_idx) w.drainer ok refl tt
enter_push-Holds w h p c at ok = ok

enter_pop-Holds : (w : World) (d : Drainer) → w.drainer ≡ d → Holds w → Holds (enter_pop w d)
unfolding enter_pop
enter_pop-Holds w waiting at ok = elim (Bool-cases (w.queue.read_idx == w.queue.write_idx)) [
  | inl same ↦ rw same ok
  | inr apart ↦
      let hr = ok.read_bound in
      let hw = ok.write_bound in
      rw apart (Ok-drainer w.queue w.handler w.drainer nonempty ok (rw at refl) refl (ground arith))
]
enter_pop-Holds w d at ok = ok

enter_get_dropped-Holds :
    (w : World) (d : Drainer) → w.drainer ≡ d → Holds w → Holds (enter_get_dropped w d)
unfolding enter_get_dropped
enter_get_dropped-Holds w waiting at ok =
    Ok-drainer w.queue w.handler w.drainer (counted w.queue.dropped) ok (rw at refl) refl tt
enter_get_dropped-Holds w d at ok = ok

move-Holds : (w : World) (m : Move) → Holds w → Holds (move w m)
unfolding move
move-Holds w (child_ends p c) ok = enter_push-Holds w w.handler p c refl ok
move-Holds w (handler_runs now) ok = handler_step-Holds w w.handler now ok refl
move-Holds w pop_called ok = enter_pop-Holds w w.drainer refl ok
move-Holds w get_dropped_called ok = enter_get_dropped-Holds w w.drainer refl ok
move-Holds w drainer_runs ok = drainer_step-Holds w w.drainer ok refl

start-Holds : Holds start
unfolding init
start-Holds = record {
  sized = refl;
  write_bound = omega arith;
  read_bound = omega arith;
  in_handler = tt;
  in_drainer = tt;
  marked = tt;
  in_order = refl;
  none_unmarked = refl;
  in_count = tt;
  dropped_le = omega arith;
  exact = refl;
}

schedule_from-Holds : (w : World) (ms : List Move) → Holds w → Holds (schedule w ms)
unfolding schedule
schedule_from-Holds w [] ok = ok
schedule_from-Holds w (m ∷ ms) ok = schedule_from-Holds (move w m) ms (move-Holds w m ok)

schedule_from-Accounted : (w : World) (ms : List Move) → Accounted w → Accounted (schedule w ms)
unfolding schedule
schedule_from-Accounted w [] ok = ok
schedule_from-Accounted w (m ∷ ms) ok =
    schedule_from-Accounted (move w m) ms (move-Accounted w m ok)

-- However the statements of one SIGCHLD handler at a time and of the task interleave on a fresh queue,
-- the load and the store of the counter's increment included, the
-- entries handed over, followed by those that are published and not yet handed over, are the
-- published ones in their order, with the fields that the handler was given; no pop ever finds an
-- entry without its mark; and the counter never exceeds the refused pushes, and is their number as
-- long as get_dropped has not reset it. Every push is published, refused or in progress.
pub schedule_lem :
    (ms : List Move)
    → let w = schedule start ms in
      (w.given_out ++ pending w.queue w.drainer ≡ w.taken_in)
      × (w.unmarked ≡ 0)
      × (w.queue.dropped ≤ w.refused)
      × (length w.taken_in + w.refused + in_progress w.handler ≡ w.entered)
      × ((if w.was_reset then w.refused else w.queue.dropped) ≡ w.refused)
schedule_lem ms =
    let ok = schedule_from-Holds start ms start-Holds in
    (ok.in_order, ok.none_unmarked, ok.dropped_le, schedule_from-Accounted start ms refl, ok.exact)
