-- ===== src/ExitQueue/Examples.antt =====
-- Runs of the exit code queue of src/daemon/argo_daemon_exit_queue.c.
use argo.Base.{length, ◌≡◌, refl, ◌++◌, [], ◌∷◌, List, some, if◌then◌else◌, ◌+◌, ◌≤◌}
use argo.ExitQueue.{Queue, init, push, pop}
use argo.ExitQueue.Fifo.{
  IsValid, contents, pushed, handed, oldest, has_room, init-IsValid, push-IsValid, push-contents,
  pop-contents,
}
use argo.ExitQueue.Steps
use argo.ExitQueue.Steps.{
  World, Move, child_ends, handler_runs, pop_called, get_dropped_called, drainer_runs, schedule,
  resting, loaded, waiting,
}
use argo.ExitQueue.Steps.Accounting.{in_progress}
use argo.ExitQueue.Steps.Invariant.{pending}
use argo.ExitQueue.Steps.Interleaving.{schedule_lem}
use argo.ExitQueue.Runs.{Op, push_op, pop_op}

abbrev one_held : Queue
one_held = (push init 41 0 7).0

one_held-IsValid : IsValid one_held
one_held-IsValid = push-IsValid init 41 0 7 init-IsValid

push-contents_example :
    (contents (push one_held 42 1 8).0
      ≡ (if has_room one_held then contents one_held ++ pushed 42 1 8 ∷ [] else contents one_held))
    × ((push one_held 42 1 8).0.dropped
        ≡ (if has_room one_held then one_held.dropped else one_held.dropped + 1))
    × ((push one_held 42 1 8).1 ≡ has_room one_held)
push-contents_example = push-contents one_held 42 1 8 one_held-IsValid

pop-contents_example :
    ((pop one_held).1 ≡ oldest (contents one_held))
    × (handed (pop one_held).1 ++ contents (pop one_held).0 ≡ contents one_held)
    × ((pop one_held).0.dropped ≡ one_held.dropped)
pop-contents_example = pop-contents one_held one_held-IsValid

abbrev script : List Op
script = push_op 41 0 7 ∷ push_op 42 1 8 ∷ pop_op ∷ push_op 43 0 9 ∷ pop_op ∷ pop_op ∷ pop_op ∷ []

-- The oldest of two comes first.
pop_test : (pop (push one_held 42 1 8).0).1 ≡ some (pushed 41 0 7)
unfolding pop push init
pop_test = refl

-- The second child ends while the task stands between the copy of the first entry and its release.
abbrev crossing : List Move
crossing =
    child_ends 41 0
    ∷ handler_runs 7
    ∷ handler_runs 7
    ∷ handler_runs 7
    ∷ handler_runs 7
    ∷ handler_runs 7
    ∷ handler_runs 7
    ∷ pop_called
    ∷ drainer_runs
    ∷ drainer_runs
    ∷ drainer_runs
    ∷ child_ends 42 1
    ∷ handler_runs 8
    ∷ handler_runs 8
    ∷ drainer_runs
    ∷ handler_runs 8
    ∷ drainer_runs
    ∷ handler_runs 8
    ∷ handler_runs 8
    ∷ handler_runs 8
    ∷ []

schedule_lem_example :
    let w = schedule Steps.start crossing in
    (w.given_out ++ pending w.queue w.drainer ≡ w.taken_in)
    × (w.unmarked ≡ 0)
    × (w.queue.dropped ≤ w.refused)
    × (length w.taken_in + w.refused + in_progress w.handler ≡ w.entered)
    × ((if w.was_reset then w.refused else w.queue.dropped) ≡ w.refused)
schedule_lem_example = schedule_lem crossing

crossing_test : (schedule Steps.start crossing).given_out ≡ pushed 41 0 7 ∷ []
unfolding schedule Steps.move init Steps.handler_step Steps.drainer_step Steps.enter_push
    Steps.enter_pop
crossing_test = refl

-- A full ring, a refused push whose increment the task's reset comes into, and the counter that has
-- been reported and comes back.
abbrev overlap : List Move
overlap =
    child_ends 43 0
    ∷ handler_runs 9
    ∷ handler_runs 9
    ∷ get_dropped_called
    ∷ drainer_runs
    ∷ handler_runs 9
    ∷ []

abbrev full_counted : World
full_counted = record (Steps.start) { queue = record init { write_idx = 127; dropped = 5 } }

comes_back : (schedule full_counted overlap).queue.dropped ≡ 6
unfolding schedule Steps.move init Steps.handler_step Steps.drainer_step Steps.enter_push
    Steps.enter_get_dropped
comes_back = refl
