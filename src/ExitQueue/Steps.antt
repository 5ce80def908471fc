-- ===== src/ExitQueue/Steps.antt =====
-- The exit code queue of src/daemon/argo_daemon_exit_queue.c one statement at a time: the SIGCHLD
-- handler of src/daemon/argo_daemon.c can run between any two statements of the completion task
-- of src/daemon/argo_daemon_tasks.c, and on another thread the two interleave. One handler runs at a
-- time, which the design of the ring asks for; SIGCHLD is blocked only in the thread that handles it,
-- so the program does not ensure that another thread does not handle a second one meanwhile. The
-- increment of the counter is a load and a store.
pub mod Invariant
pub mod Accounting
mod Publishing
mod Draining
pub mod Interleaving
use argo.Base.{
  ℕ, ◌+◌, ◌%◌, Bool, true, false, List, [], ◌∷◌, ◌++◌, ◌==◌, if◌then◌else◌, get_or, set,
}
use argo.ExitQueue.{Slot, Queue, queue_size, zero_slot, init}
use argo.ExitQueue.Fifo.{pushed}

-- Where the handler stands in exit_queue_push, with its locals: the PID, the exit code and the
-- write index that it has read; of a refused push, the counter that it has read.
pub data Handler : Type 0 where
  resting : Handler
  loaded : ℕ → ℕ → ℕ → Handler
  refusing : Handler
  incrementing : ℕ → Handler
  has_room : ℕ → ℕ → ℕ → Handler
  wrote_pid : ℕ → ℕ → ℕ → Handler
  wrote_code : ℕ → ℕ → ℕ → Handler
  wrote_time : ℕ → ℕ → ℕ → ℕ → Handler
  wrote_valid : ℕ → ℕ → ℕ → ℕ → Handler

-- Where the task stands in exit_queue_pop or exit_queue_get_dropped.
pub data Drainer : Type 0 where
  waiting : Drainer
  nonempty : Drainer
  reading : ℕ → Drainer
  checked : ℕ → Drainer
  copied : ℕ → Slot → Drainer
  cleared : ℕ → Slot → Drainer
  counted : ℕ → Drainer

-- The shared ring and both sides, with the history: the number of the pushes, the entries published
-- and handed over, the refused pushes, whether the counter was ever reset, and the pops that found
-- an unmarked entry.
pub record World : Type 0 where
  pub queue : Queue
  pub handler : Handler
  pub drainer : Drainer
  pub entered : ℕ
  pub taken_in : List Slot
  pub given_out : List Slot
  pub refused : ℕ
  pub was_reset : Bool
  pub unmarked : ℕ

abbrev pub slot_at : Queue → ℕ → Slot
slot_at q i = get_or q.entries i zero_slot

abbrev pub write_slot : Queue → ℕ → Slot → Queue
write_slot q i e = record q { entries = set q.entries i e }

-- The next statement of the handler; `now` is what time(NULL) returns there.
unfoldable pub handler_step : World → Handler → ℕ → World
handler_step w resting now = w
handler_step w (loaded p c i) now =
    if (i + 1) % queue_size == w.queue.read_idx
    then record w { handler = refusing }
    else record w { handler = has_room p c i }
handler_step w refusing now = record w { handler = incrementing w.queue.dropped }
handler_step w (incrementing n) now = record w {
  queue = record (w.queue) { dropped = n + 1 };
  handler = resting;
  refused = w.refused + 1;
}
handler_step w (has_room p c i) now = record w {
  queue = write_slot w.queue i (record (slot_at w.queue i) { pid = p });
  handler = wrote_pid p c i;
}
handler_step w (wrote_pid p c i) now = record w {
  queue = write_slot w.queue i (record (slot_at w.queue i) { exit_code = c });
  handler = wrote_code p c i;
}
handler_step w (wrote_code p c i) now = record w {
  queue = write_slot w.queue i (record (slot_at w.queue i) { timestamp = now });
  handler = wrote_time p c i now;
}
handler_step w (wrote_time p c i t) now = record w {
  queue = write_slot w.queue i (record (slot_at w.queue i) { valid = true });
  handler = wrote_valid p c i t;
}
handler_step w (wrote_valid p c i t) now = record w {
  queue = record (w.queue) { write_idx = (i + 1) % queue_size };
  handler = resting;
  taken_in = w.taken_in ++ pushed p c t ∷ [];
}

-- The next statement of the task.
unfoldable pub drainer_step : World → Drainer → World
drainer_step w waiting = w
drainer_step w nonempty = record w { drainer = reading w.queue.read_idx }
drainer_step w (reading i) =
    if (slot_at w.queue i).valid
    then record w { drainer = checked i }
    else record w { drainer = waiting; unmarked = w.unmarked + 1 }
drainer_step w (checked i) = record w { drainer = copied i (slot_at w.queue i) }
drainer_step w (copied i e) = record w {
  queue = write_slot w.queue i (record (slot_at w.queue i) { valid = false });
  drainer = cleared i e;
}
drainer_step w (cleared i e) = record w {
  queue = record (w.queue) { read_idx = (i + 1) % queue_size };
  drainer = waiting;
  given_out = w.given_out ++ e ∷ [];
}
drainer_step w (counted n) = record w {
  queue = record (w.queue) { dropped = 0 };
  drainer = waiting;
  was_reset = true;
}

-- A child ends; while the handler runs, the next one waits.
unfoldable pub enter_push : World → Handler → ℕ → ℕ → World
enter_push w resting p c = record w {
  handler = loaded p c w.queue.write_idx;
  entered = w.entered + 1;
}
enter_push w h p c = w

-- The task calls exit_queue_pop, which compares the two indices first.
unfoldable pub enter_pop : World → Drainer → World
enter_pop w waiting =
    if w.queue.read_idx == w.queue.write_idx then w else record w { drainer = nonempty }
enter_pop w d = w

-- The task calls exit_queue_get_dropped, which reads the counter first.
unfoldable pub enter_get_dropped : World → Drainer → World
enter_get_dropped w waiting = record w { drainer = counted w.queue.dropped }
enter_get_dropped w d = w

pub data Move : Type 0 where
  child_ends : ℕ → ℕ → Move
  handler_runs : ℕ → Move
  pop_called : Move
  get_dropped_called : Move
  drainer_runs : Move

unfoldable pub move : World → Move → World
move w (child_ends p c) = enter_push w w.handler p c
move w (handler_runs now) = handler_step w w.handler now
move w pop_called = enter_pop w w.drainer
move w get_dropped_called = enter_get_dropped w w.drainer
move w drainer_runs = drainer_step w w.drainer

unfoldable pub schedule : World → List Move → World
schedule w [] = w
schedule w (m ∷ ms) = schedule (move w m) ms

abbrev pub start : World
start = record {
  queue = init;
  handler = resting;
  drainer = waiting;
  entered = 0;
  taken_in = [];
  given_out = [];
  refused = 0;
  was_reset = false;
  unmarked = 0;
}
