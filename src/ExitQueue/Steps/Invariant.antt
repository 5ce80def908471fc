-- ===== src/ExitQueue/Steps/Invariant.antt =====
-- The invariant of the handler and the task on the queue of src/daemon/argo_daemon_exit_queue.c,
-- at every point between two statements.
use argo.Base.{
  Bool, if◌then◌else◌, ℕ, ◌+◌, ◌-◌, ◌%◌, ◌≤◌, ◌<◌, ◌≡◌, true, List, [], ◌∷◌, ◌++◌, length, arith,
  All,
}
use argo.ExitQueue.Steps.{
  Handler, Drainer, World, slot_at, resting, loaded, refusing, incrementing, has_room, wrote_pid,
  wrote_code, wrote_time, wrote_valid, waiting, nonempty, reading, checked, copied, cleared,
  counted,
}
use argo.ExitQueue.{Slot, Queue, queue_size}
use argo.ExitQueue.Fifo.{window, fill, front, pushed}

-- What the task has copied out of a slot that it has cleared but not yet released.
abbrev pub in_hand : Drainer → List Slot
in_hand (cleared i e) = e ∷ []
in_hand d = []

abbrev pub skip : Drainer → ℕ
skip d = length (in_hand d)

-- The published entries that are not yet handed over.
abbrev pub pending : Queue → Drainer → List Slot
pending q d = in_hand d ++ window q.entries ((q.read_idx + skip d) % queue_size) (fill q - skip d)

-- The handler's write index is the current one, there is room, and the fields that it has written
-- stand in the slot.
abbrev pub HandlerOk : Handler → Queue → Type 0
HandlerOk resting q = Unit
HandlerOk (loaded p c i) q = i ≡ q.write_idx
HandlerOk refusing q = Unit
HandlerOk (incrementing n) q = Unit
HandlerOk (has_room p c i) q = (i ≡ q.write_idx) × (fill q < 127)
HandlerOk (wrote_pid p c i) q = (i ≡ q.write_idx) × (fill q < 127) × ((slot_at q i).pid ≡ p)
HandlerOk (wrote_code p c i) q =
    (i ≡ q.write_idx) × (fill q < 127) × ((slot_at q i).pid ≡ p) × ((slot_at q i).exit_code ≡ c)
HandlerOk (wrote_time p c i t) q =
    (i ≡ q.write_idx)
    × (fill q < 127)
    × ((slot_at q i).pid ≡ p)
    × ((slot_at q i).exit_code ≡ c)
    × ((slot_at q i).timestamp ≡ t)
HandlerOk (wrote_valid p c i t) q =
    (i ≡ q.write_idx) × (fill q < 127) × (slot_at q i ≡ pushed p c t)

abbrev pub DrainerOk : Drainer → Queue → Type 0
DrainerOk waiting q = Unit
DrainerOk nonempty q = 1 ≤ fill q
DrainerOk (reading i) q = (i ≡ q.read_idx) × (1 ≤ fill q)
DrainerOk (checked i) q = (i ≡ q.read_idx) × (1 ≤ fill q)
DrainerOk (copied i e) q = (i ≡ q.read_idx) × (1 ≤ fill q) × (e ≡ front q)
DrainerOk (cleared i e) q = (i ≡ q.read_idx) × (1 ≤ fill q)
DrainerOk (counted n) q = Unit

-- The counter that the handler has read: no more than the refused pushes, and the counter itself as
-- long as it is not reset.
abbrev pub CountOk : Handler → ℕ → ℕ → Bool → Type 0
CountOk (incrementing n) dropped refused was_reset =
    (n ≤ refused) × ((if was_reset then n else dropped) ≡ n)
CountOk h dropped refused was_reset = Unit

pub record Ok (q : Queue) (h : Handler) (d : Drainer) (taken given : List Slot) (refused : ℕ)
    (was_reset : Bool) (unmarked : ℕ) : Type 0 where
  pub sized : length q.entries ≡ queue_size
  pub write_bound : q.write_idx < queue_size
  pub read_bound : q.read_idx < queue_size
  pub in_handler : HandlerOk h q
  pub in_drainer : DrainerOk d q
  pub marked : All (λ e. e.valid ≡ true) (pending q d)
  pub in_order : given ++ pending q d ≡ taken
  pub none_unmarked : unmarked ≡ 0
  pub in_count : CountOk h q.dropped refused was_reset
  pub dropped_le : q.dropped ≤ refused
  pub exact : (if was_reset then refused else q.dropped) ≡ refused

abbrev pub Holds : World → Type 0
Holds w = Ok w.queue w.handler w.drainer w.taken_in w.given_out w.refused w.was_reset w.unmarked

-- What the task has in hand is among what the indices enclose.
pub skip_le : (q : Queue) (d : Drainer) → DrainerOk d q → skip d ≤ fill q
skip_le q waiting h = omega arith
skip_le q nonempty h = omega arith
skip_le q (reading i) h = omega arith
skip_le q (checked i) h = omega arith
skip_le q (copied i e) h = omega arith
skip_le q (cleared i e) h = h.1
skip_le q (counted n) h = omega arith

pub skip_bound : (d : Drainer) → skip d ≤ 1
skip_bound waiting = omega arith
skip_bound nonempty = omega arith
skip_bound (reading i) = omega arith
skip_bound (checked i) = omega arith
skip_bound (copied i e) = omega arith
skip_bound (cleared i e) = omega arith
skip_bound (counted n) = omega arith
