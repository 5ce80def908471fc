-- ===== src/ExitQueue.antt =====
-- The exit code queue of src/daemon/argo_daemon_exit_queue.c and
-- include/argo_daemon_exit_queue.h: a ring of 128 slots that the SIGCHLD handler fills and the
-- completion task drains. The clock is an argument of `push`.
pub mod Fifo
pub mod Runs
pub mod Steps
mod Examples
use argo.Base.{
  ℕ, ◌+◌, ◌%◌, Bool, true, false, List, Option, none, some, ◌==◌, if◌then◌else◌, get_or, set,
  replicate,
}

pub record Slot : Type 0 where
  pub pid : ℕ
  pub exit_code : ℕ
  pub timestamp : ℕ
  pub valid : Bool

pub record Queue : Type 0 where
  pub entries : List Slot
  pub write_idx : ℕ
  pub read_idx : ℕ
  pub dropped : ℕ

abbrev pub queue_size : ℕ
queue_size = 128

abbrev pub zero_slot : Slot
zero_slot = record { pid = 0; exit_code = 0; timestamp = 0; valid = false }

unfoldable pub init : Queue
init = record { entries = replicate queue_size zero_slot; write_idx = 0; read_idx = 0; dropped = 0 }

unfoldable pub push : Queue → ℕ → ℕ → ℕ → Queue × Bool
push q pid exit_code now =
    let next_write = (q.write_idx + 1) % queue_size in
    if next_write == q.read_idx then (record q { dropped = q.dropped + 1 }, false) else (
      record q {
        entries =
            set q.entries q.write_idx
              (record { pid = pid; exit_code = exit_code; timestamp = now; valid = true });
        write_idx = next_write;
      },
      true,
    )

-- The read after the emptiness test, on the slot at the read index.
unfoldable pub take_slot : Queue → Slot → Queue × Option Slot
take_slot q e =
    if e.valid
    then (
      record q {
        entries = set q.entries q.read_idx (record e { valid = false });
        read_idx = (q.read_idx + 1) % queue_size;
      },
      some e,
    )
    else (q, none)

unfoldable pub pop : Queue → Queue × Option Slot
unfolding take_slot
pop q =
    if q.read_idx == q.write_idx
    then (q, none)
    else take_slot q (get_or q.entries q.read_idx zero_slot)

unfoldable pub get_dropped : Queue → Queue × ℕ
get_dropped q = (record q { dropped = 0 }, q.dropped)

unfoldable pub is_empty : Queue → Bool
is_empty q = q.read_idx == q.write_idx
