-- ===== src/Daemon/Signal/Examples.antt =====
-- The SIGCHLD handler of src/daemon/argo_daemon.c with two children, one of them killed.
use argo.Base.{◌≡◌, ◌++◌, [], ◌∷◌, List, true, some, map, take, length, ◌+◌, ◌-◌}
use argo.ExitQueue
use argo.ExitQueue.Fifo
use argo.ExitQueue.Fifo.{contents}
use argo.Daemon.{Daemon}
use argo.Daemon.Tasks.{Env, completion_task}
use argo.Daemon.Tasks.Drain.{handle_all}
use argo.Daemon.Signal.{Child, exited, signalled, sigchld_handler}
use argo.Daemon.Signal.Reaped.{slot_of, room, completion_task-sigchld_handler}

abbrev ended : List Child
ended = record { pid = 41; status = exited 0 } ∷ record { pid = 42; status = signalled } ∷ []

abbrev daemon : Daemon
daemon = record {
  registry = record { head = []; count = 0 };
  queue = (ExitQueue.push ExitQueue.init 40 3 20).0;
}

abbrev env : Env
env = record { mem = λ s. true; fork = λ s. some 50; now = 22 }

completion_task-sigchld_handler_example :
    let d' = record daemon { queue = sigchld_handler daemon.queue ended 21 } in
    ((completion_task env d').registry
      ≡ handle_all env daemon.registry
          (contents daemon.queue ++ take (room daemon.queue) (map (slot_of 21) ended)))
    × (contents (completion_task env d').queue ≡ [])
    × (d'.queue.dropped ≡ daemon.queue.dropped + (length ended - room daemon.queue))
completion_task-sigchld_handler_example =
    completion_task-sigchld_handler env daemon ended 21
      (Fifo.push-IsValid ExitQueue.init 40 3 20 Fifo.init-IsValid)
