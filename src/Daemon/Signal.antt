-- ===== src/Daemon/Signal.antt =====
-- The SIGCHLD handler of src/daemon/argo_daemon.c. What its calls of waitpid return, up to the first
-- that finds no ended child, is a list of children; the clock is an argument.
pub mod Reaped
mod Examples
use argo.Base.{ℕ, List, [], ◌∷◌}
use argo.ExitQueue.{Queue, push}

-- A status for which WIFEXITED holds, with its WEXITSTATUS, or another.
pub data Status : Type 0 where
  exited : ℕ → Status
  signalled : Status

pub record Child : Type 0 where
  pub pid : ℕ
  pub status : Status

unfoldable pub exit_code : Status → ℕ
exit_code (exited c) = c
exit_code signalled = 1

unfoldable pub sigchld_handler : Queue → List Child → ℕ → Queue
unfolding exit_code
sigchld_handler q [] now = q
sigchld_handler q (c ∷ cs) now = sigchld_handler (push q c.pid (exit_code c.status) now).0 cs now
