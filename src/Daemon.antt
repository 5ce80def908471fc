-- ===== src/Daemon.antt =====
-- The parts of the daemon (include/argo_daemon.h) that the workflow code shares: the workflow
-- registry and the exit code queue.
pub mod Helpers
pub mod Api
pub mod Tasks
pub mod CiApi
pub mod Listing
pub mod Signal
pub mod Control
pub mod Execute
use argo.WorkflowRegistry
use argo.ExitQueue

pub record Daemon : Type 0 where
  pub registry : WorkflowRegistry.Registry
  pub queue : ExitQueue.Queue
