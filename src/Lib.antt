-- ===== src/Lib.antt =====
-- Argo: the daemon that runs bash workflows and manages companion intelligences (CIs).
--
-- The development models the daemon's own state and the functions that change it, in C under
-- src/daemon, with the readers of JSON, YAML, environment and configuration of src/foundation.
-- Logging, printing, allocation and the freeing of memory are left out, but for the outcome of an
-- allocation that a result depends on. The answers of the system (allocator, clock, fork, pipe, kill,
-- stat, mutex) are arguments of the definitions, so that a theorem holds whatever the system answers.
--
-- Requests. The HTTP server parses a request, chooses a handler by its routes and calls it. The start
-- handler reads the fields of the body, makes an ID and calls `daemon_execute_bash_workflow`.
--
-- Workflows. `daemon_execute_bash_workflow` validates a request, registers the workflow and forks
-- bash. When the child ends, the SIGCHLD handler pushes its exit code onto the exit queue; the
-- completion task, which the shared services thread calls every few seconds, drains the queue and
-- removes or retries the workflow. The timeout task and the HTTP endpoints for pause, resume and
-- abandon change its entry in the meantime.
--
-- Companion intelligences. The CI registry holds the CIs with their ports; the lifecycle manager
-- holds their status, task, heartbeats and history, and reports each change to the registry. The
-- socket server reads a client's message and hands it to the registry's messaging, which counts it and
-- sends it by the socket server to the recipient that its text names.
--
-- - Base, Base/Tests, Base/Lists, Base/Text, Base/Nodes: the shared helpers. Nodes is the singly
--   linked list with a string key that the registries search, change and unlink from.
-- - Error: the result codes of include/argo_error.h. A code is a constructor; its number plays no
--   part except in `allocate_port`, which returns E_INPUT_NULL where a port is expected.
-- - ExitQueue: src/daemon/argo_daemon_exit_queue.c. The ring is a list of 128 slots with two
--   indices; Fifo relates it to the list of held entries, Runs to the history of a whole run of
--   atomic operations. Steps has the same operations one statement at a time, for the SIGCHLD handler
--   that interrupts the completion task or runs beside it; Steps/Invariant, Publishing and Draining
--   carry the invariant of the interleaving, and Accounting follows each push. One handler runs at a
--   time, which SIGCHLD in several threads does not ensure. Writes are taken to be seen in program
--   order.
-- - WorkflowRegistry: src/daemon/argo_workflow_registry.c, with the state names of
--   src/workflow/argo_workflow.c. The linked list is a list of entries, with the stored count
--   beside it. A write through the pointer that a search returned is `write`, which changes the
--   first entry with the ID. Map has the specification as a finite map. Saving and loading are
--   left out: the one is file output, the other loads nothing.
-- - Daemon: the fields of include/argo_daemon.h that the workflow code shares. Daemon/Tasks is
--   src/daemon/argo_daemon_tasks.c without log rotation; Daemon/Execute is
--   src/daemon/argo_daemon_workflow.c up to the child's own side; Daemon/Control is the pause and
--   resume endpoints of src/daemon/argo_daemon_workflow_control.c and the abandon endpoint of
--   src/daemon/argo_daemon_workflow_api.c, without the text of the responses.
--   Daemon/Helpers is src/daemon/argo_daemon_workflow_helpers.c, with Args on the arguments of a
--   request, Fresh on the IDs and Rounds on the fuel of its loops; Daemon/Api is the start endpoint and the input endpoint, with
--   Start on the whole way from a body to a registered workflow and Input on the way to the pipe.
--   Daemon/Signal is the SIGCHLD handler of src/daemon/argo_daemon.c, with Reaped on the way from
--   the children that end to the registry. Daemon/Listing is the list and status endpoints of
--   src/daemon/argo_daemon_workflow_api.c with the texts of their responses and the buffer of the
--   list. Daemon/CiApi is src/daemon/argo_daemon_ci_api.c: a provider is a table of functions, and
--   what makes one is an argument; Format is about the response's buffer, Query about the endpoint.
-- - Http: src/daemon/argo_http_server.c, whose handlers are values of a type; Http/Request is the
--   parsing of a request and the answer to a connection, Http/Routes is
--   src/daemon/argo_daemon_api_routes.c, Http/Dispatch is about the choice of a handler.
-- - CString: the operations on C strings that the readers share, with their laws; Layers is the
--   value that the last of some lines gives a name; Print is snprintf into a buffer, and Print/Laws what
--   a buffer holds after it.
-- - Env: src/foundation/argo_env_utils.c and src/foundation/argo_env_load.c. The array is the list of
--   its entries with a capacity; Refinement relates it to a map. Env/Lines reads a line, Env/Expand
--   expands references, Env/Load reads the files; Parse, Expansion and Load/Files are about
--   these, Load/Search about the fuel of the search for the project's file.
-- - Config: src/foundation/argo_config.c, with Layered on the order of its files.
-- - Yaml: src/foundation/argo_yaml.c, with RoundTrip on texts that are read back.
-- - IsolatedEnv: src/foundation/argo_env.c, with Child on what a child process finds.
-- - Messages: src/daemon/argo_registry_messaging.c without the printing of a message; Delivery is
--   about what a message leaves in the CI registry, and Broadcast about the walk over the targets.
-- - CiRegistry: src/daemon/argo_registry.c, without printing, the connection stubs and the arrays
--   of CIs by role. Names are cut to their fields as strncpy does. Ports is about the allocation,
--   Runs about whole runs with registrations under allocated ports.
--   CiRegistry/Persistence is src/daemon/argo_registry_persistence.c, with Saved, Fields and Loading on
--   the parts of a file and RoundTrip on a registry that is saved and loaded; a status without a
--   name, which C would keep as a number, ends the loading with `none`.
-- - Socket: src/foundation/argo_socket.c, its clients, waiting requests and messages; what the system
--   calls return and the tokens of jsmn are arguments. Timeouts compares the check for timeouts with
--   two filters, Valid has the bounds, and Runs is on runs of all operations.
-- - Lifecycle and Lifecycle/Monitoring: src/daemon/argo_lifecycle.c and
--   src/daemon/argo_lifecycle_monitoring.c, without printing and the release of histories. Sync has
--   the agreement with the CI registry; Creation, Ops and Heartbeats are its cases.
-- - Json: src/foundation/argo_json.c and `unescape_json_string` of
--   src/daemon/argo_daemon_workflow_control.c. A buffer is the list of its bytes; a write outside
--   of it is `none`. The unsigned difference of 64 bits is written out. Written is about what the
--   escaping leaves in a buffer.
-- - SharedServices: src/daemon/argo_shared_services.c. While a task runs with the lock released,
--   the operations of other threads are a list. Only the visit of one slot is modelled, not the
--   endless loop around it.
--
-- Numbers are natural numbers: times, PIDs, counters and descriptors are assumed not to reach the
-- bounds of their C types; the indices of the ring and the size of the JSON buffer wrap around as
-- in the code. Differences of times stop at 0, which the tests on them do not tell from a negative
-- difference. A number in a request that an int does not hold wraps around. Paths are taken to be
-- shorter than their buffers.
--
-- Loops on fuel: the drain of the exit queue has 128 rounds, for a ring that holds at most 127 entries;
-- the expansion of a value, and the readers of arguments and variables, have as many rounds as the
-- text has bytes, of which each round reads one; the search for the project's file upwards has one
-- round more than the path has bytes, and each round makes the path shorter.
--
-- Parts not modelled: the set-up of sockets and threads, the providers, the metrics and logs, and the command line
-- programs, which are mostly input and output.
pub mod Base
pub mod Error
pub mod ExitQueue
pub mod WorkflowRegistry
pub mod Daemon
pub mod CiRegistry
pub mod Lifecycle
pub mod Json
pub mod SharedServices
pub mod CString
pub mod Env
pub mod Config
pub mod Yaml
pub mod Http
pub mod IsolatedEnv
pub mod Messages
pub mod Socket
