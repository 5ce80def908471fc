-- ===== src/Error.antt =====
-- The result codes of include/argo_error.h that the modelled code returns.
pub data Code : Type 0 where
  success e_system_memory e_system_fork e_system_process e_system_thread : Code
  e_system_file e_system_io e_workflow_not_found : Code
  e_ci_invalid e_ci_disconnected e_ci_no_provider : Code
  e_input_null e_input_range e_input_format e_input_invalid : Code
  e_invalid_params e_invalid_state e_not_found e_duplicate e_resource_limit : Code
  e_protocol_format e_protocol_queue e_protocol_size e_system_socket : Code

pub Code-discrete : Discrete Code
Code-discrete = hlevel
