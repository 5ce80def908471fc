-- ===== src/Daemon/Listing/Examples.antt =====
-- The list and the status of a workflow (src/daemon/argo_daemon_workflow_api.c).
use argo.Base.{
  ℕ, ◌≡◌, refl, true, false, [], ◌∷◌, Option, some, arith, Bytes, codes, replicate,
  length-replicate, All, str_eq,
}
use argo.Base.Nodes.{find_node}
use argo.CString.Print.{decimal}
use argo.Error.{success}
use argo.Http.Request.{fresh_response, http_response_set_json}
use argo.WorkflowRegistry.{paused, Entry, Registry, state_to_string, find}
use argo.Daemon.Control.{workflow_id}
use argo.Daemon.Listing.{list_size, api_workflow_list, api_workflow_status, item_text, status_text}
use argo.Daemon.Listing.Items.{Fits}
use argo.Daemon.Listing.Responses.{list_text, api_workflow_list_lem}

abbrev entry : Bytes → ℕ → Entry
entry id pid = record {
  workflow_id = id;
  workflow_name = codes "build.sh";
  state = paused;
  executor_pid = pid;
  stdin_pipe = 5;
  start_time = 10;
  end_time = 0;
  exit_code = 0;
  abandon_requested = false;
  current_step = 0;
  total_steps = 1;
  timeout_seconds = 3600;
  retry_count = 0;
  max_retries = 3;
  last_retry_time = 0;
}

abbrev two : Registry
two = record { head = entry (codes "b_01") 4194304 ∷ entry (codes "a_01") 41 ∷ []; count = 2 }

two-Fits : All Fits two.head
two-Fits = (
  record {
    id_bound = omega arith;
    id_nul_free = refl;
    name_bound = omega arith;
    name_nul_free = refl;
    pid_bound = omega arith;
  },
  (
    record {
      id_bound = omega arith;
      id_nul_free = refl;
      name_bound = omega arith;
      name_nul_free = refl;
      pid_bound = omega arith;
    },
    tt,
  ),
)

-- A buffer that holds other bytes.
abbrev malloc : ℕ → Option Bytes
malloc n = some (replicate n 170)

api_workflow_list_lem_example :
    api_workflow_list two true malloc true fresh_response
    ≡ some (http_response_set_json fresh_response 200 (some (list_text two.head)) true, success)
api_workflow_list_lem_example =
    api_workflow_list_lem two malloc fresh_response (replicate (list_size 2) 170) refl (omega arith)
      refl (length-replicate (list_size 2) 170) two-Fits

list_text_test :
    list_text (entry (codes "a_01") 41 ∷ [])
    ≡ codes
        "{\"workflows\":[{\"workflow_id\":\"a_01\",\"script\":\"build.sh\",\"state\":\"paused\",\"pid\":41}]}"
unfolding item_text state_to_string decimal
list_text_test = refl

api_workflow_status_test :
    (api_workflow_status two (codes "/api/workflow/status/a_01") true fresh_response).0.body
    ≡ some (
        codes
          "{\"workflow_id\":\"a_01\",\"script\":\"build.sh\",\"state\":\"paused\",\"pid\":41,\"start_time\":10,\"end_time\":0,\"exit_code\":0}")
unfolding api_workflow_status workflow_id find find_node str_eq status_text state_to_string decimal
    http_response_set_json
api_workflow_status_test = refl
