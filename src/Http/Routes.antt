-- ===== src/Http/Routes.antt =====
-- The routes of the daemon's interface, as src/daemon/argo_daemon_api_routes.c registers them.
use argo.Base.{Option, none, some, Bytes, codes, Bool, true, false}
use argo.Error.{Code, success, e_invalid_params, e_system_memory}
use argo.Http.{Method, method_get, method_post, method_delete, Server, http_server_add_route}
use argo.Http.Request.{Response, http_response_set_json, http_response_set_error}

-- The handlers that are registered.
pub data ApiHandler : Type 0 where
  api_workflow_start api_workflow_list api_workflow_status api_workflow_abandon : ApiHandler
  api_workflow_pause api_workflow_resume api_workflow_input : ApiHandler
  api_registry_list_ci api_ci_query : ApiHandler

abbrev pub ApiServer : Type 0
ApiServer = Server ApiHandler

-- One call of `http_server_add_route`, whose result is dropped.
abbrev pub register : ApiServer → Method → Bytes → ApiHandler → ApiServer
register s method path handler = (http_server_add_route s method (some path) (some handler)).0

unfoldable pub argo_daemon_register_api_routes : Option ApiServer → Option ApiServer × Code
unfolding http_server_add_route
argo_daemon_register_api_routes none = (none, e_invalid_params)
argo_daemon_register_api_routes (some s) =
    let s1 = register s method_post (codes "/api/workflow/start") api_workflow_start in
    let s2 = register s1 method_get (codes "/api/workflow/list") api_workflow_list in
    let s3 = register s2 method_get (codes "/api/workflow/status") api_workflow_status in
    let s4 = register s3 method_delete (codes "/api/workflow/abandon") api_workflow_abandon in
    let s5 = register s4 method_post (codes "/api/workflow/pause") api_workflow_pause in
    let s6 = register s5 method_post (codes "/api/workflow/resume") api_workflow_resume in
    let s7 = register s6 method_post (codes "/api/workflow/input") api_workflow_input in
    let s8 = register s7 method_get (codes "/api/registry/ci") api_registry_list_ci in
    (some (register s8 method_post (codes "/api/ci/query") api_ci_query), success)

-- `ready` tells that the daemon and its registry are there.
unfoldable pub list_ci : Response → Bool → Bool → Response × Code
unfolding http_response_set_json http_response_set_error
list_ci resp false mem =
    (http_response_set_error resp 500 (some (codes "Internal server error")) mem, e_system_memory)
list_ci resp true mem = (http_response_set_json resp 200 (some (codes "{\"cis\":[]}")) mem, success)
