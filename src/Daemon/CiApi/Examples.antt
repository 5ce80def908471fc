-- ===== src/Daemon/CiApi/Examples.antt =====
-- A question to a provider (src/daemon/argo_daemon_ci_api.c) whose name comes from the configuration.
use argo.Base.{
  ℕ, ◌≡◌, refl, true, false, [], ◌∷◌, none, some, arith, Bytes, codes, replicate, length-replicate,
  str_eq,
}
use argo.Base.Nodes.{find_node}
use argo.Config.{argo_config_get}
use argo.Error.{success}
use argo.Http.{method_post}
use argo.Http.Request.{Request, fresh_response, http_response_set_json}
use argo.Json.{extract_nested_string}
use argo.Json.Escape.{escaped}
use argo.Daemon.CiApi.{field, Provider, claude_api, World, api_ci_query, response_size}
use argo.Daemon.CiApi.Format.{response_text}
use argo.Daemon.CiApi.Query.{name_of, api_ci_query_lem}

abbrev answer : Bytes
answer = codes "say \"hi\""

abbrev provider : Provider
provider = record {
  init = none;
  connect = some success;
  query = λ q. record {
    responses =
        (some (record { success = true; content = some (codes "first") }), false)
        ∷ (some (record { success = true; content = some answer }), true)
        ∷ (some (record { success = false; content = none }), true)
        ∷ [];
    code = success;
  };
}

abbrev world : World
world = record {
  config = record {
    head = record { key = codes "CI_DEFAULT_PROVIDER"; value = some (codes "claude_api") } ∷ [];
    initialized = true;
  };
  create = λ p model. some provider;
  malloc = λ n. some (replicate n 170);
  fields = record {
    query = true;
    provider = true;
    provider_copy = true;
    model = true;
    model_copy = true;
  };
  mem = true;
}

abbrev body : Bytes
body = codes "{\"query\": \"hello\", \"model\": \"m\"}"

abbrev request : Request
request = record {
  method = method_post;
  path = codes "/api/ci/query";
  body = some body;
  body_length = 32;
  content_type = codes "application/json";
}

api_ci_query_lem_example :
    api_ci_query world request fresh_response
    ≡ some (
      http_response_set_json fresh_response 200
          (some (response_text (name_of claude_api) answer))
          true,
      success,
    )
unfolding extract_nested_string field argo_config_get find_node str_eq response_size
api_ci_query_lem_example =
    api_ci_query_lem world request fresh_response body (codes "hello") answer
      (replicate (response_size answer) 170) claude_api provider refl refl refl refl tt refl refl
      refl refl (length-replicate {A = ℕ} (response_size answer) 170) (omega arith) refl refl

response_text_test :
    response_text (name_of claude_api) answer
    ≡ codes "{\"status\":\"success\",\"provider\":\"claude_api\",\"response\":\"say \\\"hi\\\"\"}"
unfolding escaped
response_text_test = refl
