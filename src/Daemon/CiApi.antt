-- ===== src/Daemon/CiApi.antt =====
-- The endpoint of src/daemon/argo_daemon_ci_api.c that asks a provider. A provider
-- (include/argo_ci.h) is a table of functions, here of what its calls return; the functions that
-- make one are an argument. `malloc` gives the buffer of the response with whatever it holds; the other
-- answers of the allocator are truth values. `none` is a write outside of a buffer or a comparison
-- with a NULL pointer.
pub mod Format
pub mod Query
mod Examples
use argo.Base.{
  ℕ, ◌+◌, ◌-◌, ◌*◌, ◌%◌, ◌^◌, Bool, true, false, List, [], ◌∷◌, ◌++◌, Option, none, some,
  if◌then◌else◌, Bytes, codes, str_eq, take, length,
}
use argo.Config.{Config, argo_config_get}
use argo.CString.{c_string}
use argo.CString.Print.{snprintf, format}
use argo.Error.{
  Code, success, e_system_memory, e_system_process, e_input_null, e_input_format, e_invalid_params,
}
use argo.Http.Request.{Request, Response, http_response_set_json, http_response_set_error}
use argo.Json.{escape_string, extract_nested_string}

-- The fields of a ci_response_t that the callback reads.
pub record CiResponse : Type 0 where
  pub success : Bool
  pub content : Option Bytes

-- What `query` does: the responses for which it calls the callback, each with the answer of strdup
-- there, and its result.
pub record Asked : Type 0 where
  pub responses : List (Option CiResponse × Bool)
  pub code : Code

-- `init` and `connect` may be missing.
pub record Provider : Type 0 where
  pub init : Option Code
  pub connect : Option Code
  pub query : Bytes → Asked

pub data ProviderName : Type 0 where
  claude_code claude_api openai_api gemini_api grok_api deepseek_api openrouter : ProviderName

-- A copy by strdup; NULL without memory.
abbrev pub strdup : Bool → Bytes → Option Bytes
strdup mem text = if mem then some text else none

-- The output after a call of the callback: a content is copied over it, as NULL if that fails.
unfoldable pub response_callback : Option CiResponse → Bool → Option Bytes → Option Bytes
response_callback none mem output = output
response_callback (some r) mem output =
    if r.success then (elim r.content [ none ↦ output | some text ↦ strdup mem text ]) else output

unfoldable pub callbacks : List (Option CiResponse × Bool) → Option Bytes → Option Bytes
unfolding response_callback
callbacks [] output = output
callbacks ((r, mem) ∷ rs) output = callbacks rs (response_callback r mem output)

-- The three fields of a request; a provider's name is NULL where it cannot be copied.
pub record CiQuery : Type 0 where
  pub query_text : Bytes
  pub provider_name : Option Bytes
  pub model_name : Option Bytes

abbrev pub or_else {ℓ} : {A : Type ℓ} → Option A → Option A → Option A
or_else (some x) other = some x
or_else none other = other

-- What the allocator answers for the fields of a request: when one is extracted, and when a key of
-- the configuration is copied for it.
pub record FieldMemory : Type 0 where
  pub query : Bool
  pub provider : Bool
  pub provider_copy : Bool
  pub model : Bool
  pub model_copy : Bool

abbrev pub copied : Bool → Option Bytes → Option Bytes
copied mem none = none
copied mem (some text) = strdup mem text

-- A field of the request.
unfoldable pub field : Bytes → Bytes → Bool → Option Bytes
unfolding extract_nested_string
field body name mem = (extract_nested_string body (name ∷ []) mem).0

abbrev pub default_provider : Option Bytes → Bytes
default_provider (some name) = name
default_provider none = codes "claude_code"

-- From the query on.
unfoldable pub parse_optional : Config → FieldMemory → Bytes → Option Bytes → Option CiQuery × Code
unfolding field argo_config_get
parse_optional config mem body none = (none, e_input_format)
parse_optional config mem body (some query) = (
  some (record {
    query_text = query;
    provider_name = or_else (field body (codes "provider") mem.provider) (
        strdup mem.provider_copy
          (default_provider (argo_config_get config (some (codes "CI_DEFAULT_PROVIDER")))));
    model_name =
        or_else (field body (codes "model") mem.model)
          (copied mem.model_copy (argo_config_get config (some (codes "CI_DEFAULT_MODEL"))));
  }),
  success,
)

unfoldable pub parse_ci_query_request : Config → FieldMemory → Bytes → Option CiQuery × Code
unfolding field parse_optional
parse_ci_query_request config mem body =
    parse_optional config mem body (field body (codes "query") mem.query)

unfoldable pub provider_of : Bytes → Option ProviderName
unfolding str_eq
provider_of name =
    if str_eq name (codes "claude_code")
    then some claude_code
    else if str_eq name (codes "claude_api")
    then some claude_api
    else if str_eq name (codes "openai_api")
    then some openai_api
    else if str_eq name (codes "gemini_api")
    then some gemini_api
    else if str_eq name (codes "grok_api")
    then some grok_api
    else if str_eq name (codes "deepseek_api")
    then some deepseek_api
    else if str_eq name (codes "openrouter")
    then some openrouter
    else none

abbrev pub made :
    (ProviderName → Option Bytes → Option Provider)
    → Option Bytes
    → Option ProviderName
    → Option Provider
made create model none = none
made create model (some p) = create p model

-- `create` makes the provider of a name for a model, or fails.
unfoldable pub create_ci_provider :
    (ProviderName → Option Bytes → Option Provider) → Bytes → Option Bytes → Option Provider
unfolding provider_of
create_ci_provider create name model = made create model (provider_of name)

-- The output and the code of the query, once they are known.
abbrev pub settled : Option Bytes → Code → Option Bytes × Code
settled (some text) success = (some text, success)
settled none success = (none, e_system_process)
settled output other = (output, other)

unfoldable pub query_result : Asked → Option Bytes × Code
unfolding callbacks
query_result asked = settled (callbacks asked.responses none) asked.code

-- A step that may be missing, and what follows it.
abbrev pub and_then : Option Code → Option Bytes × Code → Option Bytes × Code
and_then none next = next
and_then (some success) next = next
and_then (some other) next = (none, other)

unfoldable pub execute_provider_query : Provider → Bytes → Option Bytes × Code
unfolding query_result
execute_provider_query p query = and_then p.init (and_then p.connect (query_result (p.query query)))

unfoldable pub response_size : Bytes → ℕ
response_size ai_response = length ai_response * 2 + 512

abbrev pub prefix_pieces : Bytes → List Bytes
prefix_pieces name =
    codes "{\"status\":\"success\",\"provider\":\"" ∷ name ∷ codes "\",\"response\":\"" ∷ []

-- The end of the text; the bytes that are left are `response_size - offset`.
unfoldable pub close_response : ℕ → Bytes → ℕ → Code → Option (Option Bytes × Code)
unfolding snprintf c_string
close_response size b offset success =
    elim (snprintf b offset ((size + 2 ^ 64 - offset % 2 ^ 64) % 2 ^ 64) (codes "\"}")) [
      | none ↦ none
      | some b' ↦ some (some (c_string b'), success)
    ]
close_response size b offset other = some (none, other)

unfoldable pub format_ci_response :
    (ℕ → Option Bytes) → Bytes → Bytes → Option (Option Bytes × Code)
unfolding close_response snprintf escape_string response_size
format_ci_response malloc name ai_response = elim (malloc (response_size ai_response)) [
  | none ↦ some (none, e_system_memory)
  | some b ↦ elim (snprintf b 0 (response_size ai_response) (format (prefix_pieces name))) [
    | none ↦ none
    | some b' ↦
        elim (escape_string b' (response_size ai_response) (length (format (prefix_pieces name)))
          ai_response) [
            | none ↦ none
            | some (b'', offset, code) ↦ close_response (response_size ai_response) b'' offset code
          ]
  ]
]

-- What the world gives the handler.
pub record World : Type 0 where
  pub config : Config
  pub create : ProviderName → Option Bytes → Option Provider
  pub malloc : ℕ → Option Bytes
  pub fields : FieldMemory
  pub mem : Bool

abbrev pub answer_error : World → Response → ℕ → Bytes → Code → Response × Code
answer_error w resp status text code = (http_response_set_error resp status (some text) w.mem, code)

abbrev pub query_error : Code → Bytes
query_error e_system_process = codes "No response from AI provider"
query_error _ = codes "Query execution failed"

-- From the formatted text on.
unfoldable pub send_response :
    World → Response → Option (Option Bytes × Code) → Option (Response × Code)
unfolding http_response_set_json http_response_set_error
send_response w resp none = none
send_response w resp (some (json, success)) =
    some (http_response_set_json resp 200 json w.mem, success)
send_response w resp (some (json, other)) =
    some (answer_error w resp 500 (codes "Failed to format response") other)

-- From the provider's answer on.
unfoldable pub send_answer :
    World → Response → Bytes → Option Bytes × Code → Option (Response × Code)
unfolding send_response format_ci_response http_response_set_error
send_answer w resp name (some text, success) =
    send_response w resp (format_ci_response w.malloc name text)
send_answer w resp name (none, success) =
    some (answer_error w resp 500 (query_error e_system_process) e_system_process)
send_answer w resp name (_, other) = some (answer_error w resp 500 (query_error other) other)

-- With the provider, if it could be made. The text about an unknown one is cut to the 255 bytes
-- that its buffer holds.
unfoldable pub ask : World → Response → Bytes → Bytes → Option Provider → Option (Response × Code)
unfolding execute_provider_query send_answer http_response_set_error
ask w resp query name none =
    some (answer_error w resp 400 (take 255 (codes "Unknown provider: " ++ name)) e_invalid_params)
ask w resp query name (some p) = send_answer w resp name (execute_provider_query p query)

-- With the name of the provider, if it could be copied.
unfoldable pub ask_named :
    World → Response → Bytes → Option Bytes → Option Bytes → Option (Response × Code)
unfolding create_ci_provider ask
ask_named w resp query model none = none
ask_named w resp query model (some name) =
    ask w resp query name (create_ci_provider w.create name model)

-- From the parsed request on.
unfoldable pub answer_query : World → Response → Option CiQuery × Code → Option (Response × Code)
unfolding ask_named http_response_set_error
answer_query w resp (some q, code) = ask_named w resp q.query_text q.model_name q.provider_name
answer_query w resp (none, code) =
    some (answer_error w resp 400 (codes "Missing 'query' field") code)

unfoldable pub answer_body : World → Response → Option Bytes → Option (Response × Code)
unfolding parse_ci_query_request answer_query http_response_set_error
answer_body w resp none = some (answer_error w resp 400 (codes "Missing request body") e_input_null)
answer_body w resp (some body) = answer_query w resp (parse_ci_query_request w.config w.fields body)

unfoldable pub api_ci_query : World → Request → Response → Option (Response × Code)
unfolding answer_body
api_ci_query w req resp = answer_body w resp req.body
