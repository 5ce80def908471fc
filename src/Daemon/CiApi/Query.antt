-- ===== src/Daemon/CiApi/Query.antt =====
-- The endpoint of src/daemon/argo_daemon_ci_api.c from the request to the response.
use mathlib.Core.Option
use argo.Base.{
  Bool, ◌≤◌, ◌<◌, ◌^◌, ◌≡◌, refl, ap, ◌∙◌, true, List, [], ◌∷◌, Option, none, some, arith, Bytes,
  codes, str_eq, length, Bool-cases, inl, inr, if◌then◌else◌,
}
use argo.Config.{argo_config_get}
use argo.CString.Print.Laws.{nul_free}
use argo.Error.{Code, success}
use argo.Http.Request.{Request, Response, http_response_set_json}
use argo.Daemon.CiApi.{
  CiResponse, Asked, Provider, ProviderName, response_callback, callbacks, provider_of, claude_code,
  claude_api, openai_api, gemini_api, grok_api, deepseek_api, openrouter, create_ci_provider, field,
  strdup, copied, ask_named, or_else, default_provider, made, settled, parse_optional, answer_query,
  answer_body, parse_ci_query_request, query_result, and_then, execute_provider_query,
  response_size, World, send_response, send_answer, ask, api_ci_query,
}
use argo.Daemon.CiApi.Format.{response_text, format_ci_response_lem}

-- The names that the endpoint knows.
abbrev pub name_of : ProviderName → Bytes
name_of claude_code = codes "claude_code"
name_of claude_api = codes "claude_api"
name_of openai_api = codes "openai_api"
name_of gemini_api = codes "gemini_api"
name_of grok_api = codes "grok_api"
name_of deepseek_api = codes "deepseek_api"
name_of openrouter = codes "openrouter"

provider_of-name_of : (p : ProviderName) → provider_of (name_of p) ≡ some p
unfolding provider_of str_eq
provider_of-name_of claude_code = refl
provider_of-name_of claude_api = refl
provider_of-name_of openai_api = refl
provider_of-name_of gemini_api = refl
provider_of-name_of grok_api = refl
provider_of-name_of deepseek_api = refl
provider_of-name_of openrouter = refl

length-name_of : (p : ProviderName) → length (name_of p) ≤ 400
length-name_of claude_code = omega arith
length-name_of claude_api = omega arith
length-name_of openai_api = omega arith
length-name_of gemini_api = omega arith
length-name_of grok_api = omega arith
length-name_of deepseek_api = omega arith
length-name_of openrouter = omega arith

nul_free-name_of : (p : ProviderName) → nul_free (name_of p) ≡ true
nul_free-name_of claude_code = refl
nul_free-name_of claude_api = refl
nul_free-name_of openai_api = refl
nul_free-name_of gemini_api = refl
nul_free-name_of grok_api = refl
nul_free-name_of deepseek_api = refl
nul_free-name_of openrouter = refl

-- A step that is missing or succeeds.
abbrev pub Passes : Option Code → Type 0
Passes none = Unit
Passes (some c) = c ≡ success

-- What a response puts into the output, if it does.
abbrev pub content_of : Option CiResponse × Bool → Option (Option Bytes)
content_of (none, mem) = none
content_of (some r, mem) = if r.success then Option.map (strdup mem) r.content else none

-- What the last response that has a content puts into the output.
abbrev pub last_content : List (Option CiResponse × Bool) → Option (Option Bytes)
last_content [] = none
last_content (r ∷ rs) = or_else (last_content rs) (content_of r)

abbrev output_or : Option (Option Bytes) → Option Bytes → Option Bytes
output_or none output = output
output_or (some new) output = new

response_callback_lem :
    (r : Option CiResponse) (mem : Bool) (output : Option Bytes)
    → response_callback r mem output ≡ output_or (content_of (r, mem)) output
unfolding response_callback
response_callback_lem none mem output = refl
response_callback_lem (some r) mem output = elim (Bool-cases r.success) [
  | inl good ↦ rw good (found r.content)
  | inr bad ↦ rw bad refl
]
  where
    found :
        (t : Option Bytes)
        → elim t as (λ x. Option Bytes) [ none ↦ output | some text ↦ strdup mem text ]
          ≡ output_or (Option.map (strdup mem) t) output
    found none = refl
    found (some t) = refl

output_or_assoc :
    (a b : Option (Option Bytes)) (c : Option Bytes)
    → output_or a (output_or b c) ≡ output_or (or_else a b) c
output_or_assoc none b c = refl
output_or_assoc (some t) b c = refl

callbacks_lem :
    (rs : List (Option CiResponse × Bool)) (output : Option Bytes)
    → callbacks rs output ≡ output_or (last_content rs) output
unfolding callbacks
callbacks_lem [] output = refl
callbacks_lem ((r, mem) ∷ rs) output =
    callbacks_lem rs (response_callback r mem output)
    ∙ ap (output_or (last_content rs)) (response_callback_lem r mem output)
    ∙ output_or_assoc (last_content rs) (content_of (r, mem)) output

query_result_lem :
    (asked : Asked) (text : Bytes)
    → asked.code ≡ success
    → last_content asked.responses ≡ some (some text)
    → query_result asked ≡ (some text, success)
unfolding query_result
query_result_lem asked text done got =
    ap (λ (c : Code). settled (callbacks asked.responses none) c) done
    ∙ ap (λ (t : Option Bytes). settled t success)
        (callbacks_lem asked.responses none
          ∙ ap (λ (t : Option (Option Bytes)). output_or t none) got)

and_then-Passes :
    (step : Option Code) (next : Option Bytes × Code) → Passes step → and_then step next ≡ next
and_then-Passes none next h = refl
and_then-Passes (some c) next h = rw h refl

execute_provider_query_lem :
    (p : Provider) (query text : Bytes)
    → Passes p.init
    → Passes p.connect
    → (p.query query).code ≡ success
    → last_content (p.query query).responses ≡ some (some text)
    → execute_provider_query p query ≡ (some text, success)
unfolding execute_provider_query
execute_provider_query_lem p query text hi hc done got =
    and_then-Passes p.init _ hi
    ∙ and_then-Passes p.connect _ hc
    ∙ query_result_lem (p.query query) text done got

send_answer_lem :
    (w : World) (resp : Response) (p : ProviderName) (text b : Bytes)
    → w.malloc (response_size text) ≡ some b
    → length b ≡ response_size text
    → response_size text < 2 ^ 64
    → nul_free text ≡ true
    → send_answer w resp (name_of p) (some text, success)
      ≡ some
          (http_response_set_json resp 200 (some (response_text (name_of p) text)) w.mem, success)
unfolding send_answer send_response
send_answer_lem w resp p text b got sized small clean = ap (send_response w resp) (
    format_ci_response_lem w.malloc (name_of p) text b got sized small (length-name_of p)
      (nul_free-name_of p) clean)

-- The provider that a request asks for.
abbrev pub asked_provider : World → Bytes → Option Bytes
asked_provider w body = or_else (field body (codes "provider") w.fields.provider) (
    strdup w.fields.provider_copy
      (default_provider (argo_config_get w.config (some (codes "CI_DEFAULT_PROVIDER")))))

abbrev pub asked_model : World → Bytes → Option Bytes
asked_model w body =
    or_else (field body (codes "model") w.fields.model)
      (copied w.fields.model_copy (argo_config_get w.config (some (codes "CI_DEFAULT_MODEL"))))

-- A question that reaches its provider. There must be a query whose text can be extracted; a provider
-- named by the request, else by the configuration, else claude_code, the name extracted or copied,
-- that can be made for the model of the request, else of the configuration; its steps must succeed,
-- and the last content that it gives must be copied; and there must be a buffer of the requested
-- size and memory for the body. Then the answer has status 200, the name of the provider and the
-- last content, escaped.
pub api_ci_query_lem :
    (w : World) (req : Request) (resp : Response) (body query text b : Bytes) (p : ProviderName)
    (provider : Provider)
    → req.body ≡ some body
    → field body (codes "query") w.fields.query ≡ some query
    → asked_provider w body ≡ some (name_of p)
    → w.create p (asked_model w body) ≡ some provider
    → Passes provider.init
    → Passes provider.connect
    → (provider.query query).code ≡ success
    → last_content (provider.query query).responses ≡ some (some text)
    → w.malloc (response_size text) ≡ some b
    → length b ≡ response_size text
    → response_size text < 2 ^ 64
    → nul_free text ≡ true
    → w.mem ≡ true
    → api_ci_query w req resp
      ≡ some (http_response_set_json resp 200 (some (response_text (name_of p) text)) true, success)
unfolding api_ci_query answer_body answer_query ask ask_named parse_ci_query_request parse_optional
    create_ci_provider
api_ci_query_lem w req resp body query text b p provider hb hq hp hm hi hc done got hmal sized small
      clean given =
    ap (answer_body w resp) hb
    ∙ ap (λ (q : Option Bytes). answer_query w resp (parse_optional w.config w.fields body q)) hq
    ∙ ap (ask_named w resp query (asked_model w body)) hp
    ∙ ap
        (λ (x : Option ProviderName).
          ask w resp query (name_of p) (made w.create (asked_model w body) x))
        (provider_of-name_of p)
    ∙ ap (ask w resp query (name_of p)) hm
    ∙ ap (send_answer w resp (name_of p))
        (execute_provider_query_lem provider query text hi hc done got)
    ∙ send_answer_lem w resp p text b hmal sized small clean
    ∙ ap
        (λ (mem : Bool).
          some
            (http_response_set_json resp 200 (some (response_text (name_of p) text)) mem, success))
        given
