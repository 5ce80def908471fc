-- ===== src/Http/Dispatch.antt =====
-- The choice of a handler in src/daemon/argo_http_server.c, and the routes of the daemon's interface.
use argo.Base.{
  ℕ, ◌≡◌, refl, ◌∙◌, ap, sym, Bool, true, false, ◌&&◌, List, [], ◌∷◌, ◌++◌, Option, none, some,
  arith, ◌==◌, if◌then◌else◌, Bytes, codes, length, Option-cases, inl, inr,
}
use mathlib.Core.Option
use mathlib.Core.List.{append-nil}
use argo.CString.{cut}
use argo.CString.Laws.{Lacks, Lacks-append, cut_sound, cut-append, cut-Lacks}
use argo.Json.{strip}
use argo.Http.{
  Method, method_get, method_post, method_delete, same_method, Route, Server, strncmp_eq, byte_at,
  before_query, matches, find_loop, find_route, http_server_create,
}
use argo.Http.Routes.{
  ApiHandler, api_workflow_start, api_workflow_list, api_workflow_status, api_workflow_abandon,
  api_workflow_pause, api_workflow_resume, api_workflow_input, api_registry_list_ci, api_ci_query,
  argo_daemon_register_api_routes,
}

-- The path is the route, or goes on behind it with a '/'.
unfoldable pub covers : Bytes → Bytes → Bool
unfolding strip
covers route p = elim (strip route p) [
  | none ↦ false
  | some [] ↦ true
  | some (c ∷ rest) ↦ c == b'/'
]

module _ {H : Type 0} where
  -- The handler of the first route for the method that covers the path.
  unfoldable pub first_route : Method → Bytes → List (Route H) → Option H
  unfolding covers
  first_route method p [] = none
  first_route method p (r ∷ rs) =
      let rest = first_route method p rs in
      if same_method r.method method && covers r.path p then some r.handler else rest

matches-covers : (route p q : Bytes) → matches route (length p) (p ++ q) ≡ covers route p
unfolding matches covers strncmp_eq byte_at strip
matches-covers [] [] q = ground arith
matches-covers [] (y ∷ p) q = ground arith
matches-covers (x ∷ route) [] q = ground arith
matches-covers (x ∷ route) (y ∷ p) q = ground (arith, matches-covers route p q)

find_loop-first_route :
    {H : Type 0} (method : Method) (p q : Bytes) (rs : List (Route H))
    → find_loop method (length p) (p ++ q) rs ≡ first_route method p rs
unfolding find_loop first_route
find_loop-first_route method p q [] = refl
find_loop-first_route method p q (r ∷ rs) =
    rw (matches-covers r.path p q, find_loop-first_route method p q rs)

-- A path is the part in front of its query string, and the rest.
before_query_prefix : (path : Bytes) → (q : Bytes) × (path ≡ before_query path ++ q)
unfolding before_query
before_query_prefix path = elim (Option-cases (cut b'?' path)) [
  | inl plain ↦ ([], rw (plain, before_query) (sym (append-nil path)))
  | inr ((p, query), at) ↦ (b'?' ∷ query, rw (at, before_query) (cut_sound b'?' path p query at).1)
]

before_query_plain : (p : Bytes) → Lacks b'?' p → before_query p ≡ p
unfolding before_query
before_query_plain p h = rw (cut-Lacks b'?' p h, before_query)

before_query-append : (p query : Bytes) → Lacks b'?' p → before_query (p ++ b'?' ∷ query) ≡ p
unfolding before_query
before_query-append p query h = rw (cut-append b'?' p query h, before_query)

-- The search for a handler gives the handler of the first route, in the order of their
-- registration, whose method is the request's and whose path covers the part of the request's path
-- in front of the query string: is that part, or is followed in it by a '/'. Without such a route
-- it gives none.
pub find_route_lem :
    {H : Type 0} (server : Server H) (method : Method) (path : Bytes)
    → find_route server method path ≡ first_route method (before_query path) server.routes
unfolding find_route
find_route_lem server method path =
    let (q, spelled) = before_query_prefix path in
    ap (λ x. find_loop method (length (before_query path)) x server.routes) spelled
    ∙ find_loop-first_route method (before_query path) q server.routes

-- The method and the path of an endpoint.
abbrev pub endpoint : ApiHandler → Method × Bytes
endpoint api_workflow_start = (method_post, codes "/api/workflow/start")
endpoint api_workflow_list = (method_get, codes "/api/workflow/list")
endpoint api_workflow_status = (method_get, codes "/api/workflow/status")
endpoint api_workflow_abandon = (method_delete, codes "/api/workflow/abandon")
endpoint api_workflow_pause = (method_post, codes "/api/workflow/pause")
endpoint api_workflow_resume = (method_post, codes "/api/workflow/resume")
endpoint api_workflow_input = (method_post, codes "/api/workflow/input")
endpoint api_registry_list_ci = (method_get, codes "/api/registry/ci")
endpoint api_ci_query = (method_post, codes "/api/ci/query")

-- What may follow the path of an endpoint: an argument behind a '/'.
abbrev pub argument : Option Bytes → Bytes
argument none = []
argument (some a) = b'/' ∷ a

-- The server's routes once the daemon has registered its own.
abbrev pub api_routes : ℕ → List (Route ApiHandler)
api_routes port = elim (http_server_create port true true) [
  | none ↦ []
  | some server ↦ elim (argo_daemon_register_api_routes (some server)).0 [
    | none ↦ []
    | some registered ↦ registered.routes
  ]
]

endpoint_first :
    (h : ApiHandler) (port : ℕ) (a : Option Bytes)
    → first_route (endpoint h).0 ((endpoint h).1 ++ argument a) (api_routes port) ≡ some h
unfolding first_route argo_daemon_register_api_routes http_server_create
endpoint_first api_workflow_start port none = refl
endpoint_first api_workflow_start port (some a) = refl
endpoint_first api_workflow_list port none = refl
endpoint_first api_workflow_list port (some a) = refl
endpoint_first api_workflow_status port none = refl
endpoint_first api_workflow_status port (some a) = refl
endpoint_first api_workflow_abandon port none = refl
endpoint_first api_workflow_abandon port (some a) = refl
endpoint_first api_workflow_pause port none = refl
endpoint_first api_workflow_pause port (some a) = refl
endpoint_first api_workflow_resume port none = refl
endpoint_first api_workflow_resume port (some a) = refl
endpoint_first api_workflow_input port none = refl
endpoint_first api_workflow_input port (some a) = refl
endpoint_first api_registry_list_ci port none = refl
endpoint_first api_registry_list_ci port (some a) = refl
endpoint_first api_ci_query port none = refl
endpoint_first api_ci_query port (some a) = refl

-- The argument holds no '?'.
abbrev pub PlainArgument : Option Bytes → Type 0
PlainArgument none = Unit
PlainArgument (some a) = Lacks b'?' a

endpoint-Lacks : (h : ApiHandler) → Lacks b'?' (endpoint h).1
endpoint-Lacks api_workflow_start = ground arith
endpoint-Lacks api_workflow_list = ground arith
endpoint-Lacks api_workflow_status = ground arith
endpoint-Lacks api_workflow_abandon = ground arith
endpoint-Lacks api_workflow_pause = ground arith
endpoint-Lacks api_workflow_resume = ground arith
endpoint-Lacks api_workflow_input = ground arith
endpoint-Lacks api_registry_list_ci = ground arith
endpoint-Lacks api_ci_query = ground arith

argument-Lacks : (a : Option Bytes) → PlainArgument a → Lacks b'?' (argument a)
argument-Lacks none p = tt
argument-Lacks (some a) p = (ground arith, p)

-- What the daemon's server calls for a method and a path, once its routes are registered.
abbrev pub routed : ℕ → Method → Bytes → Option (Option ApiHandler)
routed port method path =
    Option.map (λ s. find_route s method path)
      (argo_daemon_register_api_routes (http_server_create port true true)).0

routed-endpoint :
    (h : ApiHandler) (port : ℕ) (a : Option Bytes) (path : Bytes)
    → before_query path ≡ (endpoint h).1 ++ argument a
    → routed port (endpoint h).0 path ≡ some (some h)
unfolding argo_daemon_register_api_routes http_server_create
routed-endpoint h port a path at = ap some (
    find_route_lem _ (endpoint h).0 path
    ∙ ap (λ x. first_route (endpoint h).0 x (api_routes port)) at
    ∙ endpoint_first h port a)

-- On a new server all nine routes of the daemon find room, and no route hides another: each of the
-- nine handlers is called for its method and its path, alone or with an argument without '?' behind
-- a '/', and with any query string or none.
pub endpoint_dispatch :
    (h : ApiHandler) (port : ℕ) (a : Option Bytes) (query : Bytes)
    → PlainArgument a
    → (routed port (endpoint h).0 ((endpoint h).1 ++ argument a) ≡ some (some h))
      × (routed port (endpoint h).0 (((endpoint h).1 ++ argument a) ++ b'?' ∷ query)
          ≡ some (some h))
endpoint_dispatch h port a query p =
    let lacks =
      Lacks-append b'?' (endpoint h).1 (argument a) (endpoint-Lacks h) (argument-Lacks a p) in
    (
      routed-endpoint h port a _ (before_query_plain _ lacks),
      routed-endpoint h port a _ (before_query-append _ query lacks),
    )
