-- ===== src/Http/Examples.antt =====
-- Requests to the server of src/daemon/argo_http_server.c.
use argo.Base.{ℕ, ◌≡◌, refl, arith, true, false, [], ◌∷◌, ◌++◌, some, Bytes, codes}
use argo.Error.{success}
use argo.Http.{method_get, method_post, Server, before_query, find_route}
use argo.Http.Request.{
  Request, Response, bad_request, responded, not_found, handle_connection, parse_http_request,
}
use argo.Http.Routes.{api_workflow_pause}
use argo.Http.Dispatch.{first_route, routed, find_route_lem, endpoint_dispatch}

abbrev two_routes : Server ℕ
two_routes = record {
  port = 80;
  routes =
      record { method = method_get; path = codes "/a"; handler = 1 }
      ∷ record { method = method_get; path = codes "/a/b"; handler = 2 }
      ∷ [];
  route_capacity = 64;
  running = false;
  listening = false;
}

find_route_lem_example :
    find_route two_routes method_get (codes "/a/b?c=1")
    ≡ first_route method_get (before_query (codes "/a/b?c=1")) two_routes.routes
find_route_lem_example = find_route_lem two_routes method_get (codes "/a/b?c=1")

endpoint_dispatch_example :
    (routed 9876 method_post (codes "/api/workflow/pause" ++ codes "/build_01")
      ≡ some (some api_workflow_pause))
    × (routed 9876 method_post
          ((codes "/api/workflow/pause" ++ codes "/build_01") ++ codes "?force")
        ≡ some (some api_workflow_pause))
endpoint_dispatch_example =
    endpoint_dispatch api_workflow_pause 9876 (some (codes "build_01")) (codes "force")
      (ground arith)

-- A shorter route in front hides a longer one.
shadowed : find_route two_routes method_get (codes "/a/b") ≡ some 1
unfolding find_route
shadowed = refl

abbrev echo : ℕ → Request → Response → Response
echo n req resp = record resp { body = req.body; body_length = req.body_length }

abbrev post : Bytes
post = codes "POST /x HTTP/1.1\r\nContent-Length: 2\r\n\r\nhi"

abbrev parsed : Request
parsed = record {
  method = method_post;
  path = codes "/x";
  body = some (codes "hi");
  body_length = 2;
  content_type = codes "application/json";
}

posted : parse_http_request post true ≡ (some parsed, success)
unfolding parse_http_request
posted = refl

unrouted : handle_connection echo two_routes post true true ≡ responded not_found
unfolding handle_connection
unrouted = refl

one_word : handle_connection echo two_routes (codes "GET") true true ≡ bad_request
unfolding handle_connection
one_word = refl
