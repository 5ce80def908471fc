-- ===== src/Http.antt =====
-- The HTTP server of src/daemon/argo_http_server.c: its table of routes. A handler is a value of
-- `H`; `none` for an argument is a NULL pointer, and a Boolean argument the answer of an allocation.
-- The socket is left out but for whether it is open.
pub mod Request
pub mod Routes
pub mod Dispatch
mod Examples
use argo.Base.{
  ℕ, zero, suc, ◌+◌, Bool, true, false, not, ◌&&◌, ◌||◌, List, [], ◌∷◌, ◌++◌, Option, none, some,
  ltb, leb, ◌==◌, if◌then◌else◌, Bytes, codes, take, length, str_eq,
}
use argo.CString.{cut}
use argo.Error.{Code, success, e_invalid_params, e_resource_limit}

pub data Method : Type 0 where
  method_get method_post method_delete method_put method_unknown : Method

unfoldable pub http_method_from_string : Option Bytes → Method
unfolding str_eq
http_method_from_string none = method_unknown
http_method_from_string (some s) =
    if str_eq s (codes "GET")
    then method_get
    else if str_eq s (codes "POST")
    then method_post
    else if str_eq s (codes "DELETE")
    then method_delete
    else if str_eq s (codes "PUT")
    then method_put
    else method_unknown

abbrev pub http_method_string : Method → Bytes
http_method_string method_get = codes "GET"
http_method_string method_post = codes "POST"
http_method_string method_delete = codes "DELETE"
http_method_string method_put = codes "PUT"
http_method_string method_unknown = codes "UNKNOWN"

abbrev pub same_method : Method → Method → Bool
same_method method_get method_get = true
same_method method_post method_post = true
same_method method_delete method_delete = true
same_method method_put method_put = true
same_method method_unknown method_unknown = true
same_method _ _ = false

abbrev pub http_max_routes : ℕ
http_max_routes = 64

-- `char path[256]`, and its NUL.
abbrev pub path_max : ℕ
path_max = 255

pub record Route (H : Type 0) : Type 0 where
  pub method : Method
  pub path : Bytes
  pub handler : H

pub record Server (H : Type 0) : Type 0 where
  pub port : ℕ
  pub routes : List (Route H)
  pub route_capacity : ℕ
  pub running : Bool
  pub listening : Bool

-- `strncmp(a, b, n) == 0`.
unfoldable pub strncmp_eq : ℕ → Bytes → Bytes → Bool
strncmp_eq zero a b = true
strncmp_eq (suc n) [] [] = true
strncmp_eq (suc n) (x ∷ a) (y ∷ b) = x == y && strncmp_eq n a b
strncmp_eq (suc n) _ _ = false

-- `s[i]`: the NUL where the string ends.
unfoldable pub byte_at : ℕ → Bytes → ℕ
byte_at i [] = 0
byte_at zero (c ∷ s) = c
byte_at (suc i) (c ∷ s) = byte_at i s

-- What stands before the query string.
unfoldable pub before_query : Bytes → Bytes
unfolding cut
before_query path = elim (cut b'?' path) [ none ↦ path | some (p, query) ↦ p ]

-- The two tests of the loop over the routes, for a path whose first `n` bytes count.
unfoldable pub matches : Bytes → ℕ → Bytes → Bool
unfolding strncmp_eq byte_at
matches route n path =
    length route == n && strncmp_eq n route path
    || ltb (length route) n
      && strncmp_eq (length route) route path
      && byte_at (length route) path == b'/'

module _ {H : Type 0} where
  unfoldable pub http_server_create : ℕ → Bool → Bool → Option (Server H)
  http_server_create port mem table =
      if mem && table
      then some (record {
        port = port;
        routes = [];
        route_capacity = http_max_routes;
        running = false;
        listening = false;
      })
      else none

  unfoldable pub http_server_add_route :
      Server H → Method → Option Bytes → Option H → Server H × Code
  http_server_add_route server method (some path) (some handler) =
      if leb server.route_capacity (length server.routes) then (server, e_resource_limit) else (
        record server {
          routes =
              server.routes
              ++ record { method = method; path = take path_max path; handler = handler } ∷ [];
        },
        success,
      )
  http_server_add_route server method _ _ = (server, e_invalid_params)

  unfoldable pub find_loop : Method → ℕ → Bytes → List (Route H) → Option H
  unfolding matches
  find_loop method n path [] = none
  find_loop method n path (r ∷ rs) =
      let rest = find_loop method n path rs in
      if same_method r.method method && matches r.path n path then some r.handler else rest

  unfoldable pub find_route : Server H → Method → Bytes → Option H
  unfolding find_loop before_query
  find_route server method path = find_loop method (length (before_query path)) path server.routes

  unfoldable pub http_server_stop : Server H → Server H
  http_server_stop server = record server { running = false; listening = false }
