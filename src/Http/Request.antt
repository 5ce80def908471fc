-- ===== src/Http/Request.antt =====
-- A connection to the server of src/daemon/argo_http_server.c: the request that its bytes hold, and
-- the response. A conversion of a number that an int does not hold, which C leaves undefined, wraps
-- around.
use argo.Base.{
  ℕ, zero, suc, ◌+◌, ◌-◌, ◌*◌, ◌%◌, ◌^◌, Bool, ◌&&◌, [], ◌∷◌, ◌++◌, Option, none, some, ltb, leb,
  ◌==◌, if◌then◌else◌, Bytes, codes, take, drop, length,
}
use argo.CString.{is_space, trim_start, c_string}
use argo.Json.{after}
use argo.Error.{Code, success, e_invalid_params}
use argo.Http.{Method, http_method_from_string, Server, find_route}

pub record Request : Type 0 where
  pub method : Method
  pub path : Bytes
  pub body : Option Bytes
  pub body_length : ℕ
  pub content_type : Bytes

pub record Response : Type 0 where
  pub status_code : ℕ
  pub body : Option Bytes
  pub body_length : ℕ
  pub content_type : Bytes

abbrev pub content_type_json : Bytes
content_type_json = codes "application/json"

-- Up to `n` bytes that are no whitespace, and what follows them.
unfoldable pub span_word : ℕ → Bytes → Bytes × Bytes
span_word zero s = ([], s)
span_word (suc n) [] = ([], [])
span_word (suc n) (c ∷ s) =
    let rest = span_word n s in if is_space c then ([], c ∷ s) else (c ∷ rest.0, rest.1)

-- The conversion %<n>s of sscanf.
unfoldable pub scan_word : ℕ → Bytes → Option (Bytes × Bytes)
unfolding span_word trim_start
scan_word n s =
    let r = span_word n (trim_start s) in elim r.0 [ [] ↦ none | c ∷ word ↦ some (c ∷ word, r.1) ]

abbrev pub is_digit : ℕ → Bool
is_digit c = leb b'0' c && leb c b'9'

-- The value of the digits at the head of the text, behind those that made `n`.
unfoldable pub digits_value : ℕ → Bytes → ℕ
digits_value n [] = n
digits_value n (c ∷ s) =
    let rest = digits_value (10 * n + (c - b'0')) s in if is_digit c then rest else n

-- The digits of a number, if there is one.
unfoldable pub scan_digits : Bytes → Option ℕ
unfolding digits_value
scan_digits [] = none
scan_digits (c ∷ s) = if is_digit c then some (digits_value 0 (c ∷ s)) else none

-- The conversion %d of sscanf: the int, by its 32 bits.
unfoldable pub scan_int : Bytes → Option ℕ
unfolding scan_digits trim_start
scan_int s = elim (trim_start s) [
  | [] ↦ none
  | c ∷ t ↦
      if c == b'-'
      then elim (scan_digits t) [ none ↦ none | some n ↦ some ((2 ^ 32 - n % 2 ^ 32) % 2 ^ 32) ]
      else if c == b'+'
      then elim (scan_digits t) [ none ↦ none | some n ↦ some (n % 2 ^ 32) ]
      else elim (scan_digits (c ∷ t)) [ none ↦ none | some n ↦ some (n % 2 ^ 32) ]
]

-- An int, by its 32 bits, as a size_t.
unfoldable pub size_of_int : ℕ → ℕ
size_of_int n = if ltb n (2 ^ 31) then n else n + (2 ^ 64 - 2 ^ 32)

unfoldable pub content_length : Bytes → ℕ
unfolding after scan_int size_of_int
content_length text = elim (after (codes "Content-Length: ") text) [
  | none ↦ 0
  | some rest ↦ elim (scan_int rest) [ none ↦ 0 | some n ↦ size_of_int n ]
]

abbrev pub blank_line : Bytes
blank_line = 13 ∷ 10 ∷ 13 ∷ 10 ∷ []

-- The body: `mem` is the answer of malloc for its copy.
unfoldable pub request_body : Bytes → ℕ → Bool → Option Bytes
unfolding after c_string
request_body raw n mem = elim (after blank_line (c_string raw)) [
  | none ↦ none
  | some rest ↦
      let offset = length (c_string raw) - length rest in
      if ltb 0 n && leb n (length raw - offset) && mem
      then some (take n (drop offset raw))
      else none
]

-- The request, or none where the request line has no two words.
unfoldable pub parse_http_request : Bytes → Bool → Option Request × Code
unfolding scan_word content_length request_body http_method_from_string
parse_http_request raw mem = elim (scan_word 15 (c_string raw)) [
  | none ↦ (none, e_invalid_params)
  | some (method, rest) ↦ elim (scan_word 255 rest) [
    | none ↦ (none, e_invalid_params)
    | some (path, headers) ↦ (
      some (record {
        method = http_method_from_string (some method);
        path = path;
        body = request_body raw (content_length (c_string raw)) mem;
        body_length = content_length (c_string raw);
        content_type = content_type_json;
      }),
      success,
    )
  ]
]

-- `mem` is the answer of malloc for the copy of the body.
unfoldable pub http_response_set_json : Response → ℕ → Option Bytes → Bool → Response
http_response_set_json resp status none mem = record resp {
  status_code = status;
  content_type = content_type_json;
}
http_response_set_json resp status (some json) mem =
    if mem
    then record {
      status_code = status;
      body = some json;
      body_length = length json;
      content_type = content_type_json;
    }
    else record resp { status_code = status; body = none; content_type = content_type_json }

-- The text is cut to the 511 bytes that its buffer holds.
unfoldable pub http_response_set_error : Response → ℕ → Option Bytes → Bool → Response
unfolding http_response_set_json
http_response_set_error resp status msg mem =
    let text : Bytes = elim msg [ none ↦ codes "Unknown error" | some m ↦ m ] in
    http_response_set_json resp status
      (some (take 511 (codes "{\"status\":\"error\",\"message\":\"" ++ (text ++ codes "\"}")))) mem

abbrev pub not_found_body : Bytes
not_found_body = codes "{\"status\":\"error\",\"message\":\"Not found\"}"

-- The response before a handler is called.
abbrev pub fresh_response : Response
fresh_response = record {
  status_code = 200;
  body = none;
  body_length = 0;
  content_type = content_type_json;
}

abbrev pub not_found : Response
not_found = record {
  status_code = 404;
  body = some not_found_body;
  body_length = length not_found_body;
  content_type = content_type_json;
}

-- What a client gets: the connection is closed, the text of a bad request, or a response.
pub data Answer : Type 0 where
  closed bad_request : Answer
  responded : Response → Answer

module _ {H : Type 0} (call : H → Request → Response → Response) where
  unfoldable pub respond : Server H → Request → Response
  unfolding find_route
  respond server req = elim (find_route server req.method req.path) [
    | none ↦ not_found
    | some handler ↦ call handler req fresh_response
  ]

  -- `raw` is what read gives, `buffer` and `body` are the allocator's answers.
  unfoldable pub handle_connection : Server H → Bytes → Bool → Bool → Answer
  unfolding respond parse_http_request
  handle_connection server [] buffer body = closed
  handle_connection server (c ∷ raw) buffer body =
      if buffer
      then elim (parse_http_request (c ∷ raw) body).0 [
        | none ↦ bad_request
        | some req ↦ responded (respond server req)
      ]
      else closed
