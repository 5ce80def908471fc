-- ===== src/Socket.antt =====
-- The socket server of src/foundation/argo_socket.c: its clients, the requests that wait for an answer,
-- and the messages that it passes on. What the system calls return and what the JSON tokenizer finds
-- are arguments. The pollfds behind the listening one are a list of descriptors. The counters of 64 bits
-- do not wrap here.
pub mod Timeouts
pub mod Valid
pub mod Runs
mod Examples
use mathlib.Core.Option
use argo.Base.{
  ℕ, zero, suc, ◌+◌, ◌-◌, ◌*◌, ◌%◌, ◌^◌, Bool, true, false, ◌||◌, ◌&&◌, List, [], ◌∷◌, ◌++◌, Option,
  none, some, ltb, leb, ◌==◌, if◌then◌else◌, Bytes, codes, str_eq, take, drop, length,
}
use argo.CString.Print.{format}
use argo.CiRegistry.{Registry, find_ci}
use argo.Messages
use argo.Messages.{Net, registry_send_message}
use argo.Error.{
  Code, success, e_system_memory, e_system_socket, e_input_null, e_ci_disconnected,
  e_protocol_format, e_protocol_queue, e_protocol_size,
}

-- A callback is known by a number.
pub record Pending : Type 0 where
  pub id : ℕ
  pub callback : ℕ
  pub timestamp : ℕ
  pub timeout_ms : ℕ
  pub target_ci : Bytes

pub record Context : Type 0 where
  pub clients : List ℕ
  pub registry : Option Registry
  pub requests : List Pending
  pub next_request_id : ℕ
  pub messages_sent : ℕ
  pub messages_received : ℕ
  pub errors : ℕ

unfoldable pub server_init : Context
server_init = record {
  clients = [];
  registry = none;
  requests = [];
  next_request_id = 1;
  messages_sent = 0;
  messages_received = 0;
  errors = 0;
}

-- The fields of a message that the server uses; `none` for the content is a NULL pointer.
pub record Message : Type 0 where
  pub from : Bytes
  pub to : Bytes
  pub type : Bytes
  pub content : Option Bytes

abbrev content_text : Option Bytes → Bytes
content_text none = []
content_text (some text) = text

unfoldable pub message_text : Message → Bytes
message_text m = format (
    codes "{\"from\":\""
    ∷ m.from
    ∷ codes "\",\"to\":\""
    ∷ m.to
    ∷ codes "\",\"type\":\""
    ∷ m.type
    ∷ codes "\",\"content\":\""
    ∷ content_text m.content
    ∷ codes "\"}"
    ∷ [])

abbrev pub max_pending : ℕ
max_pending = 50

-- The descriptor of the target, if it is registered and connected.
unfoldable pub target_fd : Option Registry → Bytes → Option ℕ
unfolding find_ci
target_fd none to = none
target_fd (some r) to = elim (find_ci r to) [ none ↦ none | some e ↦ e.socket_fd ]

-- A request is kept for a callback; the counter of the IDs has 32 bits.
unfoldable pub track : Context → Message → Option ℕ → ℕ → Context
track c m none now = c
track c m (some callback) now = record c {
  requests =
      c.requests
      ++ record {
        id = c.next_request_id;
        callback = callback;
        timestamp = now;
        timeout_ms = 30000;
        target_ci = take 31 m.to;
      }
        ∷ [];
  next_request_id = (c.next_request_id + 1) % 2 ^ 32;
}

-- `send` tells whether the whole text was sent.
unfoldable pub send_to : Context → Message → Option ℕ → (ℕ → Bytes → Bool) → ℕ → ℕ → Context × Code
unfolding message_text track
send_to c m callback send now fd =
    if leb 8192 (length (message_text m))
    then (c, e_protocol_size)
    else if send fd (message_text m)
    then (record (track c m callback now) { messages_sent = c.messages_sent + 1 }, success)
    else (c, e_system_socket)

unfoldable pub socket_send_message :
    Context → Option Message → Option ℕ → (ℕ → Bytes → Bool) → ℕ → Context × Code
unfolding target_fd send_to
socket_send_message c none callback send now = (c, e_input_null)
socket_send_message c (some m) callback send now =
    if leb max_pending (length c.requests)
    then (c, e_protocol_queue)
    else elim (target_fd c.registry m.to) [
      | none ↦ (c, e_ci_disconnected)
      | some fd ↦ send_to c m callback send now fd
    ]

abbrev pub expired : ℕ → Pending → Bool
expired now q = ltb q.timeout_ms ((now - q.timestamp) * 1000)

-- The loop over the requests, from an index on; a request that is removed is followed by the next one
-- at the same index. Beside the requests stand those whose callbacks were called, in order.
unfoldable pub timeouts_loop : ℕ → ℕ → List Pending → ℕ → List Pending → List Pending × List Pending
timeouts_loop zero now requests i called = (requests, called)
timeouts_loop (suc fuel) now requests i called = elim (drop i requests) [
  | [] ↦ (requests, called)
  | q ∷ behind ↦ elim (expired now q) [
    | true ↦ timeouts_loop fuel now (take i requests ++ behind) i (called ++ q ∷ [])
    | false ↦ timeouts_loop fuel now requests (i + 1) called
  ]
]

unfoldable pub check_request_timeouts : Context → ℕ → Context × List Pending
unfolding timeouts_loop
check_request_timeouts c now =
    let r = timeouts_loop (length c.requests) now c.requests 0 [] in
    (record c { requests = r.0 }, r.1)

-- What accept returns.
pub data Accepted : Type 0 where
  accepted : ℕ → Accepted
  no_connection : Accepted
  accept_failed : Accepted

-- `nonblocking` tells whether the client could be made so.
unfoldable pub accept_client : Context → Accepted → Bool → Context × Code
accept_client c no_connection nonblocking = (c, success)
accept_client c accept_failed nonblocking = (c, e_system_socket)
accept_client c (accepted fd) nonblocking =
    if nonblocking
    then if leb 50 (suc (length c.clients))
      then (c, e_protocol_queue)
      else (record c { clients = c.clients ++ fd ∷ [] }, success)
    else (c, e_system_socket)

-- Index 0 is the listening socket.
unfoldable pub cleanup_client : Context → ℕ → Context
cleanup_client c zero = c
cleanup_client c (suc i) =
    if ltb i (length c.clients)
    then record c { clients = take i c.clients ++ drop (suc i) c.clients }
    else c

-- A token: whether it is a string, and its text.
pub record Token : Type 0 where
  pub is_string : Bool
  pub text : Bytes

-- `strncmp(json + start, key, len) == 0`: the token begins the key.
unfoldable pub begins : Bytes → Bytes → Bool
begins [] key = true
begins (c ∷ s) [] = false
begins (c ∷ s) (k ∷ key) = c == k && begins s key

-- A value that fits is written over the field, without a NUL behind it.
abbrev pub write_field : Bytes → Bytes → Bytes
write_field old value = if ltb (length value) 32 then value ++ drop (length value) old else old

-- One round: the token, and the one behind it. `mem` is the allocator's answer; `none` is no memory.
unfoldable pub read_token : Bool → Token → Token → Message → Option Message
unfolding begins
read_token mem t value m =
    if t.is_string
    then if begins t.text (codes "from")
      then some (record m { from = write_field m.from value.text })
      else if begins t.text (codes "to")
      then some (record m { to = write_field m.to value.text })
      else if begins t.text (codes "content")
      then (if mem then some (record m { content = some value.text }) else none)
      else some m
    else some m

unfoldable pub read_tokens : Bool → List Token → Message → Option Message
unfolding read_token
read_tokens mem [] m = some m
read_tokens mem (t ∷ []) m = some m
read_tokens mem (t ∷ value ∷ ts) m = elim (read_token mem t value m) [
  | none ↦ none
  | some m' ↦ read_tokens mem (value ∷ ts) m'
]

abbrev empty_message : Message
empty_message = record { from = []; to = []; type = []; content = none }

-- The tokens are those of jsmn_parse, `none` where it fails; `type` is the allocator's answer for the
-- type.
unfoldable pub parse_json_message : Option (List Token) → Bool → Bool → Option Message × Code
unfolding read_tokens
parse_json_message none mem type = (none, e_protocol_format)
parse_json_message (some ts) mem type = elim (read_tokens mem ts empty_message) [
  | none ↦ (none, e_system_memory)
  | some m ↦
      if type
      then (some (record m { type = codes "request" }), success)
      else (none, e_system_memory)
]

-- What recv returns.
pub data Received : Type 0 where
  received : Bytes → Received
  nothing_yet : Received
  recv_failed : Received
  closed : Received

-- A message of the registry as the server sees it.
abbrev pub of_message : Messages.Message → Message
of_message m = record { from = m.from; to = m.to; type = m.type; content = some m.content }

-- The registry sends by the server, without a callback.
abbrev pub net_of : Context → Net → (ℕ → Bytes → Bool) → Net
net_of c net send = record net {
  send = λ m. (socket_send_message c (some (of_message m)) none send net.now).1;
}

-- With the registry that the message leaves; the server counts a message that it has sent.
abbrev routed : Context → Registry × Code → Context × Code
routed c (r, success) =
    (record c { registry = some r; messages_sent = c.messages_sent + 1 }, success)
routed c (r, other) = (record c { registry = some r }, other)

-- The message goes to the registry, if there is one, as a text of at most 8191 bytes.
unfoldable pub route_message : Net → (ℕ → Bytes → Bool) → Context → Message → Context × Code
unfolding message_text registry_send_message socket_send_message
route_message net send c m = elim c.registry [
  | none ↦ (c, success)
  | some r ↦ routed c (
      registry_send_message r (net_of c net send) (some m.from) (some m.to)
        (some (take 8191 (message_text m))))
]

unfoldable pub handle_message :
    Net → (ℕ → Bytes → Bool) → Context → Option Message × Code → Context × Code
unfolding route_message
handle_message net send c (some m, code) =
    route_message net send (record c { messages_received = c.messages_received + 1 }) m
handle_message net send c (none, code) = (record c { errors = c.errors + 1 }, code)

-- `tokens` are those of the tokenizer.
unfoldable pub handle_client_data :
    Net
    → (ℕ → Bytes → Bool)
    → (Bytes → Option (List Token))
    → Context
    → Received
    → Bool
    → Bool
    → Context × Code
unfolding handle_message parse_json_message
handle_client_data net send tokens c nothing_yet mem type = (c, success)
handle_client_data net send tokens c recv_failed mem type = (c, e_system_socket)
handle_client_data net send tokens c closed mem type = (c, e_ci_disconnected)
handle_client_data net send tokens c (received text) mem type =
    handle_message net send c (parse_json_message (tokens text) mem type)
