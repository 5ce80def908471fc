-- ===== src/Messages.antt =====
-- The messages between CIs of src/daemon/argo_registry_messaging.c: reading a message, and its way
-- through the CI registry. The socket's answer for a message is a parameter; the printing of a message
-- is left out. `none` for a string argument is a NULL pointer.
pub mod Delivery
pub mod Broadcast
mod Examples
use argo.Base.{
  suc, ℕ, ◌+◌, ◌-◌, ◌^◌, Bool, true, false, not, ◌&&◌, ◌||◌, List, [], ◌∷◌, Option, none, some, ltb,
  leb, ◌==◌, if◌then◌else◌, Bytes, codes, take, str_eq,
}
use argo.CString.{trim_start}
use argo.Json.{after, extract_string_field}
use argo.Error.{Code, success, e_ci_no_provider, e_ci_disconnected, e_input_null, e_protocol_format}
use argo.Http.Request.{scan_digits}
use argo.CiRegistry.{Status, ready, busy, status_eq, Entry, Registry, find_ci, write}

pub record Message : Type 0 where
  pub from : Bytes
  pub to : Bytes
  pub timestamp : ℕ
  pub type : Bytes
  pub thread_id : Option Bytes
  pub content : Bytes
  pub priority : Option Bytes
  pub timeout_ms : ℕ

-- What a message meets: the allocator for the message and for each field by its name, the clock, and
-- the socket.
pub record Net : Type 0 where
  pub mem : Bool
  pub field : Bytes → Bool
  pub now : ℕ
  pub send : Message → Code

-- The name that fits its field of 32 bytes.
abbrev pub name_field : Bytes → Bytes
name_field = take 31

-- `strtol` for a number that is not negative, which is at most LONG_MAX.
unfoldable pub scan_long : Bytes → Option ℕ
unfolding scan_digits trim_start
scan_long s = elim (trim_start s) [
  | [] ↦ none
  | c ∷ t ↦
      if c == b'-'
      then elim (scan_digits t) [ none ↦ none | some n ↦ if n == 0 then some 0 else none ]
      else elim (scan_digits (if c == b'+' then t else c ∷ t)) [
        | none ↦ none
        | some n ↦ some (if ltb n (2 ^ 63) then n else 2 ^ 63 - 1)
      ]
]

unfoldable pub timestamp_of : Bytes → ℕ → ℕ
unfolding after scan_long
timestamp_of json now = elim (after (codes "\"timestamp\":") json) [
  | none ↦ now
  | some rest ↦ elim (scan_long rest) [ none ↦ now | some ts ↦ ts ]
]

unfoldable pub timeout_of : Bytes → ℕ
unfolding after scan_long
timeout_of json = elim (after (codes "\"timeout_ms\":") json) [
  | none ↦ 0
  | some rest ↦ elim (scan_long rest) [ none ↦ 0 | some n ↦ if ltb n (2 ^ 31) then n else 0 ]
]

-- A string field of the message.
abbrev pub field_of : Net → Bytes → Bytes → Option Bytes
field_of net json name = (extract_string_field json name (net.field name)).0

-- The fields that must be there.
unfoldable pub required_fields : Net → Bytes → Option (Bytes × Bytes × Bytes × Bytes)
unfolding extract_string_field
required_fields net json = elim (field_of net json (codes "from")) [
  | none ↦ none
  | some from ↦ elim (field_of net json (codes "to")) [
    | none ↦ none
    | some to ↦ elim (field_of net json (codes "type")) [
      | none ↦ none
      | some type ↦ elim (field_of net json (codes "content")) [
        | none ↦ none
        | some content ↦ some (from, to, type, content)
      ]
    ]
  ]
]

unfoldable pub message_from_json : Net → Option Bytes → Option Message
unfolding required_fields timestamp_of timeout_of extract_string_field
message_from_json net none = none
message_from_json net (some json) =
    if net.mem
    then elim (required_fields net json) [
      | none ↦ none
      | some (from, to, type, content) ↦ some (record {
        from = name_field from;
        to = name_field to;
        timestamp = timestamp_of json net.now;
        type = type;
        thread_id = field_of net json (codes "thread_id");
        content = content;
        priority = field_of net json (codes "priority");
        timeout_ms = timeout_of json;
      })
    ]
    else none

-- `texts` answers for the copies of the type and the content.
unfoldable pub message_create :
    Net → Bool → Option Bytes → Option Bytes → Option Bytes → Option Bytes → Option Message
message_create net texts (some from) (some to) (some type) (some content) =
    if net.mem && texts
    then some (record {
      from = name_field from;
      to = name_field to;
      timestamp = net.now;
      type = type;
      thread_id = none;
      content = content;
      priority = none;
      timeout_ms = 0;
    })
    else none
message_create net texts _ _ _ _ = none

abbrev pub is_online : Status → Bool
is_online s = status_eq s ready || status_eq s busy

unfoldable pub with_sent : Entry → Entry
with_sent e = record e { messages_sent = e.messages_sent + 1 }

unfoldable pub with_received : Entry → Entry
with_received e = record e { messages_received = e.messages_received + 1 }

unfoldable pub with_error : ℕ → Entry → Entry
with_error now e = record e { errors_count = e.errors_count + 1; last_error = now }

-- By the answer of the socket.
unfoldable pub settled : Registry → Bytes → ℕ → Code → Registry × Code
unfolding write with_error
settled r to_ci now success = (r, success)
settled r to_ci now other = (write r to_ci (with_error now), other)

-- From the parsed message on.
unfoldable pub deliver : Registry → Net → Bytes → Bytes → Message → Registry × Code
unfolding write with_sent with_received settled
deliver r net from_ci to_ci msg =
    settled (write (write r from_ci with_sent) to_ci with_received) to_ci net.now (net.send msg)

unfoldable pub send_found : Registry → Net → Bytes → Bytes → Bytes → Entry → Registry × Code
unfolding deliver message_from_json
send_found r net from_ci to_ci json to_entry =
    if is_online to_entry.status
    then elim (message_from_json net (some json)) [
      | none ↦ (r, e_protocol_format)
      | some msg ↦ deliver r net from_ci to_ci msg
    ]
    else (r, e_ci_disconnected)

unfoldable pub registry_send_message :
    Registry → Net → Option Bytes → Option Bytes → Option Bytes → Registry × Code
unfolding send_found find_ci
registry_send_message r net (some from_ci) (some to_ci) (some json) = elim (find_ci r to_ci) [
  | none ↦ (r, e_ci_no_provider)
  | some to_entry ↦ send_found r net from_ci to_ci json to_entry
]
registry_send_message r net _ _ _ = (r, e_input_null)

-- Is the entry one that a broadcast goes to?
unfoldable pub is_target : Bytes → Option Bytes → Entry → Bool
unfolding str_eq
is_target from_ci role_filter e =
    not (str_eq e.name from_ci)
    && elim role_filter [ none ↦ true | some role ↦ str_eq e.role role ]
    && is_online e.status

-- The world of the sends behind the first one.
abbrev pub later : (ℕ → Net) → ℕ → Net
later nets i = nets (suc i)

-- The walk over the entries, which a send changes only in their counters; with the number of the
-- messages that were sent. Each send has a world of its own, so that some can fail and others not.
unfoldable pub broadcast_loop :
    Registry → (ℕ → Net) → Bytes → Option Bytes → Bytes → List Entry → Registry × ℕ
unfolding registry_send_message is_target
broadcast_loop r nets from_ci role_filter json [] = (r, 0)
broadcast_loop r nets from_ci role_filter json (e ∷ es) = elim (is_target from_ci role_filter e) [
  | false ↦ broadcast_loop r nets from_ci role_filter json es
  | true ↦
      let sent = registry_send_message r (nets 0) (some from_ci) (some e.name) (some json) in
      let rest = broadcast_loop sent.0 (later nets) from_ci role_filter json es in
      elim sent.1 [ success ↦ (rest.0, rest.1 + 1) | other ↦ rest ]
]

unfoldable pub registry_broadcast_message :
    Registry → (ℕ → Net) → Option Bytes → Option Bytes → Option Bytes → Registry × Code
unfolding broadcast_loop
registry_broadcast_message r nets (some from_ci) role_filter (some json) = elim r.entries [
  | [] ↦ (r, success)
  | e ∷ es ↦
      let done = broadcast_loop r nets from_ci role_filter json (e ∷ es) in
      (done.0, if ltb 0 done.1 then success else e_ci_no_provider)
]
registry_broadcast_message r nets _ role_filter _ = (r, e_input_null)
