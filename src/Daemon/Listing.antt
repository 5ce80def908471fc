-- ===== src/Daemon/Listing.antt =====
-- The endpoints of src/daemon/argo_daemon_workflow_api.c that show workflows, with the texts of their
-- responses. A size_t has 64 bits and wraps around; the count of the workflows is taken to fit an
-- int. `none` is a write outside of a buffer.
pub mod Items
pub mod Responses
mod Examples
use argo.Base.{
  ℕ, ◌+◌, ◌-◌, ◌*◌, ◌%◌, ◌^◌, Bool, true, false, List, [], ◌∷◌, ◌++◌, Option, none, some, leb, ltb,
  if◌then◌else◌, Bytes, codes, take, length,
}
use argo.CString.{c_string}
use argo.CString.Print.{snprintf, decimal, format}
use argo.Error.{Code, success, e_system_memory, e_input_null, e_not_found}
use argo.Http.Request.{Response, http_response_set_json, http_response_set_error}
use argo.WorkflowRegistry.{Entry, Registry, find, list, state_to_string}
use argo.Daemon.Control.{workflow_id}

-- The format of an entry.
abbrev pub item_pieces : Bool → Entry → List Bytes
item_pieces first e =
    (if first then [] else codes ",")
    ∷ codes "{\"workflow_id\":\""
    ∷ e.workflow_id
    ∷ codes "\",\"script\":\""
    ∷ e.workflow_name
    ∷ codes "\",\"state\":\""
    ∷ state_to_string e.state
    ∷ codes "\",\"pid\":"
    ∷ decimal e.executor_pid
    ∷ codes "}"
    ∷ []

unfoldable pub item_text : Bool → Entry → Bytes
item_text first e = format (item_pieces first e)

-- `json_size - offset`.
abbrev pub space_left : ℕ → ℕ → ℕ
space_left json_size offset = (json_size + 2 ^ 64 - offset % 2 ^ 64) % 2 ^ 64

-- The loop over the entries, with the buffer and the offset; it leaves when the margin is reached.
unfoldable pub append_items : ℕ → Bytes → ℕ → Bool → List Entry → Option (Bytes × ℕ)
unfolding snprintf item_text
append_items json_size b offset first [] = some (b, offset)
append_items json_size b offset first (e ∷ es) =
    let text = item_text first e in
    elim (snprintf b offset (space_left json_size offset) text) [
      | none ↦ none
      | some b' ↦ elim (leb (json_size - 10) (offset + length text)) [
        | true ↦ some (b', offset + length text)
        | false ↦ append_items json_size b' (offset + length text) false es
      ]
    ]

-- The three parts of the text: what is in front, the entries, and the end.
unfoldable pub list_json : ℕ → Bytes → List Entry → Option Bytes
unfolding snprintf append_items
list_json json_size b entries = elim (snprintf b 0 json_size (codes "{\"workflows\":[")) [
  | none ↦ none
  | some b' ↦ elim (append_items json_size b' 14 true entries) [
    | none ↦ none
    | some (b'', offset) ↦ snprintf b'' offset (space_left json_size offset) (codes "]}")
  ]
]

-- The product and the sum are computed in an int, which wraps around from 2 ^ 31 on, and then
-- extended to a size_t.
unfoldable pub list_size : ℕ → ℕ
list_size count =
    let n = (count * 256 + 100) % 2 ^ 32 in if ltb n (2 ^ 31) then n else n + (2 ^ 64 - 2 ^ 32)

abbrev entries_of : Option (List Entry) → List Entry
entries_of none = []
entries_of (some es) = es

-- With the array of the entries at hand; `mem` is the allocator's answer for the response.
unfoldable pub list_response :
    (ℕ → Option Bytes) → Bool → Response → List Entry → ℕ → Option (Response × Code)
unfolding list_json http_response_set_json http_response_set_error c_string list_size
list_response malloc mem resp entries count = elim (malloc (list_size count)) [
  | none ↦ some (
    http_response_set_error resp 500 (some (codes "Memory allocation failed")) mem,
    e_system_memory,
  )
  | some b ↦ elim (list_json (list_size count) b entries) [
    | none ↦ none
    | some json ↦ some (http_response_set_json resp 200 (some (c_string json)) mem, success)
  ]
]

-- From the answer of the registry on.
unfoldable pub list_reply :
    (ℕ → Option Bytes) → Bool → Response → Option (List Entry) × ℕ × Code → Option (Response × Code)
unfolding list_response http_response_set_error
list_reply malloc mem resp (entries, count, success) =
    list_response malloc mem resp (entries_of entries) count
list_reply malloc mem resp (entries, count, other) =
    some (http_response_set_error resp 500 (some (codes "Failed to list workflows")) mem, other)

-- `array` is the allocator's answer for the array of the entries, `malloc` gives the buffer with
-- whatever it holds.
unfoldable pub api_workflow_list :
    Registry → Bool → (ℕ → Option Bytes) → Bool → Response → Option (Response × Code)
unfolding list list_reply
api_workflow_list r array malloc mem resp = list_reply malloc mem resp (list r array)

abbrev pub status_pieces : Entry → List Bytes
status_pieces e =
    codes "{\"workflow_id\":\""
    ∷ e.workflow_id
    ∷ codes "\",\"script\":\""
    ∷ e.workflow_name
    ∷ codes "\",\"state\":\""
    ∷ state_to_string e.state
    ∷ codes "\",\"pid\":"
    ∷ decimal e.executor_pid
    ∷ codes ",\"start_time\":"
    ∷ decimal e.start_time
    ∷ codes ",\"end_time\":"
    ∷ decimal e.end_time
    ∷ codes ",\"exit_code\":"
    ∷ decimal e.exit_code
    ∷ codes "}"
    ∷ []

unfoldable pub status_text : Entry → Bytes
status_text e = format (status_pieces e)

-- The text is cut to the 4095 bytes that its buffer holds.
unfoldable pub api_workflow_status : Registry → Bytes → Bool → Response → Response × Code
unfolding workflow_id find status_text http_response_set_json http_response_set_error
api_workflow_status r path mem resp = elim (workflow_id path) [
  | none ↦ (http_response_set_error resp 400 (some (codes "Missing workflow ID")) mem, e_input_null)
  | some id ↦ elim (find r id) [
    | none ↦ (http_response_set_error resp 404 (some (codes "Workflow not found")) mem, e_not_found)
    | some e ↦ (http_response_set_json resp 200 (some (take 4095 (status_text e))) mem, success)
  ]
]
