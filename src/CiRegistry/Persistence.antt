-- ===== src/CiRegistry/Persistence.antt =====
-- The registry's file: src/daemon/argo_registry_persistence.c. A file is what it holds, `none` where
-- it cannot be opened or read. A conversion of a number that an int does not hold wraps around.
pub mod Saved
pub mod Fields
pub mod Loading
pub mod RoundTrip
mod Examples
use argo.Base.{
  ℕ, zero, suc, ◌+◌, ◌^◌, Bool, true, false, ◌&&◌, ◌||◌, not, List, [], ◌∷◌, ◌++◌, Option, none,
  some, ltb, ◌==◌, if◌then◌else◌, Bytes, codes, take, length,
}
use argo.Base.Nodes.{modify_node}
use argo.CString.{cut, c_string}
use argo.CString.Print.{decimal, format}
use argo.Error.{Code, success, e_system_file}
use argo.Http.Request.{scan_int}
use argo.Json.{after}
use argo.CiRegistry.{
  Status, offline, starting, ready, busy, error, shutdown, status_eq, Entry, Registry, name_of,
  find_ci, add_ci,
}

-- The number of a status.
abbrev pub status_number : Status → ℕ
status_number offline = 0
status_number starting = 1
status_number ready = 2
status_number busy = 3
status_number error = 4
status_number shutdown = 5

abbrev pub separator : List Entry → Bytes
separator [] = []
separator (_ ∷ _) = codes ","

abbrev pub entry_pieces : Entry → List Entry → List Bytes
entry_pieces e next =
    codes "    {\n      \"name\": \""
    ∷ e.name
    ∷ codes "\",\n      \"role\": \""
    ∷ e.role
    ∷ codes "\",\n      \"model\": \""
    ∷ e.model
    ∷ codes "\",\n      \"host\": \""
    ∷ e.host
    ∷ codes "\",\n      \"port\": "
    ∷ decimal e.port
    ∷ codes ",\n      \"status\": "
    ∷ decimal (status_number e.status)
    ∷ codes ",\n      \"registered_at\": "
    ∷ decimal e.registered_at
    ∷ codes "\n    }"
    ∷ separator next
    ∷ codes "\n"
    ∷ []

-- The entries and the footer.
unfoldable pub write_entries : List Entry → Bytes
unfolding decimal
write_entries [] = codes "  ]\n}\n"
write_entries (e ∷ es) = format (entry_pieces e es) ++ write_entries es

unfoldable pub saved_text : Registry → Bytes
unfolding write_entries decimal
saved_text r =
    codes "{\n  \"version\": 1,\n  \"count\": "
    ++ (decimal r.count ++ (codes ",\n  \"entries\": [\n" ++ write_entries r.entries))

-- `opens` tells whether the file can be opened.
unfoldable pub save_state : Registry → Bool → Option Bytes × Code
unfolding saved_text
save_state r opens = if opens then (some (saved_text r), success) else (none, e_system_file)

-- The search text of a field, cut to the 63 bytes that its buffer holds.
abbrev pub field_key : Bytes → Bytes
field_key field = take 63 (codes "\"" ++ (field ++ codes "\":"))

-- A field of an entry, whose text is cut to `max` bytes; the entry is given by its bytes up to the
-- first '}', in front of which each search has to end. Where the field is missing, the buffer keeps
-- its zeros.
unfoldable pub extract_field : Bytes → Bytes → ℕ → Bytes
unfolding after cut
extract_field entry field max = elim (after (field_key field) entry) [
  | none ↦ []
  | some rest ↦ elim (cut b'"' rest) [
    | none ↦ []
    | some (before, value) ↦ elim (cut b'"' value) [ none ↦ [] | some (v, behind) ↦ take max v ]
  ]
]

-- An int, by its 32 bits.
unfoldable pub extract_int_field : Bytes → Bytes → ℕ
unfolding after scan_int
extract_int_field entry field = elim (after (field_key field) entry) [
  | none ↦ 0
  | some rest ↦ elim (scan_int rest) [ none ↦ 0 | some n ↦ n ]
]

-- The status with a number; C keeps a number without a name as it is, and the model has none.
unfoldable pub status_of : ℕ → Option Status
status_of n =
    if n == 0
    then some offline
    else if n == 1
    then some starting
    else if n == 2
    then some ready
    else if n == 3
    then some busy
    else if n == 4
    then some error
    else if n == 5
    then some shutdown
    else none

unfoldable pub with_status : Status → Entry → Entry
with_status s e = record e { status = s }

abbrev pub nonempty : Bytes → Bool
nonempty [] = false
nonempty (_ ∷ _) = true

-- A registered entry gets its status.
unfoldable pub restore_status : Registry × Code → Bytes → Option Status → Option Registry
unfolding modify_node with_status
restore_status (r, success) name (some s) =
    some (record r { entries = modify_node name_of name (with_status s) r.entries })
restore_status (r, success) name none = none
restore_status (r, other) name s = some r

-- From the fields of an entry on; `none` is a status without a name.
unfoldable pub load_found : Registry → Bytes → Bytes → Bytes → ℕ → ℕ → Bool → ℕ → Option Registry
unfolding status_of restore_status add_ci
load_found r name role model port status mem now =
    if nonempty name && nonempty role && nonempty model && ltb 0 port && ltb port (2 ^ 31)
    then restore_status (add_ci r (some name) (some role) (some model) port mem now) name
        (status_of status)
    else some r

unfoldable pub load_entry : Registry → Bytes → Bool → ℕ → Option Registry
unfolding extract_field extract_int_field load_found
load_entry r entry mem now =
    load_found r (extract_field entry (codes "name") 31) (extract_field entry (codes "role") 31)
      (extract_field entry (codes "model") 63) (extract_int_field entry (codes "port"))
      (extract_int_field entry (codes "status")) mem now

abbrev pub is_gap : ℕ → Bool
is_gap c = c == b' ' || c == 10 || c == 9 || c == b','

unfoldable pub skip_gap : Bytes → Bytes
skip_gap [] = []
skip_gap (c ∷ s) = let rest = skip_gap s in if is_gap c then rest else c ∷ s

-- The rest of the text once an entry is found, or where there is none.
unfoldable pub entry_at : Bytes → Option (Bytes × Bytes)
unfolding cut
entry_at [] = none
entry_at (c ∷ s) = if c == b'{' then cut b'}' (c ∷ s) else none

abbrev pub at_end : Bytes → Bool
at_end [] = true
at_end (c ∷ s) = c == b']'

-- The loop over the entries; a round that goes on reads at least the '}'.
unfoldable pub load_entries : ℕ → Registry → Bytes → Bool → ℕ → Option Registry
unfolding skip_gap entry_at load_entry
load_entries zero r s mem now = some r
load_entries (suc fuel) r s mem now = if at_end s then some r else elim (entry_at (skip_gap s)) [
  | none ↦ some r
  | some (entry, rest) ↦ elim (load_entry r entry mem now) [
    | none ↦ none
    | some r' ↦ load_entries fuel r' rest mem now
  ]
]

-- The registry that the text of a file gives.
unfoldable pub load_text : Registry → Bytes → Bool → ℕ → Option Registry
unfolding after cut load_entries
load_text r text mem now = elim (after (codes "\"entries\":") text) [
  | none ↦ some r
  | some rest ↦ elim (cut b'[' rest) [
    | none ↦ some r
    | some (before, s) ↦ load_entries (suc (length s)) r s mem now
  ]
]

-- The result is success in every case.
unfoldable pub load_state : Registry → Option Bytes → Bool → ℕ → Option Registry
unfolding load_text c_string
load_state r none mem now = some r
load_state r (some content) mem now = load_text r (c_string content) mem now

pub record Stats : Type 0 where
  pub total_cis : ℕ
  pub online_cis : ℕ
  pub busy_cis : ℕ
  pub total_messages : ℕ
  pub total_errors : ℕ
  pub uptime : ℕ

abbrev one_if : Bool → ℕ
one_if b = if b then 1 else 0

-- The loop over the entries.
unfoldable pub count_entries : List Entry → Stats → Stats
count_entries [] s = s
count_entries (e ∷ es) s = count_entries es (record s {
  online_cis = s.online_cis + one_if (not (status_eq e.status offline));
  busy_cis = s.busy_cis + one_if (status_eq e.status busy);
  total_messages = s.total_messages + (e.messages_sent + e.messages_received);
  total_errors = s.total_errors + e.errors_count;
})

-- `mem` is the allocator's answer.
unfoldable pub get_stats : Registry → Bool → Option Stats
unfolding count_entries
get_stats r mem =
    if mem
    then some (
        count_entries r.entries (record {
          total_cis = r.count;
          online_cis = 0;
          busy_cis = 0;
          total_messages = 0;
          total_errors = 0;
          uptime = 0;
        }))
    else none
