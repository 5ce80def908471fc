-- ===== src/Json.antt =====
-- The JSON helpers of src/foundation/argo_json.c, and the unescaping of
-- src/daemon/argo_daemon_workflow_control.c. A C string is the list of the bytes in front of its
-- NUL; a buffer is the list of its bytes, and a write outside of it is a fault, `none`.
pub mod Escape
pub mod Buffer
pub mod Extract
pub mod Written
mod Examples
use mathlib.Core.Option
use argo.Base.{
  ℕ, zero, suc, ◌+◌, ◌-◌, ◌%◌, ◌^◌, Bool, true, false, ◌&&◌, ◌||◌, List, [], ◌∷◌, ◌++◌, Option,
  none, some, ltb, ◌==◌, if◌then◌else◌, Bytes, take, set, length,
}
use argo.Error.{Code, success, e_system_memory, e_input_null, e_input_range, e_protocol_format}

-- `buffer[i] = v`.
unfoldable pub store : Bytes → ℕ → ℕ → Option Bytes
store buffer i v = if ltb i (length buffer) then some (set buffer i v) else none

abbrev pub needs_escape : ℕ → Bool
needs_escape c = c == b'"' || c == b'\\'

-- The loop of `json_escape_string`: the buffer, the offset and the text that is left.
abbrev pub Progress : Type 0
Progress = Option (Bytes × ℕ × Bytes)

-- The body of the loop, for the byte `c`: a backslash where it needs one, and the byte.
unfoldable pub put : Bytes → ℕ → ℕ → Option (Bytes × ℕ)
unfolding store
put dest offset c =
    if needs_escape c
    then elim (store dest offset b'\\') [
      | none ↦ none
      | some dest' ↦ Option.map (λ d. (d, offset + 2)) (store dest' (offset + 1) c)
    ]
    else Option.map (λ d. (d, offset + 1)) (store dest offset c)

unfoldable pub escape_loop : ℕ → Bytes → ℕ → Bytes → Progress
unfolding put
escape_loop limit dest offset [] = some (dest, offset, [])
escape_loop limit dest offset (c ∷ s) = elim (ltb offset limit) [
  | false ↦ some (dest, offset, c ∷ s)
  | true ↦ elim (put dest offset c) [
    | none ↦ none
    | some (dest', offset') ↦ escape_loop limit dest' offset' s
  ]
]

-- What follows the loop: the test for a text left over, and the NUL.
unfoldable pub finish : ℕ → Progress → Option (Bytes × ℕ × Code)
unfolding store
finish old none = none
finish old (some (dest, offset, c ∷ s)) = some (dest, old, e_system_memory)
finish old (some (dest, offset, [])) = Option.map (λ d. (d, offset, success)) (store dest offset 0)

-- `dest_size - 3` is an unsigned difference of 64 bits. The result is the buffer, *dest_offset and
-- the code; `none` is a write outside of the buffer.
unfoldable pub escape_string : Bytes → ℕ → ℕ → Bytes → Option (Bytes × ℕ × Code)
unfolding escape_loop finish
escape_string dest dest_size offset src =
    finish offset (escape_loop ((dest_size + 2 ^ 64 - 3) % 2 ^ 64) dest offset src)

-- The byte that an escape stands for.
unfoldable pub unescaped_byte : ℕ → ℕ
unescaped_byte c =
    if c == b'n'
    then 10
    else if c == b'r'
    then 13
    else if c == b't'
    then 9
    else if c == b'b'
    then 8
    else if c == b'f'
    then 12
    else c

-- What `unescape_json_string` leaves; a lone backslash at the end stays.
unfoldable pub unescape : Bytes → Bytes
unfolding unescaped_byte
unescape [] = []
unescape (c ∷ []) = c ∷ []
unescape (c ∷ d ∷ s) = elim (c == b'\\') [
  | true ↦ unescaped_byte d ∷ unescape s
  | false ↦ c ∷ unescape (d ∷ s)
]

-- What follows `key` at the head of the text.
unfoldable pub strip : Bytes → Bytes → Option Bytes
strip [] s = some s
strip (k ∷ ks) [] = none
strip (k ∷ ks) (c ∷ s) = let rest = strip ks s in if k == c then rest else none

-- `strstr(s, key) + strlen(key)`, for a key that is not empty.
unfoldable pub after : Bytes → Bytes → Option Bytes
unfolding strip
after key [] = none
after key (c ∷ s) =
    let later = after key s in elim (strip key (c ∷ s)) [ some rest ↦ some rest | none ↦ later ]

-- `strchr(s, '"') + 1`.
unfoldable pub after_quote : Bytes → Option Bytes
after_quote [] = none
after_quote (c ∷ s) = let later = after_quote s in if c == b'"' then some s else later

-- The bytes up to the closing quote: a backslash takes the quote behind it along.
unfoldable pub scan : Bytes → Option Bytes
scan [] = none
scan (c ∷ []) = if c == b'"' then some [] else none
scan (c ∷ d ∷ s) = elim (c == b'"') [
  | true ↦ some []
  | false ↦ elim (c == b'\\' && d == b'"') [
    | true ↦ Option.map (λ r. c ∷ d ∷ r) (scan s)
    | false ↦ Option.map (λ r. c ∷ r) (scan (d ∷ s))
  ]
]

-- The search key, cut to the 66 bytes that its buffer holds.
unfoldable pub search_key : Bytes → Bytes
search_key field_name = take 66 (b'"' ∷ (field_name ++ b'"' ∷ []))

-- The value, or the code of the error; `mem` is the answer of the allocator.
unfoldable pub extract_string_field : Bytes → Bytes → Bool → Option Bytes × Code
unfolding after after_quote scan search_key
extract_string_field json field_name mem = elim (after (search_key field_name) json) [
  | none ↦ (none, e_protocol_format)
  | some rest ↦ elim (after_quote rest) [
    | none ↦ (none, e_protocol_format)
    | some content ↦ elim (scan content) [
      | none ↦ (none, e_protocol_format)
      | some value ↦ if mem then (some value, success) else (none, e_system_memory)
    ]
  ]
]

-- From the text behind the names in front of the last one; the search for a name goes on behind it.
unfoldable pub extract_path : Bytes → Bytes → List Bytes → Bool → Option Bytes × Code
unfolding after search_key extract_string_field
extract_path json name [] mem = extract_string_field json name mem
extract_path json name (next ∷ names) mem = elim (after (search_key name) json) [
  | none ↦ (none, e_protocol_format)
  | some rest ↦ extract_path rest next names mem
]

unfoldable pub extract_nested_string : Bytes → List Bytes → Bool → Option Bytes × Code
unfolding extract_path
extract_nested_string json [] mem = (none, e_input_range)
extract_nested_string json (name ∷ names) mem =
    if ltb 4 (length names) then (none, e_input_range) else extract_path json name names mem
