-- ===== src/Daemon/Helpers.antt =====
-- The helpers of the start of a workflow in src/daemon/argo_daemon_workflow_helpers.c: the arguments
-- in the body of the request, and the ID of a new instance. `none` for a string argument is a NULL
-- pointer.
pub mod Fresh
pub mod Args
pub mod Rounds
mod Examples
use mathlib.Core.Option
use argo.Base.{
  ℕ, zero, suc, ◌+◌, ◌-◌, ◌*◌, ◌/◌, ◌%◌, Bool, true, false, not, ◌&&◌, ◌||◌, List, [], ◌∷◌, ◌++◌,
  Option, none, some, ltb, leb, ◌==◌, if◌then◌else◌, Bytes, codes, take, length,
}
use argo.CString.{cut}
use argo.Json.{strip, after}
use argo.Error.{Code, success, e_system_memory, e_input_null}
use argo.WorkflowRegistry.{Entry, Registry, list}

abbrev pub is_digit : ℕ → Bool
is_digit c = leb b'0' c && leb c b'9'

-- The number that two digits behind the prefix make.
unfoldable pub id_number : Bytes → Bytes → Option ℕ
unfolding strip
id_number pre id = elim (strip pre id) [
  | none ↦ none
  | some [] ↦ none
  | some (a ∷ []) ↦ none
  | some (a ∷ b ∷ rest) ↦
      if is_digit a && is_digit b then some (10 * (a - b'0') + (b - b'0')) else none
]

-- The larger number.
abbrev pub raised : ℕ → Option ℕ → ℕ
raised max_num none = max_num
raised max_num (some num) = if ltb max_num num then num else max_num

unfoldable pub highest : Bytes → List Entry → ℕ → ℕ
unfolding id_number
highest pre [] max_num = max_num
highest pre (e ∷ es) max_num = highest pre es (raised max_num (id_number pre e.workflow_id))

-- `%02d` of a number below 1000.
unfoldable pub two_digits : ℕ → Bytes
two_digits n =
    if ltb n 100
    then (b'0' + n / 10) ∷ (b'0' + n % 10) ∷ []
    else (b'0' + n / 100) ∷ (b'0' + n / 10 % 10) ∷ (b'0' + n % 10) ∷ []

-- The text <template>_, cut to the 127 bytes that its buffer holds.
abbrev pub id_prefix : Bytes → Bytes
id_prefix template_name = take 127 (template_name ++ b'_' ∷ [])

abbrev pub with_suffix : Bytes → Bytes → Bytes
with_suffix template_name suffix = template_name ++ b'_' ∷ suffix

-- The suffix of a new instance, from the list of the workflows. `usec` is the text of the clock's
-- microseconds.
unfoldable pub suffix_from : Bytes → Bytes → Option (List Entry) × ℕ × Code → Bytes
unfolding highest two_digits
suffix_from template_name usec (none, count, success) = two_digits 1
suffix_from template_name usec (some es, count, success) =
    two_digits (highest (id_prefix template_name) es 0 + 1)
suffix_from template_name usec (entries, count, other) = usec

-- `mem` is the answer of the allocator for the list.
abbrev pub next_suffix : Registry → Bytes → Bytes → Bool → Bytes
next_suffix r template_name usec mem = suffix_from template_name usec (list r mem)

-- The ID is cut to what its buffer of `size` bytes holds.
unfoldable pub generate_workflow_id :
    Registry → Option Bytes → Option Bytes → ℕ → Bytes → Bool → Option Bytes × Code
unfolding suffix_from list
generate_workflow_id r none suffix size usec mem = (none, e_input_null)
generate_workflow_id r (some name) (some (c ∷ suffix)) size usec mem =
    (some (take (size - 1) (with_suffix name (c ∷ suffix))), success)
generate_workflow_id r (some name) _ size usec mem =
    (some (take (size - 1) (with_suffix name (next_suffix r name usec mem))), success)

unfoldable pub count_char : ℕ → Bytes → ℕ
count_char c [] = 0
count_char c (x ∷ s) = (if x == c then 1 else 0) + count_char c s

unfoldable pub skip_separators : Bytes → Bytes
skip_separators [] = []
skip_separators (c ∷ s) =
    let rest = skip_separators s in if c == b' ' || c == b',' then rest else c ∷ s

-- The loop over the array: `count` arguments are still looked for, `left` bytes stand in front of
-- the closing bracket. A round reads a quote, so the length of the text is fuel enough.
unfoldable pub take_args : (Bytes → Bool) → ℕ → ℕ → ℕ → Bytes → List Bytes
unfolding skip_separators cut
take_args mem zero count left s = []
take_args mem (suc fuel) zero left s = []
take_args mem (suc fuel) (suc count) zero s = []
take_args mem (suc fuel) (suc count) (suc left) s =
    let skipped = skip_separators s in
    let here = suc left - (length s - length skipped) in
    elim skipped [
      | [] ↦ []
      | c ∷ t ↦ elim (c == b'"') [
        | false ↦ []
        | true ↦ elim (cut b'"' t) [
          | none ↦ take_args mem fuel (suc count) (here - 1) t
          | some (arg, rest) ↦ elim (mem arg) [
            | true ↦ arg ∷ take_args mem fuel count (here - (length arg + 2)) rest
            | false ↦ take_args mem fuel (suc count) (here - (length arg + 2)) rest
          ]
        ]
      ]
    ]

abbrev pub args_key : Bytes
args_key = codes "\"args\""

-- The array: what stands between the brackets, and the text behind the opening one.
unfoldable pub array_of : Bytes → Option (Bytes × Bytes)
unfolding cut
array_of s = elim (cut b']' s) [
  | none ↦ none
  | some (upto, behind) ↦ elim (cut b'[' upto) [
    | none ↦ none
    | some (front, inside) ↦ some (inside, inside ++ b']' ∷ behind)
  ]
]

-- `array` is the allocator's answer for the array, `mem` that for each argument.
unfoldable pub parse_args_from_json : Bytes → Bool → (Bytes → Bool) → List Bytes × Code
unfolding after array_of count_char take_args
parse_args_from_json body array mem = elim (after args_key body) [
  | none ↦ ([], success)
  | some s ↦ elim (array_of s) [
    | none ↦ ([], success)
    | some (inside, text) ↦
        let count = count_char b'"' inside / 2 in
        if count == 0
        then ([], success)
        else if array
        then (take_args mem (length text) count (length inside) text, success)
        else ([], e_system_memory)
  ]
]

-- `while (*p == ' ') p++`.
unfoldable pub skip_spaces : Bytes → Bytes
skip_spaces [] = []
skip_spaces (c ∷ s) = let rest = skip_spaces s in if c == b' ' then rest else c ∷ s

-- What one round makes of the text behind a key: nothing where no colon follows, which leaves a NULL
-- pointer; the value, if there is one in quotes, and where the next round reads on.
unfoldable pub env_value : Bytes → Option (Option Bytes × Bytes)
unfolding cut skip_spaces
env_value s = elim (cut b':' s) [
  | none ↦ none
  | some (gap, after_colon) ↦ elim (skip_spaces after_colon) [
    | [] ↦ some (none, [])
    | c ∷ t ↦
        if c == b'"'
        then elim (cut b'"' t) [
          | none ↦ some (none, t)
          | some (value, rest) ↦ some (some value, rest)
        ]
        else some (none, c ∷ t)
  ]
]

-- A variable that is read: its key where that could be copied, and its value.
abbrev pub EnvVar : Type 0
EnvVar = Option Bytes × Bytes

-- The loop over the object, as in `take_args`; `none` is a read through a NULL pointer. A round reads
-- a quote, so the length of the text is fuel enough.
unfoldable pub take_env : (Bytes → Bool) → ℕ → ℕ → ℕ → Bytes → Option (List EnvVar)
unfolding skip_separators cut env_value
take_env mem zero count left s = some []
take_env mem (suc fuel) zero left s = some []
take_env mem (suc fuel) (suc count) zero s = some []
take_env mem (suc fuel) (suc count) (suc left) s = elim (skip_separators s) [
  | [] ↦ some []
  | c ∷ t ↦ elim (c == b'"') [
    | false ↦ some []
    | true ↦ elim (cut b'"' t) [
      | none ↦ take_env mem fuel (suc count) (suc left - (length s - length t)) t
      | some (key, behind) ↦ elim (env_value behind) [
        | none ↦ none
        | some (none, rest) ↦
            take_env mem fuel (suc count) (suc left - (length s - length rest)) rest
        | some (some value, rest) ↦ elim (mem value) [
          | false ↦ take_env mem fuel (suc count) (suc left - (length s - length rest)) rest
          | true ↦
              Option.map (λ vars. (if mem key then some key else none, value) ∷ vars)
                (take_env mem fuel count (suc left - (length s - length rest)) rest)
        ]
      ]
    ]
  ]
]

abbrev pub env_key : Bytes
env_key = codes "\"env\""

-- The object: what stands between the braces, and the text behind the opening one.
unfoldable pub object_of : Bytes → Option (Bytes × Bytes)
unfolding cut
object_of s = elim (cut b'}' s) [
  | none ↦ none
  | some (upto, behind) ↦ elim (cut b'{' upto) [
    | none ↦ none
    | some (front, inside) ↦ some (inside, inside ++ b'}' ∷ behind)
  ]
]

-- `arrays` is the allocator's answer for the two arrays, `mem` that for each key and value.
unfoldable pub parse_env_from_json : Bytes → Bool → (Bytes → Bool) → Option (List EnvVar × Code)
unfolding after object_of count_char take_env
parse_env_from_json body arrays mem = elim (after env_key body) [
  | none ↦ some ([], success)
  | some s ↦ elim (object_of s) [
    | none ↦ some ([], success)
    | some (inside, text) ↦
        let count = count_char b':' inside in
        if count == 0
        then some ([], success)
        else if arrays
        then Option.map (λ vars. (vars, success))
            (take_env mem (length text) count (length inside) text)
        else some ([], e_system_memory)
  ]
]
