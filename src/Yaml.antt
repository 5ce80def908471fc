-- ===== src/Yaml.antt =====
-- The reader of key: value lines of src/foundation/argo_yaml.c. `none` for an argument is a NULL
-- pointer; the callback is a function on the state that `userdata` points to.
pub mod Reading
pub mod RoundTrip
mod Examples
use argo.Base.{
  ℕ, zero, suc, ◌-◌, Bool, true, false, not, ◌&&◌, ◌||◌, List, [], ◌∷◌, ◌++◌, Option, none, some,
  ◌==◌, if◌then◌else◌, Bytes, take, str_eq,
}
use argo.CString.{strip_quotes, cut}
use argo.Error.{Code, success, e_invalid_params, e_workflow_not_found}

-- What a line holds without its NUL: ARGO_BUFFER_STANDARD - 1.
abbrev pub line_max : ℕ
line_max = 4095

abbrev pub is_blank : ℕ → Bool
is_blank c = c == b' ' || c == 9

abbrev pub is_blank_cr : ℕ → Bool
is_blank_cr c = is_blank c || c == 13

unfoldable pub skip_blanks : Bytes → Bytes
skip_blanks [] = []
skip_blanks (c ∷ s) = let rest = skip_blanks s in if is_blank c then rest else c ∷ s

-- The string without the bytes at its end that `p` names.
unfoldable pub trim_end_by : (ℕ → Bool) → Bytes → Bytes
trim_end_by p [] = []
trim_end_by p (c ∷ s) = elim (trim_end_by p s) [
  | [] ↦ if p c then [] else c ∷ []
  | d ∷ t ↦ c ∷ d ∷ t
]

-- What stands in front of the first such byte; all of it if there is none.
unfoldable pub before : ℕ → Bytes → Bytes
unfolding cut
before c s = elim (cut c s) [ none ↦ s | some (a, b) ↦ a ]

-- The value of a line, from the text behind the colon.
unfoldable pub yaml_value : Bytes → Bytes
unfolding skip_blanks trim_end_by before strip_quotes
yaml_value text = strip_quotes (trim_end_by is_blank_cr (before b'#' (skip_blanks text)))

-- The key and the value of a line without its leading blanks.
unfoldable pub parse_trimmed : Bytes → Option (Bytes × Bytes)
unfolding cut trim_end_by yaml_value
parse_trimmed [] = none
parse_trimmed (c ∷ s) = if c == b'#' then none else elim (cut b':' (c ∷ s)) [
  | none ↦ none
  | some (key, text) ↦ some (trim_end_by is_blank key, yaml_value text)
]

unfoldable pub parse_line : Bytes → Option (Bytes × Bytes)
unfolding parse_trimmed skip_blanks
parse_line line = parse_trimmed (skip_blanks line)

-- The lines of the text: `room` is what is left of the buffer, `line` what was read into it.
unfoldable pub lines_from : ℕ → Bytes → Bytes → List Bytes
lines_from room [] [] = []
lines_from room (x ∷ line) [] = (x ∷ line) ∷ []
lines_from zero line (c ∷ s) = elim (c == 10) [
  | true ↦ line ∷ lines_from line_max [] s
  | false ↦ line ∷ lines_from (line_max - 1) (c ∷ []) s
]
lines_from (suc room) line (c ∷ s) = elim (c == 10) [
  | true ↦ line ∷ lines_from line_max [] s
  | false ↦ lines_from room (line ++ c ∷ []) s
]

module _ {S : Type 0} (callback : Bytes → Bytes → S → S) where
  -- A line that holds no pair is skipped.
  unfoldable pub visit : Option (Bytes × Bytes) → S → S
  visit none s = s
  visit (some (key, value)) s = callback key value s

  unfoldable pub visit_lines : List Bytes → S → S
  unfolding visit parse_line
  visit_lines [] s = s
  visit_lines (l ∷ ls) s = visit_lines ls (visit (parse_line l) s)

  unfoldable pub yaml_parse_simple : Option Bytes → S → S × Code
  unfolding visit_lines lines_from
  yaml_parse_simple none s = (s, e_invalid_params)
  yaml_parse_simple (some content) s = (visit_lines (lines_from line_max [] content) s, success)

  -- `read` is what `file_read_all` gives for the path: the text, or its code.
  unfoldable pub yaml_parse_file : Option Bytes → (Bytes → Option Bytes × Code) → S → S × Code
  unfolding yaml_parse_simple
  yaml_parse_file none read s = (s, e_invalid_params)
  yaml_parse_file (some path) read s = elim (read path).1 [
    | success ↦ yaml_parse_simple (read path).0 s
    | other ↦ (s, other)
  ]

pub record Lookup : Type 0 where
  pub search_key : Bytes
  pub value_buffer : Bytes
  pub value_size : ℕ
  pub found : Bool

unfoldable pub yaml_lookup_callback : Bytes → Bytes → Lookup → Lookup
unfolding str_eq
yaml_lookup_callback key value ctx =
    if not ctx.found && str_eq key ctx.search_key
    then record ctx { value_buffer = take (ctx.value_size - 1) value; found = true }
    else ctx

-- `buffer` is the string that the buffer holds; the result is the one that it holds then.
unfoldable pub yaml_get_value : Option Bytes → Option Bytes → Option Bytes → ℕ → Option Bytes × Code
unfolding yaml_parse_simple yaml_lookup_callback
yaml_get_value (some content) (some key) (some buffer) (suc size) =
    let ctx : Lookup = record {
      search_key = key;
      value_buffer = buffer;
      value_size = suc size;
      found = false;
    } in
    let r = yaml_parse_simple yaml_lookup_callback (some content) ctx in
    elim r.1 [
      | success ↦ (some r.0.value_buffer, if r.0.found then success else e_workflow_not_found)
      | other ↦ (some r.0.value_buffer, other)
    ]
yaml_get_value _ _ buffer _ = (buffer, e_invalid_params)
