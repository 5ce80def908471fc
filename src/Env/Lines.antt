-- ===== src/Env/Lines.antt =====
-- The lines of an environment file, as src/foundation/argo_env_load.c reads them.
use argo.Base.{Bool, [], ◌∷◌, Option, none, some, ◌==◌, if◌then◌else◌, Bytes, codes}
use argo.CString.{trim, strip_quotes, cut}
use argo.Json.{strip}
use argo.Error.{Code, success, e_system_memory}

abbrev pub export_prefix : Bytes
export_prefix = codes "export "

-- The text behind "export ", trimmed; any other text as it is.
unfoldable pub drop_export : Bytes → Bytes
unfolding strip trim
drop_export s = elim (strip export_prefix s) [ some rest ↦ trim rest | none ↦ s ]

-- What the '=' cuts: the name, trimmed, and the value, trimmed and without its quotes.
unfoldable pub parse_pair : Bytes → Option (Bytes × Bytes)
unfolding cut trim strip_quotes
parse_pair s = elim (cut b'=' s) [
  | none ↦ none
  | some (key, value) ↦ elim (trim key) [
    | [] ↦ none
    | c ∷ name ↦ some (c ∷ name, strip_quotes (trim value))
  ]
]

-- A trimmed line: blank lines and comments are skipped.
unfoldable pub parse_trimmed : Bytes → Option (Bytes × Bytes)
unfolding parse_pair drop_export
parse_trimmed [] = none
parse_trimmed (c ∷ s) = if c == b'#' then none else parse_pair (drop_export (c ∷ s))

-- `mem` tells whether the line and the two results can be allocated.
unfoldable pub parse_env_line : Bytes → Bool → Option (Bytes × Bytes) × Code
unfolding parse_trimmed
parse_env_line line mem =
    if mem then (parse_trimmed (trim line), success) else (none, e_system_memory)
