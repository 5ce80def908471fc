-- ===== src/Env/Expand.antt =====
-- The expansion of ${NAME} in src/foundation/argo_env_load.c. The buffer of 4096 bytes holds 4095
-- and the NUL.
use argo.Base.{
  ℕ, zero, suc, ◌+◌, Bool, true, false, List, [], ◌∷◌, ◌++◌, Option, none, some, ltb, leb,
  if◌then◌else◌, Bytes, codes, length,
}
use argo.CString.{cut}
use argo.Json.{strip, after}
use argo.Env.{lookup_value, entry_of}
use argo.Error.{Code, success, e_system_memory}

abbrev pub line_max : ℕ
line_max = 4095

abbrev pub var_name_max : ℕ
var_name_max = 256

abbrev pub max_depth : ℕ
max_depth = 10

-- A reference at the head of the text: its name, and what stands behind it.
unfoldable pub reference : Bytes → Option (Bytes × Bytes)
unfolding strip cut
reference s = elim (strip (codes "${") s) [
  | none ↦ none
  | some body ↦ elim (cut b'}' body) [
    | none ↦ none
    | some (name, rest) ↦ if ltb (length name) var_name_max then some (name, rest) else none
  ]
]

-- What a name's value adds to the buffer: all of it, or nothing where it does not fit.
unfoldable pub fit : Bytes → Bytes → Bytes
fit out x = if ltb (length out + length x) line_max then x else []

-- The loop over the value, with the expansion of the next depth. A round reads at least one byte, so the
-- length of the text is fuel enough.
unfoldable pub expand_loop : (Bytes → Bytes) → List Bytes → ℕ → Bytes → Bytes → Bytes
unfolding reference fit
expand_loop deeper es zero src out = out
expand_loop deeper es (suc fuel) [] out = out
expand_loop deeper es (suc fuel) (c ∷ s) out = elim (leb line_max (length out)) [
  | true ↦ out
  | false ↦ elim (reference (c ∷ s)) [
    | none ↦ expand_loop deeper es fuel s (out ++ c ∷ [])
    | some (name, rest) ↦ elim (lookup_value name es) [
      | none ↦ expand_loop deeper es fuel rest out
      | some v ↦ expand_loop deeper es fuel rest (out ++ fit out (deeper v))
    ]
  ]
]

-- The depths that are left: at none the value stays as it is.
unfoldable pub expand_value : ℕ → List Bytes → Bytes → Bytes
unfolding expand_loop
expand_value zero es value = value
expand_value (suc depth) es value = expand_loop (expand_value depth es) es (length value) value []

-- Does the entry's value hold the start of a reference?
unfoldable pub has_reference : Bytes → Bool
unfolding cut after
has_reference e = elim (cut b'=' e) [
  | none ↦ false
  | some (name, value) ↦ elim (after (codes "${") value) [ none ↦ false | some _ ↦ true ]
]

-- One entry, among all of them, with its value expanded.
unfoldable pub expanded : List Bytes → Bytes → Bytes
unfolding cut expand_value
expanded es e = elim (cut b'=' e) [
  | none ↦ e
  | some (name, value) ↦ entry_of name (expand_value max_depth es value)
]

-- The entries that are done and those to come; `mem` answers for each entry that is expanded.
unfoldable pub expand_from : (Bytes → Bool) → List Bytes → List Bytes → List Bytes × Code
unfolding has_reference expanded
expand_from mem done [] = (done, success)
expand_from mem done (e ∷ es) = elim (has_reference e) [
  | false ↦ expand_from mem (done ++ e ∷ []) es
  | true ↦ elim (mem e) [
    | false ↦ (done ++ e ∷ es, e_system_memory)
    | true ↦ expand_from mem (done ++ expanded (done ++ e ∷ es) e ∷ []) es
  ]
]
