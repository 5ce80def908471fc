-- ===== src/Yaml/Reading.antt =====
-- What a key stands for in a text of key: value lines (src/foundation/argo_yaml.c).
use argo.Base.{
  ℕ, suc, ◌-◌, ◌≡◌, refl, arith, Bool, true, false, List, [], ◌∷◌, Option, none, some,
  if◌then◌else◌, Bytes, take, str_eq, Bool-cases, Option-cases, inl, inr,
}
use argo.Error.{Code, success, e_workflow_not_found}
use argo.Yaml.{
  line_max, parse_line, lines_from, visit, visit_lines, yaml_parse_simple, Lookup,
  yaml_lookup_callback, yaml_get_value,
}

-- The value on the first line that holds the key.
unfoldable pub first_value : Bytes → List Bytes → Option Bytes
unfolding parse_line str_eq
first_value key [] = none
first_value key (l ∷ ls) =
    let rest = first_value key ls in
    elim (parse_line l) [ none ↦ rest | some (k, v) ↦ if str_eq k key then some v else rest ]

abbrev lookup : Bytes → ℕ → Bytes → Bool → Lookup
lookup key size buffer found = record {
  search_key = key;
  value_buffer = buffer;
  value_size = size;
  found = found;
}

visit_lines_found :
    (ls : List Bytes) (key : Bytes) (size : ℕ) (buffer : Bytes)
    → visit_lines yaml_lookup_callback ls (lookup key size buffer true)
      ≡ lookup key size buffer true
unfolding visit_lines visit yaml_lookup_callback
visit_lines_found [] key size buffer = refl
visit_lines_found (l ∷ ls) key size buffer = elim (Option-cases (parse_line l)) [
  | inl skipped ↦ rw (skipped, visit_lines) (visit_lines_found ls key size buffer)
  | inr ((k, v), at) ↦ rw (at, visit_lines) (visit_lines_found ls key size buffer)
]

-- The lookup that ends with this value.
abbrev after_lines : Bytes → ℕ → Bytes → Option Bytes → Lookup
after_lines key size buffer none = lookup key size buffer false
after_lines key size buffer (some v) = lookup key size (take (size - 1) v) true

visit_lines-first_value :
    (ls : List Bytes) (key : Bytes) (size : ℕ) (buffer : Bytes)
    → visit_lines yaml_lookup_callback ls (lookup key size buffer false)
      ≡ after_lines key size buffer (first_value key ls)
unfolding visit_lines visit yaml_lookup_callback first_value
visit_lines-first_value [] key size buffer = refl
visit_lines-first_value (l ∷ ls) key size buffer = elim (Option-cases (parse_line l)) [
  | inl skipped ↦
      rw (skipped, visit_lines, first_value) (visit_lines-first_value ls key size buffer)
  | inr ((k, v), at) ↦ elim (Bool-cases (str_eq k key)) [
    | inl hit ↦
        rw (at, visit_lines, first_value)
          (rw hit (visit_lines_found ls key size (take (size - 1) v)))
    | inr miss ↦
        rw (at, visit_lines, first_value) (rw miss (visit_lines-first_value ls key size buffer))
  ]
]

-- What a lookup that ends with this value returns.
abbrev pub answer : Bytes → ℕ → Option Bytes → Option Bytes × Code
answer buffer size none = (some buffer, e_workflow_not_found)
answer buffer size (some v) = (some (take size v), success)

-- A lookup returns the value on the first line that holds the key, cut to what the buffer takes in
-- front of its NUL; without such a line it leaves the buffer and returns that nothing was found.
pub yaml_get_value_lem :
    (content key buffer : Bytes) (size : ℕ)
    → yaml_get_value (some content) (some key) (some buffer) (suc size)
      ≡ answer buffer size (first_value key (lines_from line_max [] content))
unfolding yaml_get_value yaml_parse_simple
yaml_get_value_lem content key buffer size =
    let lines = lines_from line_max [] content in
    let one : suc size - 1 ≡ size = omega arith in
    rw (visit_lines-first_value lines key (suc size) buffer)
      (elim (Option-cases (first_value key lines)) [
        | inl gone ↦ rw gone refl
        | inr (v, at) ↦ rw at (rw one refl)
      ])
