-- ===== src/Json/Extract.antt =====
-- Reading a string field back (src/foundation/argo_json.c).
use mathlib.Core.Option
use argo.Base.{
  ℕ, ◌≤◌, ◌≡◌, ◌≢◌, refl, ◌∙◌, Bool, true, false, [], ◌∷◌, ◌++◌, Option, none, some, arith, ◌==◌,
  if◌then◌else◌, Bytes, All, length, length-append, take_all, Bool-cases, inl, inr,
}
use argo.Error.{success, e_protocol_format, e_system_memory}
use argo.Json.{
  needs_escape, strip, after, after_quote, scan, search_key, extract_string_field, unescape,
}
use argo.Json.Escape.{escaped, unescape-escaped}

-- The text holds no backslash.
abbrev pub NoBackslash : Bytes → Type 0
NoBackslash = All (λ c. c ≢ b'\\')

strip_self : (key s : Bytes) → strip key (key ++ s) ≡ some s
unfolding strip
strip_self [] s = refl
strip_self (k ∷ ks) s = ground (arith, strip_self ks s)

-- One byte of a value, scanned.
scan_plain :
    (c : ℕ) (r : Bytes)
    → (c == b'"') ≡ false
    → (c == b'\\') ≡ false
    → scan (c ∷ r) ≡ Option.map (λ v. c ∷ v) (scan r)
unfolding scan
scan_plain c [] q b = ground arith
scan_plain c (d ∷ r) q b = ground arith

scan_quote : (r : Bytes) → scan (b'\\' ∷ b'"' ∷ r) ≡ Option.map (λ v. b'\\' ∷ b'"' ∷ v) (scan r)
unfolding scan
scan_quote r = refl

scan_end : (r : Bytes) → scan (b'"' ∷ r) ≡ some []
unfolding scan
scan_end [] = refl
scan_end (d ∷ r) = refl

-- The scan of an escaped value ends at the quote behind it.
scan-escaped : (v rest : Bytes) → NoBackslash v → scan (escaped v ++ b'"' ∷ rest) ≡ some (escaped v)
unfolding escaped
scan-escaped [] rest h = scan_end rest
scan-escaped (c ∷ v) rest h = elim (Bool-cases (c == b'"')) [
  | inl quote ↦
      let same : c ≡ b'"' = ground arith in
      rw same (scan_quote (escaped v ++ b'"' ∷ rest) ∙ rw (scan-escaped v rest h.1))
  | inr other ↦
      let plain : needs_escape c ≡ false = ground (arith, h.0) in
      rw plain (
        scan_plain c (escaped v ++ b'"' ∷ rest) other (ground (arith, h.0))
        ∙ rw (scan-escaped v rest h.1))
]

-- The same with a backslash at the end of the value: it never finds the end.
scan-escaped_backslash :
    (v : Bytes) → NoBackslash v → scan (escaped (v ++ b'\\' ∷ []) ++ b'"' ∷ []) ≡ none
unfolding escaped
scan-escaped_backslash [] h = unfold scan in refl
scan-escaped_backslash (c ∷ v) h = elim (Bool-cases (c == b'"')) [
  | inl quote ↦
      let same : c ≡ b'"' = ground arith in
      rw same
        (scan_quote (escaped (v ++ b'\\' ∷ []) ++ b'"' ∷ []) ∙ rw (scan-escaped_backslash v h.1))
  | inr other ↦
      let plain : needs_escape c ≡ false = ground (arith, h.0) in
      rw plain (
        scan_plain c (escaped (v ++ b'\\' ∷ []) ++ b'"' ∷ []) other (ground (arith, h.0))
        ∙ rw (scan-escaped_backslash v h.1))
]

-- The object `{"name":"value"…` with the value escaped.
abbrev pub object : Bytes → Bytes → Bytes → Bytes
object name v rest =
    b'{' ∷ ((b'"' ∷ (name ++ b'"' ∷ [])) ++ (b':' ∷ b'"' ∷ (escaped v ++ b'"' ∷ rest)))

search_key_whole : (name : Bytes) → length name ≤ 64 → search_key name ≡ b'"' ∷ (name ++ b'"' ∷ [])
unfolding search_key
search_key_whole name h =
    take_all 66 (b'"' ∷ (name ++ b'"' ∷ [])) (omega (arith, length-append name (b'"' ∷ [])))

after_object : (key s : Bytes) → after (b'"' ∷ key) (b'{' ∷ ((b'"' ∷ key) ++ s)) ≡ some s
unfolding after strip
after_object key s = ground (arith, strip_self key s)

-- A value that was found: what the extraction makes of its scan.
extracted :
    (name v rest : Bytes) (mem : Bool) (value : Option Bytes)
    → length name ≤ 64
    → scan (escaped v ++ b'"' ∷ rest) ≡ value
    → extract_string_field (object name v rest) name mem ≡ elim value [
      | none ↦ (none, e_protocol_format)
      | some x ↦ if mem then (some x, success) else (none, e_system_memory)
    ]
unfolding extract_string_field
extracted name v rest mem value short h =
    let content = escaped v ++ b'"' ∷ rest in
    let found : after (search_key name) (object name v rest) ≡ some (b':' ∷ b'"' ∷ content) =
      rw (search_key_whole name short) (after_object (name ++ b'"' ∷ []) (b':' ∷ b'"' ∷ content)) in
    let quoted : after_quote (b':' ∷ b'"' ∷ content) ≡ some content = unfold after_quote in refl in
    ground (arith, found, quoted, h)

-- A field at the head of an object is found, and its escaped value is read back whole if memory is
-- given, whatever follows; unescaping it gives the value. The name has at most 64 bytes, the value
-- no backslash.
pub extract-escaped :
    (name v rest : Bytes)
    → length name ≤ 64
    → NoBackslash v
    → (extract_string_field (object name v rest) name true ≡ (some (escaped v), success))
      × (unescape (escaped v) ≡ v)
extract-escaped name v rest short h = (
  extracted name v rest true (some (escaped v)) short (scan-escaped v rest h),
  unescape-escaped v,
)

-- A value that ends in a backslash and has no other, written as the escaping writes it in an object
-- of one field whose name has at most 64 bytes, cannot be read: the scan takes the escaped
-- backslash and the closing quote for an escaped quote.
pub extract-escaped_backslash :
    (name v : Bytes)
    → length name ≤ 64
    → NoBackslash v
    → extract_string_field (object name (v ++ b'\\' ∷ []) []) name true ≡ (none, e_protocol_format)
extract-escaped_backslash name v short h =
    extracted name (v ++ b'\\' ∷ []) [] true none short (scan-escaped_backslash v h)
