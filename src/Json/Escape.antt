-- ===== src/Json/Escape.antt =====
-- Escaping into a buffer and back (src/foundation/argo_json.c,
-- src/daemon/argo_daemon_workflow_control.c).
use argo.Base.{
  ℕ, ◌≤◌, ◌≡◌, refl, ap, ◌∙◌, true, false, [], ◌∷◌, ◌++◌, arith, ◌==◌, if◌then◌else◌, Bytes, length,
  Bool-cases, inl, inr,
}
use argo.Json.{needs_escape, unescape}

-- The escaped text, with no buffer.
abbrev pub escaped_byte : ℕ → Bytes
escaped_byte c = if needs_escape c then b'\\' ∷ c ∷ [] else c ∷ []

unfoldable pub escaped : Bytes → Bytes
escaped [] = []
escaped (c ∷ s) = escaped_byte c ++ escaped s

unescape_plain : (c : ℕ) (r : Bytes) → (c == b'\\') ≡ false → unescape (c ∷ r) ≡ c ∷ unescape r
unfolding unescape
unescape_plain c [] h = refl
unescape_plain c (d ∷ r) h = ground arith

unescape_pair :
    (d : ℕ) (r : Bytes) → needs_escape d ≡ true → unescape (b'\\' ∷ d ∷ r) ≡ d ∷ unescape r
unfolding unescape
unescape_pair d r h = ground arith

-- Unescaping undoes escaping, byte for byte.
pub unescape-escaped : (s : Bytes) → unescape (escaped s) ≡ s
unfolding escaped
unescape-escaped [] = unfold unescape in refl
unescape-escaped (c ∷ s) = elim (Bool-cases (needs_escape c)) [
  | inl special ↦ rw special (unescape_pair c (escaped s) special ∙ ap (◌∷◌ c) (unescape-escaped s))
  | inr plain ↦
      rw plain (unescape_plain c (escaped s) (ground arith) ∙ ap (◌∷◌ c) (unescape-escaped s))
]

-- The text does not grow, so writing it over itself never passes the reading position.
pub length-unescape : (s : Bytes) → length (unescape s) ≤ length s
unfolding unescape
length-unescape [] = omega arith
length-unescape (c ∷ []) = omega arith
length-unescape (c ∷ d ∷ s) = ground (arith, length-unescape s, length-unescape (d ∷ s))

-- A JSON text that was unescaped in place fits where it stood, and what was escaped is read back.
pub unescape_lem : (s : Bytes) → (unescape (escaped s) ≡ s) × (length (unescape s) ≤ length s)
unescape_lem s = (unescape-escaped s, length-unescape s)
