-- ===== src/CString/Print.antt =====
-- snprintf into a buffer, as the endpoints of src/daemon build their responses with it. A buffer is the
-- list of its bytes; a write outside of it is a fault, `none`.
pub mod Laws
use argo.Base.{
  ℕ, zero, suc, ◌+◌, ◌-◌, ◌%◌, ◌/◌, List, [], ◌∷◌, ◌++◌, Option, none, some, ltb, ◌==◌,
  if◌then◌else◌, Bytes, take, length,
}
use argo.Json.{store}

unfoldable pub put_text : Bytes → ℕ → Bytes → Option Bytes
unfolding store
put_text b i [] = some b
put_text b i (c ∷ s) = elim (store b i c) [ none ↦ none | some b' ↦ put_text b' (i + 1) s ]

-- `snprintf(b + i, size, "%s", text)`: what `size` holds of the text, and a NUL.
unfoldable pub snprintf : Bytes → ℕ → ℕ → Bytes → Option Bytes
unfolding put_text
snprintf b i zero text = some b
snprintf b i (suc size) text = put_text b i (take size text ++ 0 ∷ [])

-- The digits in front of `s`, with a round for each.
unfoldable pub digits_loop : ℕ → ℕ → Bytes → Bytes
digits_loop zero n s = s
digits_loop (suc fuel) n s =
    let c = b'0' + n % 10 in
    let more = digits_loop fuel (n / 10) (c ∷ s) in if ltb n 10 then c ∷ s else more

-- `%d`, `%ld` of a number that is not negative: 64 bits have at most 20 digits.
unfoldable pub decimal : ℕ → Bytes
unfolding digits_loop
decimal n = digits_loop 20 n []

-- A format with its arguments, piece by piece.
abbrev pub format : List Bytes → Bytes
format [] = []
format (p ∷ ps) = p ++ format ps
