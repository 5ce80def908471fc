-- ===== src/CString.antt =====
-- The C string operations that the parsers of src/foundation share: whitespace, quotes, the search
-- for a byte, and the lines of a file as fgets cuts them. A string is the list of the bytes in
-- front of its NUL.
pub mod Laws
pub mod Print
pub mod Layers
use mathlib.Core.Option
use argo.Base.{
  ℕ, zero, suc, ◌-◌, Bool, true, false, ◌&&◌, ◌||◌, List, [], ◌∷◌, ◌++◌, map, Option, none, some,
  leb, ◌==◌, if◌then◌else◌, Bytes,
}

-- `isspace` in the C locale.
abbrev pub is_space : ℕ → Bool
is_space c = c == 32 || (leb 9 c && leb c 13)

unfoldable pub trim_start : Bytes → Bytes
trim_start [] = []
trim_start (c ∷ s) = let rest = trim_start s in if is_space c then rest else c ∷ s

-- The bytes up to the last one that is no whitespace.
unfoldable pub trim_end : Bytes → Bytes
trim_end [] = []
trim_end (c ∷ s) = elim (trim_end s) [ [] ↦ if is_space c then [] else c ∷ [] | d ∷ t ↦ c ∷ d ∷ t ]

unfoldable pub trim : Bytes → Bytes
unfolding trim_start trim_end
trim s = trim_end (trim_start s)

-- The string without its last byte, which must be `q`.
unfoldable pub close_quote : ℕ → Bytes → Option Bytes
close_quote q [] = none
close_quote q (c ∷ []) = if c == q then some [] else none
close_quote q (c ∷ d ∷ s) = Option.map (λ t. c ∷ t) (close_quote q (d ∷ s))

-- A string in double or in single quotes loses them.
unfoldable pub strip_quotes : Bytes → Bytes
unfolding close_quote
strip_quotes [] = []
strip_quotes (c ∷ s) =
    if c == b'"' || c == b'\'' then elim (close_quote c s) [ some t ↦ t | none ↦ c ∷ s ] else c ∷ s

-- `strchr(s, c)`: what stands before the byte and behind it.
unfoldable pub cut : ℕ → Bytes → Option (Bytes × Bytes)
cut c [] = none
cut c (x ∷ s) =
    let later = cut c s in if x == c then some ([], s) else Option.map (λ p. (x ∷ p.0, p.1)) later

-- The lines that fgets reads into a buffer of `suc n` bytes, each without its newline: `room` is
-- what is left of the buffer, `line` what was read into it.
unfoldable pub lines_from : ℕ → ℕ → Bytes → Bytes → List Bytes
lines_from n room [] [] = []
lines_from n room (x ∷ line) [] = (x ∷ line) ∷ []
lines_from n zero line (c ∷ s) = elim (c == 10) [
  | true ↦ line ∷ [] ∷ lines_from n n [] s
  | false ↦ line ∷ lines_from n (n - 1) (c ∷ []) s
]
lines_from n (suc room) line (c ∷ s) = elim (c == 10) [
  | true ↦ line ∷ lines_from n n [] s
  | false ↦ lines_from n room (line ++ c ∷ []) s
]

-- The bytes in front of the first NUL.
unfoldable pub c_string : Bytes → Bytes
unfolding cut
c_string raw = elim (cut 0 raw) [ none ↦ raw | some (s, rest) ↦ s ]

-- The callers read each line as a string: it ends at its first NUL.
unfoldable pub fgets_lines : ℕ → Bytes → List Bytes
unfolding lines_from c_string
fgets_lines size content = map c_string (lines_from (size - 1) (size - 1) [] content)
