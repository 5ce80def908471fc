-- ===== src/Yaml/RoundTrip.antt =====
-- Reading back a text of key: value lines (src/foundation/argo_yaml.c).
use mathlib.Core.List.{append-nil, append_assoc}
use argo.Base.{
  ℕ, zero, suc, ◌≤◌, ◌≡◌, ◌≢◌, refl, ◌∙◌, ap, sym, arith, Bool, false, List, [], ◌∷◌, ◌++◌, Option,
  none, some, ◌==◌, if◌then◌else◌, Bytes, str_eq, length, All,
}
use argo.CString.Laws.{
  Lacks, Lacks-append, cut-append, cut-Lacks, IsQuote, quoted, strip_quotes-quoted,
}
use argo.Yaml.{
  line_max, is_blank, is_blank_cr, skip_blanks, trim_end_by, before, yaml_value, parse_trimmed,
  parse_line, lines_from, yaml_get_value,
}
use argo.Yaml.Reading.{first_value, answer, yaml_get_value_lem}

-- A key as a line can hold it: no blank, no ':' and no newline, and it does not start like a comment.
abbrev pub IsKeyByte : ℕ → Type 0
IsKeyByte c = (is_blank c ≡ false) × (c ≢ b':') × (c ≢ 10)

abbrev pub IsKey : Bytes → Type 0
IsKey [] = ⊥
IsKey (c ∷ s) = (c ≢ b'#') × All IsKeyByte (c ∷ s)

-- A value in quotes: no newline and no '#'.
abbrev pub IsQuotable : Bytes → Type 0
IsQuotable v = Lacks 10 v × Lacks b'#' v

-- The line of a key and its value in quotes.
abbrev pub line_of : ℕ → Bytes × Bytes → Bytes
line_of q (k, v) = k ++ b':' ∷ b' ' ∷ quoted q v

-- The pairs that fit a line.
abbrev pub IsPair : ℕ → Bytes × Bytes → Type 0
IsPair q (k, v) = IsKey k × IsQuotable v × (length (line_of q (k, v)) ≤ line_max)

-- The text of some pairs, a line for each.
abbrev pub text_of : ℕ → List (Bytes × Bytes) → Bytes
text_of q [] = []
text_of q (p ∷ ps) = line_of q p ++ 10 ∷ text_of q ps

-- The first pair of a key.
abbrev pub value_in : Bytes → List (Bytes × Bytes) → Option Bytes
value_in key [] = none
value_in key (p ∷ ps) = if str_eq p.0 key then some p.1 else value_in key ps

key-Lacks : (s : Bytes) → All IsKeyByte s → Lacks b':' s × Lacks 10 s
key-Lacks [] h = (tt, tt)
key-Lacks (c ∷ s) h = let later = key-Lacks s h.1 in ((h.0.1, later.0), (h.0.2, later.1))

trim_key : (s : Bytes) → All IsKeyByte s → trim_end_by is_blank s ≡ s
unfolding trim_end_by
trim_key [] h = refl
trim_key (c ∷ []) h = rw (h.0.0)
trim_key (c ∷ d ∷ s) h = rw (trim_key (d ∷ s) h.1, trim_end_by)

trim_end_by-last :
    (p : ℕ → Bool) (s : Bytes) (c : ℕ) → p c ≡ false → trim_end_by p (s ++ c ∷ []) ≡ s ++ c ∷ []
unfolding trim_end_by
trim_end_by-last p [] c h = rw h
trim_end_by-last p (x ∷ []) c h = rw (trim_end_by-last p [] c h, trim_end_by)
trim_end_by-last p (x ∷ y ∷ s) c h = rw (trim_end_by-last p (y ∷ s) c h, trim_end_by)

-- A quote is no blank, no newline and no '#'.
quote_plain : (q : ℕ) → IsQuote q → (is_blank_cr q ≡ false) × (q ≢ b'#') × (q ≢ 10)
quote_plain q h = ground arith

yaml_value-quoted :
    (q : ℕ) (v : Bytes) → IsQuote q → Lacks b'#' v → yaml_value (b' ' ∷ quoted q v) ≡ v
unfolding yaml_value skip_blanks before
yaml_value-quoted q v h l =
    let (blank, hash, newline) = quote_plain q h in
    let plain : is_blank q ≡ false = ground arith in
    let lacks : Lacks b'#' (quoted q v) = (hash, Lacks-append b'#' v (q ∷ []) l (hash, tt)) in
    rw (plain) (
      rw (cut-Lacks b'#' (quoted q v) lacks, before)
        (rw (trim_end_by-last is_blank_cr (q ∷ v) q blank) (strip_quotes-quoted q v h)))

parse_line-line_of :
    (q : ℕ) (k v : Bytes)
    → IsQuote q
    → IsKey k
    → IsQuotable v
    → parse_line (line_of q (k, v)) ≡ some (k, v)
unfolding parse_line skip_blanks parse_trimmed
parse_line-line_of q [] v hq k h = absurd k
parse_line-line_of q (c ∷ s) v hq k h =
    let rest = b' ' ∷ quoted q v in
    let start : is_blank c ≡ false = k.1.0.0 in
    let comment : (c == b'#') ≡ false = ground (arith, k.0) in
    rw (start) (
      rw (comment) (
        rw (cut-append b':' (c ∷ s) rest (key-Lacks (c ∷ s) k.1).0, parse_trimmed)
          (rw (trim_key (c ∷ s) k.1) (rw (yaml_value-quoted q v hq h.1) refl))))

-- A line that fits is read whole.
lines_from-line :
    (room : ℕ) (line l rest : Bytes)
    → Lacks 10 l
    → length l ≤ room
    → lines_from room line (l ++ 10 ∷ rest) ≡ (line ++ l) ∷ lines_from line_max [] rest
unfolding lines_from
lines_from-line zero line [] rest h n =
    ap (λ x. x ∷ lines_from line_max [] rest) (sym (append-nil line))
lines_from-line (suc room) line [] rest h n =
    ap (λ x. x ∷ lines_from line_max [] rest) (sym (append-nil line))
lines_from-line zero line (c ∷ l) rest h n = absurd (omega arith)
lines_from-line (suc room) line (c ∷ l) rest h n =
    let newline : (c == 10) ≡ false = ground (arith, h.0) in
    rw (newline, lines_from)
      (lines_from-line room (line ++ c ∷ []) l rest h.1 (omega arith)
        ∙ ap (λ x. x ∷ lines_from line_max [] rest) (append_assoc line (c ∷ []) l))

line_of-Lacks :
    (q : ℕ) (k v : Bytes) → IsQuote q → IsKey k → IsQuotable v → Lacks 10 (line_of q (k, v))
line_of-Lacks q [] v hq k h = absurd k
line_of-Lacks q (c ∷ s) v hq k h =
    Lacks-append 10 (c ∷ s) (b':' ∷ b' ' ∷ quoted q v) (key-Lacks (c ∷ s) k.1).1 (
      ground arith,
      (
        ground arith,
        ((quote_plain q hq).2, Lacks-append 10 v (q ∷ []) h.0 ((quote_plain q hq).2, tt)),
      ),
    )

first_value-text_of :
    (q : ℕ) (key : Bytes) (ps : List (Bytes × Bytes))
    → IsQuote q
    → All (IsPair q) ps
    → first_value key (lines_from line_max [] (text_of q ps)) ≡ value_in key ps
unfolding first_value
first_value-text_of q key [] hq h = unfold lines_from in refl
first_value-text_of q key ((k, v) ∷ ps) hq h =
    let pair = h.0 in
    let lacks = line_of-Lacks q k v hq pair.0 pair.1 in
    rw (lines_from-line line_max [] (line_of q (k, v)) (text_of q ps) lacks pair.2) (
      rw (parse_line-line_of q k v hq pair.0 pair.1, first_value)
        (rw (first_value-text_of q key ps hq h.1) refl))

-- A text that holds a line for each of some pairs, the values in quotes, is read back: a lookup
-- returns the value of the first pair of its key, cut to what the buffer takes, and that nothing
-- was found where no pair has the key. The keys hold no blank, ':' or newline and do not start with
-- '#', the values hold no newline and no '#', and each line has at most 4095 bytes.
pub yaml_get_value-text_of :
    (q : ℕ) (ps : List (Bytes × Bytes)) (key buffer : Bytes) (size : ℕ)
    → IsQuote q
    → All (IsPair q) ps
    → yaml_get_value (some (text_of q ps)) (some key) (some buffer) (suc size)
      ≡ answer buffer size (value_in key ps)
yaml_get_value-text_of q ps key buffer size hq h =
    yaml_get_value_lem (text_of q ps) key buffer size
    ∙ ap (answer buffer size) (first_value-text_of q key ps hq h)
