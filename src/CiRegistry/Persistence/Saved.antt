-- ===== src/CiRegistry/Persistence/Saved.antt =====
-- The parts of the registry's file (src/daemon/argo_registry_persistence.c) as its reader finds them:
-- numbers, fields and the ends of entries.
use mathlib.Core.List.{append_assoc}
use argo.Base.{
  ℕ, zero, suc, ◌+◌, ◌/◌, ◌%◌, ◌^◌, ◌<◌, ◌≡◌, ◌≢◌, refl, ap, ◌∙◌, Bool, true, false, List, [], ◌∷◌,
  ◌++◌, none, some, arith, Bool-cases, inl, inr, All, ltb, ◌==◌, Bytes, codes,
}
use argo.CString.{is_space, trim_start}
use argo.CString.Laws.{Lacks, Lacks-append}
use argo.CString.Print.{digits_loop, decimal, format}
use argo.CString.Print.Laws.{tens}
use argo.Http.Request.{is_digit, digits_value, scan_digits, scan_int}
use argo.Json.{strip, after}

-- The pieces in front of a text.
abbrev pub onto : List Bytes → Bytes → Bytes
onto [] w = w
onto (p ∷ ps) w = p ++ onto ps w

pub format-onto : (ps : List Bytes) (w : Bytes) → format ps ++ w ≡ onto ps w
format-onto [] w = refl
format-onto (p ∷ ps) w = append_assoc p (format ps) w ∙ ap (◌++◌ p) (format-onto ps w)

pub append-onto : (ps : List Bytes) (w v : Bytes) → onto ps w ++ v ≡ onto ps (w ++ v)
append-onto [] w v = refl
append-onto (p ∷ ps) w v = append_assoc p (onto ps w) v ∙ ap (◌++◌ p) (append-onto ps w v)

pub onto-Lacks :
    (c : ℕ) (ps : List Bytes) (w : Bytes) → All (Lacks c) ps → Lacks c w → Lacks c (onto ps w)
onto-Lacks c [] w h k = k
onto-Lacks c (p ∷ ps) w h k = Lacks-append c p (onto ps w) h.0 (onto-Lacks c ps w h.1 k)

append-digits_loop :
    (fuel n : ℕ) (s t : Bytes) → digits_loop fuel n s ++ t ≡ digits_loop fuel n (s ++ t)
unfolding digits_loop
append-digits_loop zero n s t = refl
append-digits_loop (suc fuel) n s t =
    ground (arith, append-digits_loop fuel (n / 10) ((b'0' + n % 10) ∷ s) t)

-- The digits of `n` are read as `n`.
digits_value-digits_loop :
    (fuel n : ℕ) (s : Bytes)
    → n < tens fuel
    → digits_value 0 (digits_loop fuel n s) ≡ digits_value n s
unfolding digits_loop digits_value
digits_value-digits_loop zero n s lt = ap (λ (m : ℕ). digits_value m s) (omega arith)
digits_value-digits_loop (suc fuel) n s lt =
    let digit : is_digit (b'0' + n % 10) ≡ true = ground arith in
    elim (Bool-cases (ltb n 10)) [
      | inl small ↦
          let below : n < 10 = ground arith in
          rw (small, digit) (ap (λ (m : ℕ). digits_value m s) (omega arith))
      | inr big ↦ rw big (
          digits_value-digits_loop fuel (n / 10) ((b'0' + n % 10) ∷ s) (omega arith)
          ∙ rw digit (ap (λ (m : ℕ). digits_value m s) (omega arith)))
    ]

-- Does the text begin with a digit?
abbrev starts : Bytes → Bool
starts [] = false
starts (c ∷ s) = is_digit c

starts-digits_loop :
    (fuel n : ℕ) (s : Bytes) → starts s ≡ true → starts (digits_loop fuel n s) ≡ true
unfolding digits_loop
starts-digits_loop zero n s h = h
starts-digits_loop (suc fuel) n s h =
    let digit : is_digit (b'0' + n % 10) ≡ true = ground arith in
    elim (Bool-cases (ltb n 10)) [
      | inl small ↦ rw small digit
      | inr big ↦ rw big (starts-digits_loop fuel (n / 10) ((b'0' + n % 10) ∷ s) digit)
    ]

starts-decimal : (n : ℕ) (s : Bytes) → starts (decimal n ++ s) ≡ true
unfolding decimal digits_loop
starts-decimal n s = rw (append-digits_loop 20 n [] s) (
    let digit : is_digit (b'0' + n % 10) ≡ true = ground arith in
    elim (Bool-cases (ltb n 10)) [
      | inl small ↦ rw small digit
      | inr big ↦ rw big (starts-digits_loop 19 (n / 10) ((b'0' + n % 10) ∷ s) digit)
    ])

digits_value_end : (n c : ℕ) (s : Bytes) → is_digit c ≡ false → digits_value n (c ∷ s) ≡ n
unfolding digits_value
digits_value_end n c s ends = rw ends refl

scan_int_digits :
    (s : Bytes) → starts s ≡ true → scan_int (b' ' ∷ s) ≡ some (digits_value 0 s % 2 ^ 32)
unfolding scan_int trim_start scan_digits
scan_int_digits [] h = absurd (ground arith)
scan_int_digits (c ∷ s) h =
    let seen : is_space c ≡ false = ground arith in
    let no_minus : (c == b'-') ≡ false = ground arith in
    let no_plus : (c == b'+') ≡ false = ground arith in
    rw (scan_int, trim_start, seen, no_minus, no_plus, scan_digits, h) refl

-- A number that fits an int is read back by %d, if no digit follows it.
pub scan_int-decimal :
    (n c : ℕ) (s : Bytes)
    → n < 2 ^ 31
    → is_digit c ≡ false
    → scan_int (b' ' ∷ (decimal n ++ c ∷ s)) ≡ some n
unfolding decimal
scan_int-decimal n c s lt ends =
    scan_int_digits (decimal n ++ c ∷ s) (starts-decimal n (c ∷ s))
    ∙ ap some (
        ap (λ (m : ℕ). m % 2 ^ 32)
          (ap (digits_value 0) (append-digits_loop 20 n [] (c ∷ s))
            ∙ digits_value-digits_loop 20 n (c ∷ s) (omega arith)
            ∙ digits_value_end n c s ends)
        ∙ omega arith)

Lacks-digits_loop :
    (q fuel n : ℕ) (s : Bytes) → is_digit q ≡ false → Lacks q s → Lacks q (digits_loop fuel n s)
unfolding digits_loop
Lacks-digits_loop q zero n s non h = h
Lacks-digits_loop q (suc fuel) n s non h =
    let other : b'0' + n % 10 ≢ q = ground arith in
    elim (Bool-cases (ltb n 10)) [
      | inl small ↦ rw small (other, h)
      | inr big ↦ rw big (Lacks-digits_loop q fuel (n / 10) ((b'0' + n % 10) ∷ s) non (other, h))
    ]

pub Lacks-decimal : (q n : ℕ) → is_digit q ≡ false → Lacks q (decimal n)
unfolding decimal
Lacks-decimal q n non = Lacks-digits_loop q 20 n [] non tt

-- A key that begins with a quote is not found in a text without one.
pub after-Lacks : (k v s : Bytes) → Lacks b'"' v → after (b'"' ∷ k) (v ++ s) ≡ after (b'"' ∷ k) s
unfolding after strip
after-Lacks k [] s h = refl
after-Lacks k (c ∷ v) s h =
    let other : (b'"' == c) ≡ false = ground arith in
    rw (after, strip, other) (after-Lacks k v s h.1)

-- A value with a comma behind it is no key.
strip_value :
    (k v w : Bytes)
    → Lacks b'"' k
    → Lacks b'"' v
    → strip (k ++ codes "\":") (v ++ (codes "\"," ++ w)) ≡ none
unfolding strip
strip_value [] [] w hk hv = refl
strip_value [] (c ∷ v) w hk hv =
    let other : (b'"' == c) ≡ false = ground arith in rw (strip, other) refl
strip_value (x ∷ k) [] w hk hv =
    let other : (x == b'"') ≡ false = ground arith in rw (strip, other) refl
strip_value (x ∷ k) (c ∷ v) w hk hv = elim (Bool-cases (x == c)) [
  | inl same ↦ rw (strip, same) (strip_value k v w hk.1 hv.1)
  | inr other ↦ rw (strip, other) refl
]

-- A search for a key passes a value, even one that reads like the key.
pub after_value :
    (k v w : Bytes)
    → Lacks b'"' k
    → Lacks b'"' v
    → after (b'"' ∷ (k ++ codes "\":")) (b'"' ∷ (v ++ (codes "\"," ++ w)))
      ≡ after (b'"' ∷ (k ++ codes "\":")) (codes "\"," ++ w)
unfolding after strip
after_value k v w hk hv =
    rw (after, strip, strip_value k v w hk hv)
      (after-Lacks (k ++ codes "\":") v (codes "\"," ++ w) hv)
