-- ===== src/CString/Print/Laws.antt =====
-- A buffer that begins with a text, and what snprintf puts behind it.
use mathlib.Core.List.{append-nil, append_assoc}
use argo.Base.{
  ℕ, zero, suc, ◌+◌, ◌*◌, ◌%◌, ◌/◌, ◌≤◌, ◌<◌, ◌≡◌, refl, sym, ap, ◌∙◌, List, [], ◌∷◌, ◌++◌, some,
  arith, Bool, true, false, ◌==◌, ◌&&◌, ltb, Bytes, set, take_all, drop, length, length-append, All,
}
use argo.Json.{store}
use argo.CString.{cut, c_string}
use argo.CString.Print.{put_text, snprintf, digits_loop, decimal, format}

set-append : (t r : Bytes) (c v : ℕ) → set (t ++ c ∷ r) (length t) v ≡ t ++ v ∷ r
set-append [] r c v = refl
set-append (x ∷ t) r c v = ap (◌∷◌ x) (set-append t r c v)

-- A write at the end of the text makes the text longer by one byte.
pub store-append :
    (t r : Bytes) (i c v : ℕ) → i ≡ length t → store (t ++ c ∷ r) i v ≡ some ((t ++ v ∷ []) ++ r)
unfolding store
store-append t r i c v at =
    let inside : ltb i (length (t ++ c ∷ r)) ≡ true = ground (arith, length-append t (c ∷ r)) in
    rw (inside, at) (ap some (set-append t r c v ∙ sym (append_assoc t (v ∷ []) r)))

-- A text that the rest of the buffer holds goes behind the text that is there.
pub put_text-append :
    (t r s : Bytes) (i : ℕ)
    → i ≡ length t
    → length s ≤ length r
    → put_text (t ++ r) i s ≡ some ((t ++ s) ++ drop (length s) r)
unfolding put_text
put_text-append t r [] i at le = ap (λ (x : Bytes). some (x ++ r)) (sym (append-nil t))
put_text-append t [] (v ∷ s) i at le = absurd (omega arith)
put_text-append t (c ∷ r) (v ∷ s) i at le =
    rw (put_text, store-append t r i c v at)
      (put_text-append (t ++ v ∷ []) r s (i + 1) (omega (arith, length-append t (v ∷ [])))
          (omega arith)
        ∙ rw (append_assoc t (v ∷ []) s) refl)

add_one : (n : ℕ) → n + 1 ≡ suc n
add_one n = omega arith

-- What snprintf leaves when its size is what the buffer has left and holds the text.
pub snprintf-append :
    (t r s : Bytes) (i size : ℕ)
    → i ≡ length t
    → size ≤ length r
    → length s < size
    → snprintf (t ++ r) i size s ≡ some ((t ++ s) ++ 0 ∷ drop (suc (length s)) r)
unfolding snprintf
snprintf-append t r s i zero at le lt = absurd (omega arith)
snprintf-append t r s i (suc size) at le lt = rw (take_all size s (omega arith)) (
    put_text-append t r (s ++ 0 ∷ []) i at (omega (arith, length-append s (0 ∷ [])))
    ∙ ap some (
        rw (length-append s (0 ∷ []), add_one (length s))
          (ap (λ (x : Bytes). x ++ drop (suc (length s)) r) (sym (append_assoc t s (0 ∷ [])))
            ∙ append_assoc (t ++ s) (0 ∷ []) (drop (suc (length s)) r))))

abbrev pub tens : ℕ → ℕ
tens zero = 1
tens (suc k) = 10 * tens k

length-digits_loop :
    (fuel k n : ℕ) (s : Bytes) → n < tens (suc k) → length (digits_loop fuel n s) ≤ length s + suc k
unfolding digits_loop
length-digits_loop zero k n s lt = omega arith
length-digits_loop (suc fuel) zero n s lt = ground arith
length-digits_loop (suc fuel) (suc k) n s lt =
    let more = length-digits_loop fuel k (n / 10) ((b'0' + n % 10) ∷ s) (omega arith) in
    ground arith

-- A number below 10 ^ (k + 1) has at most k + 1 digits.
pub length-decimal : (k n : ℕ) → n < tens (suc k) → length (decimal n) ≤ suc k
unfolding decimal
length-decimal k n lt = omega (arith, length-digits_loop 20 k n [] lt)

abbrev pub nul_free : Bytes → Bool
nul_free [] = true
nul_free (c ∷ s) = ltb 0 c && nul_free s

pub nul_free-append :
    (s t : Bytes) → nul_free s ≡ true → nul_free t ≡ true → nul_free (s ++ t) ≡ true
nul_free-append [] t hs ht = ht
nul_free-append (c ∷ s) t hs ht = ground (arith, nul_free-append s t)

nul_free-digits_loop :
    (fuel n : ℕ) (s : Bytes) → nul_free s ≡ true → nul_free (digits_loop fuel n s) ≡ true
unfolding digits_loop
nul_free-digits_loop zero n s h = h
nul_free-digits_loop (suc fuel) n s h =
    ground (arith, nul_free-digits_loop fuel (n / 10) ((b'0' + n % 10) ∷ s))

pub nul_free-decimal : (n : ℕ) → nul_free (decimal n) ≡ true
unfolding decimal
nul_free-decimal n = nul_free-digits_loop 20 n [] refl

cut-append : (t r : Bytes) → nul_free t ≡ true → cut 0 (t ++ 0 ∷ r) ≡ some (t, r)
unfolding cut
cut-append [] r h = refl
cut-append (c ∷ t) r h =
    let no_nul : (c == 0) ≡ false = ground arith in rw (no_nul, cut-append t r (ground arith)) refl

-- The string in a buffer that holds a text and a NUL behind it.
pub c_string-append : (t r : Bytes) → nul_free t ≡ true → c_string (t ++ 0 ∷ r) ≡ t
unfolding c_string
c_string-append t r h = rw (c_string, cut-append t r h) refl

-- A bound for each piece.
abbrev pub Within : List Bytes → List ℕ → Type 0
Within [] [] = Unit
Within (p ∷ ps) (n ∷ ns) = (length p ≤ n) × Within ps ns
Within _ _ = ⊥

abbrev pub total : List ℕ → ℕ
total [] = 0
total (n ∷ ns) = n + total ns

pub length-format : (ps : List Bytes) (ns : List ℕ) → Within ps ns → length (format ps) ≤ total ns
length-format [] [] h = omega arith
length-format [] (n ∷ ns) h = absurd h
length-format (p ∷ ps) [] h = absurd h
length-format (p ∷ ps) (n ∷ ns) h =
    omega (arith, length-append p (format ps), h.0, length-format ps ns h.1)

pub nul_free-format :
    (ps : List Bytes) → All (λ p. nul_free p ≡ true) ps → nul_free (format ps) ≡ true
nul_free-format [] h = refl
nul_free-format (p ∷ ps) h = nul_free-append p (format ps) h.0 (nul_free-format ps h.1)
