-- ===== src/CString/Laws.antt =====
-- Laws of the C string operations.
use mathlib.Core.List.{append-nil}
use argo.Base.{
  ℕ, ◌≡◌, ◌≢◌, refl, ap, ◌∙◌, true, false, [], ◌∷◌, ◌++◌, none, some, arith, ◌==◌, Bool-cases,
  Option-cases, inl, inr, ◌⊎◌, sym, Bytes, All,
}
use argo.CString.{is_space, trim_start, trim_end, trim, close_quote, strip_quotes, cut}

-- The text does not hold the byte.
abbrev pub Lacks : ℕ → Bytes → Type 0
Lacks c = All (λ x. x ≢ c)

pub Lacks-append : (c : ℕ) (s t : Bytes) → Lacks c s → Lacks c t → Lacks c (s ++ t)
Lacks-append c [] t h k = k
Lacks-append c (x ∷ s) t h k = (h.0, Lacks-append c s t h.1 k)

pub cut-append : (c : ℕ) (name v : Bytes) → Lacks c name → cut c (name ++ c ∷ v) ≡ some (name, v)
unfolding cut
cut-append c [] v h = ground arith
cut-append c (x ∷ name) v h = ground (arith, cut-append c name v h.1)

pub cut-Lacks : (c : ℕ) (s : Bytes) → Lacks c s → cut c s ≡ none
unfolding cut
cut-Lacks c [] h = refl
cut-Lacks c (x ∷ s) h = ground (arith, cut-Lacks c s h.1)

-- What a cut gives spells the string, and the first part lacks the byte.
pub cut_sound : (c : ℕ) (s a b : Bytes) → cut c s ≡ some (a, b) → Lacks c a × (s ≡ a ++ c ∷ b)
unfolding cut
cut_sound c [] a b h = absurd (cc)
cut_sound c (x ∷ s) a b h = elim (Bool-cases (x == c)) [
  | inl hit ↦ ground arith
  | inr miss ↦ elim (Option-cases (cut c s)) [
    | inl gone ↦ absurd (ground arith)
    | inr ((a', b'), found) ↦ let later = cut_sound c s a' b' found in ground (arith, later)
  ]
]

-- No whitespace at the start, and none at the end.
abbrev pub StartsPlain : Bytes → Type 0
StartsPlain [] = Unit
StartsPlain (c ∷ s) = is_space c ≡ false

abbrev pub EndsPlain : Bytes → Type 0
EndsPlain [] = Unit
EndsPlain (c ∷ []) = is_space c ≡ false
EndsPlain (c ∷ d ∷ s) = EndsPlain (d ∷ s)

abbrev pub IsTrimmed : Bytes → Type 0
IsTrimmed s = StartsPlain s × EndsPlain s

abbrev pub IsBlank : Bytes → Type 0
IsBlank = All (λ c. is_space c ≡ true)

pub trim_start_id : (s : Bytes) → StartsPlain s → trim_start s ≡ s
unfolding trim_start
trim_start_id [] h = refl
trim_start_id (c ∷ s) h = rw h

pub trim_start_blank : (p s : Bytes) → IsBlank p → trim_start (p ++ s) ≡ trim_start s
unfolding trim_start
trim_start_blank [] s h = refl
trim_start_blank (c ∷ p) s h = rw (h.0) (trim_start_blank p s h.1)

pub trim_end_blank : (q : Bytes) → IsBlank q → trim_end q ≡ []
unfolding trim_end
trim_end_blank [] h = refl
trim_end_blank (c ∷ q) h = ground (arith, trim_end_blank q h.1)

pub trim_end_padded : (s q : Bytes) → EndsPlain s → IsBlank q → trim_end (s ++ q) ≡ s
unfolding trim_end
trim_end_padded [] q h b = trim_end_blank q b
trim_end_padded (c ∷ []) q h b = ground (arith, trim_end_blank q b)
trim_end_padded (c ∷ d ∷ s) q h b = ground (arith, trim_end_padded (d ∷ s) q h b)

pub StartsPlain-append : (s t : Bytes) → StartsPlain s → s ≢ [] → StartsPlain (s ++ t)
StartsPlain-append [] t h n = absurd (n refl)
StartsPlain-append (c ∷ s) t h n = h

pub EndsPlain-append : (s t : Bytes) → EndsPlain t → t ≢ [] → EndsPlain (s ++ t)
EndsPlain-append s [] h n = absurd (n refl)
EndsPlain-append [] (d ∷ t) h n = h
EndsPlain-append (c ∷ []) (d ∷ t) h n = h
EndsPlain-append (c ∷ e ∷ s) (d ∷ t) h n = EndsPlain-append (e ∷ s) (d ∷ t) h n

trim_start_front :
    (s q : Bytes) → StartsPlain s → IsBlank q → trim_end (trim_start (s ++ q)) ≡ trim_end (s ++ q)
unfolding trim_start trim_end
trim_start_front [] q h b = rw (trim_end_blank q b) (ap trim_end (trim_start_all q b))
  where
    trim_start_all : (q : Bytes) → IsBlank q → trim_start q ≡ []
    trim_start_all [] b = refl
    trim_start_all (c ∷ q) b = rw (b.0) (trim_start_all q b.1)
trim_start_front (c ∷ s) q h b = rw h

-- Trimming takes the whitespace on both sides away, and no more.
pub trim_padded : (p s q : Bytes) → IsBlank p → IsTrimmed s → IsBlank q → trim (p ++ (s ++ q)) ≡ s
unfolding trim
trim_padded p s q hp h hq =
    rw (trim_start_blank p (s ++ q) hp) (trim_start_front s q h.0 hq ∙ trim_end_padded s q h.1 hq)

pub trim_id : (s : Bytes) → IsTrimmed s → trim s ≡ s
trim_id s h = ap trim (sym (append-nil s)) ∙ trim_padded [] s [] tt h tt

close_quote-append : (q : ℕ) (v : Bytes) → close_quote q (v ++ q ∷ []) ≡ some v
unfolding close_quote
close_quote-append q [] = ground arith
close_quote-append q (c ∷ []) = ground (arith, close_quote-append q [])
close_quote-append q (c ∷ d ∷ v) = ground (arith, close_quote-append q (d ∷ v))

abbrev pub IsQuote : ℕ → Type 0
IsQuote q = (q ≡ b'"') ⊎ (q ≡ b'\'')

abbrev pub quoted : ℕ → Bytes → Bytes
quoted q v = q ∷ (v ++ q ∷ [])

-- A quoted text loses its quotes, whatever it holds.
pub strip_quotes-quoted : (q : ℕ) (v : Bytes) → IsQuote q → strip_quotes (quoted q v) ≡ v
unfolding strip_quotes
strip_quotes-quoted q v h = ground (arith, close_quote-append q v)

pub quoted-IsTrimmed : (q : ℕ) (v : Bytes) → IsQuote q → IsTrimmed (quoted q v)
quoted-IsTrimmed q v h = (ground arith, EndsPlain-append (q ∷ v) (q ∷ []) (ground arith) (cc))
