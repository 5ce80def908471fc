-- ===== src/Daemon/Helpers/Args.antt =====
-- Reading back the arguments of a workflow (src/daemon/argo_daemon_workflow_helpers.c).
use mathlib.Core.List.{append_assoc}
use argo.Base.{
  ℕ, zero, suc, ◌+◌, ◌-◌, ◌*◌, ◌/◌, ◌≤◌, ◌≡◌, refl, ◌∙◌, ap, sym, Bool, true, false, List, [], ◌∷◌,
  ◌++◌, some, arith, ◌==◌, Bytes, length, length-append, All,
}
use argo.CString.Laws.{Lacks, Lacks-append, cut-append, quoted}
use argo.Json.{after}
use argo.Error.{success}
use argo.Daemon.Helpers.{
  count_char, skip_separators, take_args, args_key, array_of, parse_args_from_json,
}

-- An argument that the reader takes as it stands: no quote and no bracket.
abbrev pub IsArg : Bytes → Type 0
IsArg a = Lacks b'"' a × Lacks b']' a

-- The items of an array behind its first.
abbrev pub more_items : List Bytes → Bytes
more_items [] = []
more_items (a ∷ xs) = b',' ∷ (quoted b'"' a ++ more_items xs)

abbrev pub items : List Bytes → Bytes
items [] = []
items (a ∷ xs) = quoted b'"' a ++ more_items xs

abbrev given : Bytes → Bool
given a = true

-- A round that reads an argument.
take_args-round :
    (fuel count left : ℕ) (s a rest : Bytes)
    → skip_separators s ≡ b'"' ∷ (a ++ b'"' ∷ rest)
    → Lacks b'"' a
    → take_args given (suc fuel) (suc count) (suc left) s
      ≡ a
        ∷ take_args given fuel count
            (suc left - (length s - length (b'"' ∷ (a ++ b'"' ∷ rest))) - (length a + 2))
            rest
unfolding take_args
take_args-round fuel count left s a rest h l =
    rw (h, take_args)
      (rw (cut-append b'"' a rest l, take_args)
        (ap
          (λ x.
            a ∷ take_args given fuel count (suc left - (length s - length x) - (length a + 2)) rest)
          h))

quoted-append : (a rest : Bytes) → quoted b'"' a ++ rest ≡ b'"' ∷ (a ++ b'"' ∷ rest)
quoted-append a rest = ap (λ x. b'"' ∷ x) (append_assoc a (b'"' ∷ []) rest)

take_args-more :
    (fuel : ℕ) (xs : List Bytes) (behind : Bytes)
    → All IsArg xs
    → length xs ≤ fuel
    → take_args given fuel (length xs) (length (more_items xs)) (more_items xs ++ behind) ≡ xs
unfolding take_args
take_args-more zero [] behind h n = refl
take_args-more (suc fuel) [] behind h n = refl
take_args-more zero (a ∷ xs) behind h n = absurd (omega arith)
take_args-more (suc fuel) (a ∷ xs) behind h n =
    let rest = more_items xs ++ behind in
    let text = b'"' ∷ (a ++ b'"' ∷ rest) in
    let left = length (quoted b'"' a ++ more_items xs) in
    let spelled : (quoted b'"' a ++ more_items xs) ++ behind ≡ text =
      append_assoc (quoted b'"' a) (more_items xs) behind ∙ quoted-append a rest in
    ap (λ x. take_args given (suc fuel) (suc (length xs)) (suc left) (b',' ∷ x)) spelled
    ∙ take_args-round fuel (length xs) left (b',' ∷ text) a rest (unfold skip_separators in refl)
        h.0.0
    ∙ ap (λ n. a ∷ take_args given fuel (length xs) n rest)
        (omega (arith, length-append (quoted b'"' a) (more_items xs), length-append a (b'"' ∷ [])))
    ∙ ap (λ x. a ∷ x) (take_args-more fuel xs behind h.1 (omega arith))

take_args-items :
    (fuel : ℕ) (a : Bytes) (xs : List Bytes) (behind : Bytes)
    → All IsArg (a ∷ xs)
    → length xs ≤ fuel
    → take_args given
        (suc fuel)
        (length (a ∷ xs))
        (length (items (a ∷ xs)))
        (items (a ∷ xs) ++ behind)
      ≡ a ∷ xs
take_args-items fuel a xs behind h n =
    let rest = more_items xs ++ behind in
    let text = b'"' ∷ (a ++ b'"' ∷ rest) in
    let left = length ((a ++ b'"' ∷ []) ++ more_items xs) in
    let spelled : (quoted b'"' a ++ more_items xs) ++ behind ≡ text =
      append_assoc (quoted b'"' a) (more_items xs) behind ∙ quoted-append a rest in
    ap (take_args given (suc fuel) (suc (length xs)) (suc left)) spelled
    ∙ take_args-round fuel (length xs) left text a rest (unfold skip_separators in refl) h.0.0
    ∙ ap (λ n. a ∷ take_args given fuel (length xs) n rest)
        (omega (arith, length-append (a ++ b'"' ∷ []) (more_items xs), length-append a (b'"' ∷ [])))
    ∙ ap (λ x. a ∷ x) (take_args-more fuel xs behind h.1 n)

count_char-append : (c : ℕ) (s t : Bytes) → count_char c (s ++ t) ≡ count_char c s + count_char c t
unfolding count_char
count_char-append c [] t = omega arith
count_char-append c (x ∷ s) t = omega (arith, count_char-append c s t)

count_char-Lacks : (c : ℕ) (s : Bytes) → Lacks c s → count_char c s ≡ 0
unfolding count_char
count_char-Lacks c [] h = refl
count_char-Lacks c (x ∷ s) h = ground (arith, count_char-Lacks c s h.1)

count-quoted : (a : Bytes) → Lacks b'"' a → count_char b'"' (quoted b'"' a) ≡ 2
unfolding count_char
count-quoted a h = omega (arith, count_char-append b'"' a (b'"' ∷ []), count_char-Lacks b'"' a h)

count-more_items :
    (xs : List Bytes) → All IsArg xs → count_char b'"' (more_items xs) ≡ 2 * length xs
unfolding count_char
count-more_items [] h = refl
count-more_items (a ∷ xs) h = omega (
  arith,
  count_char-append b'"' (quoted b'"' a) (more_items xs),
  count-quoted a h.0.0,
  count-more_items xs h.1,
)

more_items-Lacks : (xs : List Bytes) → All IsArg xs → Lacks b']' (more_items xs)
more_items-Lacks [] h = tt
more_items-Lacks (a ∷ xs) h = (
  ground arith,
  Lacks-append b']' (quoted b'"' a) (more_items xs)
      (ground arith, Lacks-append b']' a (b'"' ∷ []) h.0.1 (ground arith))
      (more_items-Lacks xs h.1),
)

items-Lacks : (xs : List Bytes) → All IsArg xs → Lacks b']' (items xs)
items-Lacks [] h = tt
items-Lacks (a ∷ xs) h = (more_items-Lacks (a ∷ xs) h).1

array_of-append :
    (front inside behind : Bytes)
    → Lacks b'[' front
    → Lacks b']' front
    → Lacks b']' inside
    → array_of (front ++ b'[' ∷ (inside ++ b']' ∷ behind)) ≡ some (inside, inside ++ b']' ∷ behind)
unfolding array_of
array_of-append front inside behind h k l =
    let upto = front ++ b'[' ∷ inside in
    let lacks : Lacks b']' upto = Lacks-append b']' front (b'[' ∷ inside) k (ground arith, l) in
    ap array_of (sym (append_assoc front (b'[' ∷ inside) (b']' ∷ behind)))
    ∙ rw (cut-append b']' upto behind lacks, array_of)
        (rw (cut-append b'[' front inside h, array_of) refl)

length-more_items : (xs : List Bytes) → length xs ≤ length (more_items xs)
length-more_items [] = omega arith
length-more_items (a ∷ xs) =
    omega (arith, length-append (quoted b'"' a) (more_items xs), length-more_items xs)

-- With memory given, the arguments that the body of a request spells after its first "args" are read
-- back, whatever stands behind their array: they are written in quotes with commas between them, and hold no quote and
-- no ']'. What stands between the key and the array holds no bracket.
pub parse_args_from_json-items :
    (body front behind : Bytes) (xs : List Bytes)
    → after args_key body ≡ some (front ++ b'[' ∷ (items xs ++ b']' ∷ behind))
    → Lacks b'[' front
    → Lacks b']' front
    → All IsArg xs
    → parse_args_from_json body true (λ a. true) ≡ (xs, success)
unfolding parse_args_from_json
parse_args_from_json-items body front behind [] at h k l =
    rw (at, parse_args_from_json)
      (rw (array_of-append front [] behind h k tt, parse_args_from_json)
        (unfold count_char in refl))
parse_args_from_json-items body front behind (a ∷ xs) at h k l =
    let inside = items (a ∷ xs) in
    let counted : count_char b'"' inside / 2 ≡ suc (length xs) = omega (
      arith,
      count_char-append b'"' (quoted b'"' a) (more_items xs),
      count-quoted a l.0.0,
      count-more_items xs l.1,
    ) in
    let busy : (suc (length xs) == 0) ≡ false = ground arith in
    let rest = (a ++ b'"' ∷ []) ++ more_items xs in
    let enough : length xs ≤ length (rest ++ b']' ∷ behind) = omega (
      arith,
      length-append rest (b']' ∷ behind),
      length-append (a ++ b'"' ∷ []) (more_items xs),
      length-more_items xs,
    ) in
    rw (at, parse_args_from_json)
      (rw (array_of-append front inside behind h k (items-Lacks (a ∷ xs) l), parse_args_from_json)
        (rw (counted, busy)
          (ap (λ r. (r, success))
            (take_args-items (length (rest ++ b']' ∷ behind)) a xs (b']' ∷ behind) l enough))))
