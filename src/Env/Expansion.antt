-- ===== src/Env/Expansion.antt =====
-- The expansion of references in src/foundation/argo_env_load.c: its buffer, and its rounds.
use argo.Base.{
  ℕ, zero, suc, ◌+◌, ◌≤◌, ◌≡◌, refl, ap, ◌∙◌, false, List, [], ◌∷◌, ◌++◌, none, some, arith, leb,
  Bytes, codes, length, length-append, sym, ◌≢◌, Bool-cases, Option-cases, inl, inr,
}
use mathlib.Core.List.{append-nil, append_assoc}
use argo.CString.{cut}
use argo.CString.Laws.{Lacks, cut_sound}
use argo.Json.{strip}
use argo.Env.{lookup_value}
use argo.Env.Expand.{line_max, reference, fit, expand_loop, expand_value}

fit-bounded : (out x : Bytes) → length out ≤ line_max → length (out ++ fit out x) ≤ line_max
unfolding fit
fit-bounded out x h = ground (arith, length-append out x, length-append out [])

expand_loop-bounded :
    (deeper : Bytes → Bytes) (es : List Bytes) (fuel : ℕ) (src out : Bytes)
    → length out ≤ line_max
    → length (expand_loop deeper es fuel src out) ≤ line_max
unfolding expand_loop
expand_loop-bounded deeper es zero src out h = h
expand_loop-bounded deeper es (suc fuel) [] out h = h
expand_loop-bounded deeper es (suc fuel) (c ∷ s) out h =
    elim (Bool-cases (leb line_max (length out))) [
      | inl full ↦ rw (full, expand_loop) h
      | inr room ↦ elim (Option-cases (reference (c ∷ s))) [
        | inl plain ↦
            rw (room, expand_loop)
              (rw (plain, expand_loop)
                (expand_loop-bounded deeper es fuel s (out ++ c ∷ [])
                  (ground (arith, length-append out (c ∷ [])))))
        | inr ((name, rest), at) ↦ elim (Option-cases (lookup_value name es)) [
          | inl unset ↦
              rw (room, expand_loop)
                (rw (at, expand_loop)
                  (rw (unset, expand_loop) (expand_loop-bounded deeper es fuel rest out h)))
          | inr (v, found) ↦
              rw (room, expand_loop)
                (rw (at, expand_loop)
                  (rw (found, expand_loop)
                    (expand_loop-bounded deeper es fuel rest (out ++ fit out (deeper v))
                      (fit-bounded out (deeper v) h))))
        ]
      ]
    ]

strip-length : (key s rest : Bytes) → strip key s ≡ some rest → length rest ≤ length s
unfolding strip
strip-length [] s rest h = ground arith
strip-length (k ∷ ks) [] rest h = absurd (cc)
strip-length (k ∷ ks) (c ∷ s) rest h = ground (arith, strip-length ks s rest)

-- A reference is read past its first byte.
reference-shorter :
    (c : ℕ) (s name rest : Bytes) → reference (c ∷ s) ≡ some (name, rest) → length rest ≤ length s
unfolding reference
reference-shorter c s name rest h = elim (Option-cases (strip (codes "${") (c ∷ s))) [
  | inl other ↦ absurd (ground arith)
  | inr (body, at) ↦ elim (Option-cases (cut b'}' body)) [
    | inl open_end ↦ absurd (ground arith)
    | inr ((n, r), found) ↦
        let sound = cut_sound b'}' body n r found in
        let same : rest ≡ r = ground arith in
        omega (
          arith,
          strip-length (codes "${") (c ∷ s) body at,
          ap length sound.1,
          length-append n (b'}' ∷ r),
          ap length same,
        )
  ]
]

-- From as many rounds as the text has bytes on, the rounds do not matter.
expand_loop-fuel :
    (deeper : Bytes → Bytes) (es : List Bytes) (f g : ℕ) (src out : Bytes)
    → length src ≤ f
    → length src ≤ g
    → expand_loop deeper es f src out ≡ expand_loop deeper es g src out
unfolding expand_loop
expand_loop-fuel deeper es zero zero src out h k = refl
expand_loop-fuel deeper es zero (suc g) [] out h k = refl
expand_loop-fuel deeper es zero (suc g) (c ∷ s) out h k = absurd (omega arith)
expand_loop-fuel deeper es (suc f) zero [] out h k = refl
expand_loop-fuel deeper es (suc f) zero (c ∷ s) out h k = absurd (omega arith)
expand_loop-fuel deeper es (suc f) (suc g) [] out h k = refl
expand_loop-fuel deeper es (suc f) (suc g) (c ∷ s) out h k =
    elim (Bool-cases (leb line_max (length out))) [
      | inl full ↦ rw (full, expand_loop)
      | inr room ↦ elim (Option-cases (reference (c ∷ s))) [
        | inl plain ↦
            rw (room, expand_loop)
              (rw (plain, expand_loop)
                (expand_loop-fuel deeper es f g s (out ++ c ∷ []) (omega arith) (omega arith)))
        | inr ((name, rest), at) ↦
            let less = reference-shorter c s name rest at in
            elim (Option-cases (lookup_value name es)) [
              | inl unset ↦
                  rw (room, expand_loop)
                    (rw (at, expand_loop)
                      (rw (unset, expand_loop)
                        (expand_loop-fuel deeper es f g rest out (omega (arith, less))
                          (omega (arith, less)))))
              | inr (v, found) ↦
                  rw (room, expand_loop)
                    (rw (at, expand_loop)
                      (rw (found, expand_loop)
                        (expand_loop-fuel deeper es f g rest (out ++ fit out (deeper v))
                          (omega (arith, less)) (omega (arith, less)))))
            ]
      ]
    ]

-- The expansion ends and fits its buffer of 4096 bytes, also where variables refer to themselves or
-- to one another: the result has at most 4095 bytes, and the loop gives it with any number of
-- rounds from the length of the value on.
pub expand_value_lem :
    (depth : ℕ) (es : List Bytes) (value : Bytes) (rounds : ℕ)
    → length value ≤ rounds
    → (length (expand_value (suc depth) es value) ≤ line_max)
      × (expand_loop (expand_value depth es) es rounds value [] ≡ expand_value (suc depth) es value)
unfolding expand_value
expand_value_lem depth es value rounds h = (
  expand_loop-bounded (expand_value depth es) es (length value) value [] (omega arith),
  expand_loop-fuel (expand_value depth es) es rounds (length value) value [] h (omega arith),
)

reference_plain : (c : ℕ) (s : Bytes) → c ≢ b'$' → reference (c ∷ s) ≡ none
unfolding reference strip
reference_plain c s h = ground arith

expand_loop_plain :
    (deeper : Bytes → Bytes) (es : List Bytes) (src out : Bytes)
    → Lacks b'$' src
    → length out + length src ≤ line_max
    → expand_loop deeper es (length src) src out ≡ out ++ src
unfolding expand_loop
expand_loop_plain deeper es [] out l h = sym (append-nil out)
expand_loop_plain deeper es (c ∷ s) out l h =
    let room : leb line_max (length out) ≡ false = ground arith in
    rw (room, expand_loop)
      (rw (reference_plain c s l.0, expand_loop)
        (expand_loop_plain deeper es s (out ++ c ∷ []) l.1
            (omega (arith, length-append out (c ∷ [])))
          ∙ append_assoc out (c ∷ []) s))

-- A value without a dollar sign that fits the buffer is its own expansion.
pub expand_value_plain :
    (depth : ℕ) (es : List Bytes) (value : Bytes)
    → Lacks b'$' value
    → length value ≤ line_max
    → expand_value depth es value ≡ value
unfolding expand_value
expand_value_plain zero es value l h = refl
expand_value_plain (suc depth) es value l h =
    expand_loop_plain (expand_value depth es) es value [] l (omega arith)
