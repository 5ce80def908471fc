-- ===== src/Daemon/Helpers/Rounds.antt =====
-- The readers of arguments and variables in src/daemon/argo_daemon_workflow_helpers.c end by
-- themselves.
use mathlib.Core.Option
use argo.Base.{
  ℕ, zero, suc, ◌≤◌, ◌<◌, ◌≡◌, refl, ap, sym, Bool, [], ◌∷◌, Option, none, some, arith, ◌==◌,
  if◌then◌else◌, Bytes, length, length-append, Option-cases, Bool-cases, ◌⊎◌, inl, inr,
}
use argo.CString.{cut}
use argo.CString.Laws.{cut_sound}
use argo.Daemon.Helpers.{skip_separators, skip_spaces, take_args, env_value, take_env}

text-cases : (s : Bytes) → (s ≡ []) ⊎ ((c : ℕ) × (t : Bytes) × (s ≡ c ∷ t))
text-cases [] = inl refl
text-cases (c ∷ t) = inr (c, t, refl)

cut-shorter : (c : ℕ) (s a b : Bytes) → cut c s ≡ some (a, b) → length b < length s
cut-shorter c s a b h = omega (arith, ap length (cut_sound c s a b h).1, length-append a (c ∷ b))

skip_separators-le : (s : Bytes) → length (skip_separators s) ≤ length s
unfolding skip_separators
skip_separators-le [] = omega arith
skip_separators-le (c ∷ s) = ground (arith, skip_separators-le s)

take_args_nothing : (mem : Bytes → Bool) (f count left : ℕ) → take_args mem f count left [] ≡ []
unfolding take_args skip_separators
take_args_nothing mem zero count left = refl
take_args_nothing mem (suc f) zero left = refl
take_args_nothing mem (suc f) (suc count) zero = refl
take_args_nothing mem (suc f) (suc count) (suc left) = refl

-- From as many rounds as the text has bytes on, the number of rounds does not matter: the reader of
-- arguments has come to its end.
pub take_args-rounds :
    (mem : Bytes → Bool) (f g count left : ℕ) (s : Bytes)
    → length s ≤ f
    → length s ≤ g
    → take_args mem f count left s ≡ take_args mem g count left s
unfolding take_args
take_args-rounds mem zero g count left [] h k = sym (take_args_nothing mem g count left)
take_args-rounds mem zero g count left (c ∷ s) h k = absurd (omega arith)
take_args-rounds mem (suc f) zero count left [] h k = take_args_nothing mem (suc f) count left
take_args-rounds mem (suc f) zero count left (c ∷ s) h k = absurd (omega arith)
take_args-rounds mem (suc f) (suc g) zero left s h k = refl
take_args-rounds mem (suc f) (suc g) (suc count) zero s h k = refl
take_args-rounds mem (suc f) (suc g) (suc count) (suc left) s h k =
    elim (text-cases (skip_separators s)) [
      | inl done ↦ rw (done, take_args) refl
      | inr (c, t, at) ↦
          let skipped = skip_separators-le s in
          let size : length (skip_separators s) ≡ suc (length t) = ap length at in
          elim (Bool-cases (c == b'"')) [
            | inr other ↦ rw (at, take_args) (rw (other, take_args) refl)
            | inl quote ↦ elim (Option-cases (cut b'"' t)) [
              | inl open_end ↦
                  rw (at, take_args)
                    (rw (quote, take_args)
                      (rw (open_end, take_args)
                        (take_args-rounds mem f g (suc count) _ t (omega (arith, skipped, size))
                          (omega (arith, skipped, size)))))
              | inr ((arg, rest), found) ↦
                  let less = cut-shorter b'"' t arg rest found in
                  let lf : length rest ≤ f = omega (arith, skipped, size, less) in
                  let lg : length rest ≤ g = omega (arith, skipped, size, less) in
                  rw (at, take_args)
                    (rw (quote, take_args)
                      (rw (found, take_args)
                        (elim (Bool-cases (mem arg)) [
                          | inl given ↦
                              rw (given, take_args)
                                (ap (λ xs. arg ∷ xs) (take_args-rounds mem f g count _ rest lf lg))
                          | inr denied ↦
                              rw (denied, take_args)
                                (take_args-rounds mem f g (suc count) _ rest lf lg)
                        ])))
            ]
          ]
    ]

skip_spaces-le : (s : Bytes) → length (skip_spaces s) ≤ length s
unfolding skip_spaces
skip_spaces-le [] = omega arith
skip_spaces-le (c ∷ s) = ground (arith, skip_spaces-le s)

-- A value is read without going back in the text.
env_value-le :
    (s rest : Bytes) (v : Option Bytes) → env_value s ≡ some (v, rest) → length rest ≤ length s
unfolding env_value
env_value-le s rest v h = elim (Option-cases (cut b':' s)) [
  | inl gone ↦ absurd (ground arith)
  | inr ((gap, behind), colon) ↦
      let less = cut-shorter b':' s gap behind colon in
      let spaces = skip_spaces-le behind in
      elim (text-cases (skip_spaces behind)) [
        | inl done ↦ ground (arith, less)
        | inr (c, t, at) ↦
            let size : length (skip_spaces behind) ≡ suc (length t) = ap length at in
            elim (Bool-cases (c == b'"')) [
              | inr other ↦ ground (arith, less, spaces, size)
              | inl quote ↦ elim (Option-cases (cut b'"' t)) [
                | inl open_end ↦ ground (arith, less, spaces, size)
                | inr ((value, r), found) ↦
                    ground (arith, less, spaces, size, cut-shorter b'"' t value r found)
              ]
            ]
      ]
]

take_env_nothing : (mem : Bytes → Bool) (f count left : ℕ) → take_env mem f count left [] ≡ some []
unfolding take_env skip_separators
take_env_nothing mem zero count left = refl
take_env_nothing mem (suc f) zero left = refl
take_env_nothing mem (suc f) (suc count) zero = refl
take_env_nothing mem (suc f) (suc count) (suc left) = refl

-- The same for the reader of variables.
pub take_env-rounds :
    (mem : Bytes → Bool) (f g count left : ℕ) (s : Bytes)
    → length s ≤ f
    → length s ≤ g
    → take_env mem f count left s ≡ take_env mem g count left s
unfolding take_env
take_env-rounds mem zero g count left [] h k = sym (take_env_nothing mem g count left)
take_env-rounds mem zero g count left (c ∷ s) h k = absurd (omega arith)
take_env-rounds mem (suc f) zero count left [] h k = take_env_nothing mem (suc f) count left
take_env-rounds mem (suc f) zero count left (c ∷ s) h k = absurd (omega arith)
take_env-rounds mem (suc f) (suc g) zero left s h k = refl
take_env-rounds mem (suc f) (suc g) (suc count) zero s h k = refl
take_env-rounds mem (suc f) (suc g) (suc count) (suc left) s h k =
    elim (text-cases (skip_separators s)) [
      | inl done ↦ rw (done, take_env) refl
      | inr (c, t, at) ↦
          let skipped = skip_separators-le s in
          let size : length (skip_separators s) ≡ suc (length t) = ap length at in
          elim (Bool-cases (c == b'"')) [
            | inr other ↦ rw (at, take_env) (rw (other, take_env) refl)
            | inl quote ↦ elim (Option-cases (cut b'"' t)) [
              | inl open_end ↦
                  rw (at, take_env)
                    (rw (quote, take_env)
                      (rw (open_end, take_env)
                        (take_env-rounds mem f g (suc count) _ t (omega (arith, skipped, size))
                          (omega (arith, skipped, size)))))
              | inr ((key, behind), found) ↦
                  let less = cut-shorter b'"' t key behind found in
                  rw (at, take_env)
                    (rw (quote, take_env)
                      (rw (found, take_env)
                        (elim (Option-cases (env_value behind)) [
                          | inl fault ↦ rw (fault, take_env) refl
                          | inr ((none, rest), read) ↦
                              let back = env_value-le behind rest none read in
                              rw (read, take_env)
                                (take_env-rounds mem f g (suc count) _ rest
                                  (omega (arith, skipped, size, less, back))
                                  (omega (arith, skipped, size, less, back)))
                          | inr ((some value, rest), read) ↦
                              let back = env_value-le behind rest (some value) read in
                              let lf : length rest ≤ f = omega (arith, skipped, size, less, back) in
                              let lg : length rest ≤ g = omega (arith, skipped, size, less, back) in
                              rw (read, take_env)
                                (elim (Bool-cases (mem value)) [
                                  | inl given ↦
                                      rw (given, take_env)
                                        (ap
                                          (Option.map (λ vars.
                                            (if mem key then some key else none, value) ∷ vars))
                                          (take_env-rounds mem f g count _ rest lf lg))
                                  | inr denied ↦
                                      rw (denied, take_env)
                                        (take_env-rounds mem f g (suc count) _ rest lf lg)
                                ])
                        ])))
            ]
          ]
    ]
