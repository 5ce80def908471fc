-- ===== src/Env/Load/Search.antt =====
-- The search for the project's file upwards in src/foundation/argo_env_load.c ends by itself.
use argo.Base.{
  ℕ, zero, suc, ◌<◌, ◌≡◌, refl, [], ◌∷◌, some, arith, Bytes, length, Option-cases, Bool-cases, inl,
  inr,
}
use argo.Env.Load.{World, in_dir, before_slash, parent_dir, project_file, search_up}

before_slash-shorter : (s p : Bytes) → before_slash s ≡ some p → length p < length s
unfolding before_slash
before_slash-shorter [] p h = absurd (cc)
before_slash-shorter (c ∷ s) p h = elim (Option-cases (before_slash s)) [
  | inl last ↦ ground arith
  | inr (q, at) ↦ ground (arith, before_slash-shorter s q at)
]

-- A directory above has a shorter path.
parent_dir-shorter : (s p : Bytes) → parent_dir s ≡ some p → length p < length s
unfolding parent_dir
parent_dir-shorter s p h = elim (Option-cases (before_slash s)) [
  | inl none_there ↦ absurd (ground arith)
  | inr ([], at) ↦ absurd (ground arith)
  | inr (c ∷ q, at) ↦ ground (arith, before_slash-shorter s (c ∷ q) at)
]

-- From one round more than the path has bytes on, the number of rounds does not matter: the search
-- has found the file or has reached the top.
pub search_up-rounds :
    (f g : ℕ) (w : World) (dir : Bytes)
    → length dir < f
    → length dir < g
    → search_up f w dir ≡ search_up g w dir
unfolding search_up
search_up-rounds zero g w dir h k = absurd (omega arith)
search_up-rounds (suc f) zero w dir h k = absurd (omega arith)
search_up-rounds (suc f) (suc g) w dir h k =
    elim (Bool-cases (w.exists (in_dir dir project_file))) [
      | inl here ↦ rw (here, search_up) refl
      | inr not_here ↦ elim (Option-cases (parent_dir dir)) [
        | inl top ↦ rw (not_here, search_up) (rw (top, search_up) refl)
        | inr (up, at) ↦
            let less = parent_dir-shorter dir up at in
            rw (not_here, search_up)
              (rw (at, search_up)
                (search_up-rounds f g w up (omega (arith, less)) (omega (arith, less))))
      ]
    ]
