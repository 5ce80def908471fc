-- ===== src/Base/Nodes.antt =====
-- The singly linked lists of the daemon's registries: a search by a string key, a write through
-- the pointer that the search returns, and the removal of the node that it finds.
use argo.Base.Tests.{if◌then◌else◌}
use argo.Base.Lists.{length}
use argo.Base.Text.{Bytes, str_eq, str_eq_iff}
use Prim.Native.Nat.{ℕ, ◌+◌}
use mathlib.Core.Path.{◌≡◌, refl, ap}
use mathlib.Core.Bool.{false}
use mathlib.Core.Option
use mathlib.Core.Option.{Option, none, some}
use mathlib.Core.List.{List, [], ◌∷◌}
use native.Mathlib.Omega.{arith}

abbrev pub present {ℓ} : {A : Type ℓ} → Option A → ℕ
present none = 0
present (some _) = 1

module _ {A : Type 0} (key : A → Bytes) where
  unfoldable pub find_node : Bytes → List A → Option A
  find_node k [] = none
  find_node k (x ∷ xs) = if str_eq (key x) k then some x else find_node k xs

  unfoldable pub modify_node : Bytes → (A → A) → List A → List A
  modify_node k f [] = []
  modify_node k f (x ∷ xs) = if str_eq (key x) k then f x ∷ xs else x ∷ modify_node k f xs

  unfoldable pub remove_node : Bytes → List A → List A
  remove_node k [] = []
  remove_node k (x ∷ xs) = if str_eq (key x) k then xs else x ∷ remove_node k xs

  -- No two nodes have the same key.
  abbrev pub Distinct : List A → Type 0
  Distinct [] = Unit
  Distinct (x ∷ xs) = (find_node (key x) xs ≡ none) × Distinct xs

  pub find-key : (k : Bytes) (xs : List A) {x : A} → find_node k xs ≡ some x → key x ≡ k
  unfolding find_node
  find-key k [] h = absurd (ground arith)
  find-key k (y ∷ xs) {x} h = ground (arith, str_eq_iff (key y) k, find-key k xs {x = x})

  pub find-remove_other :
      (k j : Bytes) (xs : List A)
      → str_eq k j ≡ false
      → find_node j (remove_node k xs) ≡ find_node j xs
  unfolding find_node remove_node
  find-remove_other k j [] h = refl
  find-remove_other k j (x ∷ xs) h =
      ground (
        arith,
        str_eq_iff (key x) k,
        str_eq_iff (key x) j,
        str_eq_iff k j,
        find-remove_other k j xs,
      )

  -- The map law of removal.
  pub find-remove :
      (k j : Bytes) (xs : List A)
      → Distinct xs
      → find_node j (remove_node k xs) ≡ (if str_eq k j then none else find_node j xs)
  unfolding find_node remove_node
  find-remove k j [] d = ground arith
  find-remove k j (x ∷ xs) d = ground (
    arith,
    str_eq_iff (key x) k,
    str_eq_iff (key x) j,
    str_eq_iff k j,
    find-remove k j xs,
    ap (λ (b : Bytes). find_node b xs) {x = key x} {y = j},
  )

  pub length-remove :
      (k : Bytes) (xs : List A) → length xs ≡ length (remove_node k xs) + present (find_node k xs)
  unfolding find_node remove_node
  length-remove k [] = omega arith
  length-remove k (x ∷ xs) = ground (arith, length-remove k xs)

  pub find-modify :
      (k j : Bytes) (f : A → A) (xs : List A)
      → ((x : A) → key (f x) ≡ key x)
      → find_node j (modify_node k f xs)
        ≡ (if str_eq k j then Option.map f (find_node j xs) else find_node j xs)
  unfolding find_node modify_node
  find-modify k j f [] h = ground arith
  find-modify k j f (x ∷ xs) h = ground (
    arith,
    str_eq_iff (key x) k,
    str_eq_iff (key x) j,
    str_eq_iff k j,
    find-modify k j f xs h,
    h x,
    ap (λ (b : Bytes). str_eq b j) (h x),
  )

  pub length-modify :
      (k : Bytes) (f : A → A) (xs : List A) → length (modify_node k f xs) ≡ length xs
  unfolding modify_node
  length-modify k f [] = refl
  length-modify k f (x ∷ xs) = ground (arith, length-modify k f xs)

  pub Distinct-modify :
      (k : Bytes) (f : A → A) (xs : List A)
      → ((x : A) → key (f x) ≡ key x)
      → Distinct xs
      → Distinct (modify_node k f xs)
  unfolding modify_node
  Distinct-modify k f [] h d = tt
  Distinct-modify k f (x ∷ xs) h d = ground (
    arith,
    h x,
    ap (λ (b : Bytes). find_node b xs) (h x),
    Distinct-modify k f xs h,
    find-modify k (key x) f xs h,
  )

  pub find-remove_absent :
      (k j : Bytes) (xs : List A) → find_node j xs ≡ none → find_node j (remove_node k xs) ≡ none
  unfolding find_node remove_node
  find-remove_absent k j [] h = refl
  find-remove_absent k j (x ∷ xs) h = ground (arith, find-remove_absent k j xs)

  pub Distinct-remove : (k : Bytes) (xs : List A) → Distinct xs → Distinct (remove_node k xs)
  unfolding remove_node
  Distinct-remove k [] d = tt
  Distinct-remove k (x ∷ xs) d =
      ground (arith, Distinct-remove k xs, find-remove_absent k (key x) xs)
