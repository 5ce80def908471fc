-- ===== src/CString/Layers.antt =====
-- What a name stands for after lines of text that each may set it: the view of a configuration that
-- forgets its table.
use argo.Base.{◌≡◌, refl, List, [], ◌∷◌, ◌++◌, Option, none, some, if◌then◌else◌, Bytes, str_eq}

-- What a line makes of a name's value.
abbrev pub assigned : Option (Bytes × Bytes) → Bytes → Option Bytes → Option Bytes
assigned none j old = old
assigned (some (k, v)) j old = if str_eq k j then some v else old

module _ (parse : Bytes → Option (Bytes × Bytes)) where
  -- The value that the last line to set a name gives it.
  unfoldable pub last_of : Bytes → List Bytes → Option Bytes → Option Bytes
  last_of j [] old = old
  last_of j (l ∷ ls) old = last_of j ls (assigned (parse l) j old)

  pub last_of-append :
      (j : Bytes) (xs ys : List Bytes) (old : Option Bytes)
      → last_of j (xs ++ ys) old ≡ last_of j ys (last_of j xs old)
  unfolding last_of
  last_of-append j [] ys old = refl
  last_of-append j (l ∷ xs) ys old = last_of-append j xs ys _
