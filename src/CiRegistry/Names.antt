-- ===== src/CiRegistry/Names.antt =====
-- Names that do not fit their field in src/daemon/argo_registry.c.
use argo.Base.{
  ℕ, ◌+◌, ◌≤◌, ◌<◌, ◌≡◌, refl, ap, Bool, true, List, [], ◌∷◌, none, some, arith, Bytes, str_eq_iff,
  length, length-take, All,
}
use argo.Base.Nodes.{find_node}
use argo.Error.{success}
use argo.CiRegistry.{Entry, Registry, name_of, max_cis, find_ci, new_entry, add_ci}

-- Every stored name fits its field of 32 bytes.
abbrev pub Fits : List Entry → Type 0
Fits es = All (λ e. length e.name ≤ 31) es

find_node_long :
    (name : Bytes) (es : List Entry) → Fits es → 31 < length name → find_node name_of name es ≡ none
unfolding find_node
find_node_long name [] h long = refl
find_node_long name (e ∷ es) h long =
    ground
      (arith, str_eq_iff e.name name, ap length {x = e.name} {y = name}, find_node_long name es)

length-new_entry :
    (name role model : Bytes) (port now : ℕ) → length (new_entry name role model port now).name ≤ 31
unfolding new_entry
length-new_entry name role model port now = omega (arith, length-take 31 name)

-- A registration keeps all stored names within their field.
pub add_ci-Fits :
    (r : Registry) (name role model : Bytes) (port : ℕ) (mem : Bool) (now : ℕ)
    → Fits r.entries
    → Fits (add_ci r (some name) (some role) (some model) port mem now).0.entries
unfolding add_ci
add_ci-Fits r name role model port mem now h =
    ground (arith, length-new_entry name role model port now)

-- In a registry whose names fit their fields, with memory and with room for two CIs, a name of 32
-- bytes or more is registered with success, is not found afterwards, and is registered with success
-- again: the search for duplicates compares it with the shortened names.
pub add_ci_long :
    (r : Registry) (name role model : Bytes) (port port' now now' : ℕ)
    → Fits r.entries
    → 31 < length name
    → r.count + 1 < max_cis
    → let r' = (add_ci r (some name) (some role) (some model) port true now).0 in
      ((add_ci r (some name) (some role) (some model) port true now).1 ≡ success)
      × (find_ci r' name ≡ none)
      × ((add_ci r' (some name) (some role) (some model) port' true now').1 ≡ success)
unfolding add_ci find_ci
add_ci_long r name role model port port' now now' h long room =
    let r' = (add_ci r (some name) (some role) (some model) port true now).0 in
    let fits = add_ci-Fits r name role model port true now h in
    ground (arith, find_node_long name r.entries h long, find_node_long name r'.entries fits long)
