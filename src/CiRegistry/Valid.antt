-- ===== src/CiRegistry/Valid.antt =====
-- The invariant of src/daemon/argo_registry.c, and its operations as changes of a map.
use mathlib.Core.Option
use argo.Base.{
  ℕ, ◌≤◌, ◌≡◌, ◌≢◌, refl, ap, Bool, Option, none, some, arith, if◌then◌else◌, Bytes, str_eq,
  str_eq_iff, length, take_all,
}
use argo.Base.Nodes.{
  find_node, Distinct, find-remove, find-modify, length-remove, length-modify, Distinct-modify,
  Distinct-remove,
}
use argo.Error.{success}
use argo.CiRegistry.{
  Status, Entry, Registry, name_of, max_cis, create, find_ci, new_entry, add_ci, remove_ci, write,
  with_status, update_status, with_heartbeat, heartbeat,
}

-- The count is that of the entries, at most 50, and no name occurs twice.
pub record IsValid (r : Registry) : Type 0 where
  pub counted : r.count ≡ length r.entries
  pub bounded : r.count ≤ max_cis
  pub distinct : Distinct name_of r.entries

pub create-IsValid : IsValid create
unfolding create
create-IsValid = ground arith

-- A name that fits its field is stored whole.
pub new_entry-name :
    (name role model : Bytes) (port now : ℕ)
    → length name ≤ 31
    → (new_entry name role model port now).name ≡ name
unfolding new_entry
new_entry-name name role model port now h = take_all 31 name h

pub add_ci-IsValid :
    (r : Registry) (name role model : Bytes) (port : ℕ) (mem : Bool) (now : ℕ)
    → IsValid r
    → length name ≤ 31
    → IsValid (add_ci r (some name) (some role) (some model) port mem now).0
unfolding add_ci find_ci new_entry
add_ci-IsValid r name role model port mem now h short =
    ground (arith, ap (λ (b : Bytes). find_node name_of b r.entries) (take_all 31 name short))

pub remove_ci-IsValid :
    (r : Registry) (name : Option Bytes) → IsValid r → IsValid (remove_ci r name).0
unfolding remove_ci find_ci
remove_ci-IsValid r none h = h
remove_ci-IsValid r (some name) h =
    ground (arith, length-remove name_of name r.entries, Distinct-remove name_of name r.entries)

pub write-IsValid :
    (r : Registry) (name : Bytes) (f : Entry → Entry)
    → ((e : Entry) → name_of (f e) ≡ name_of e)
    → IsValid r
    → IsValid (write r name f)
unfolding write
write-IsValid r name f keep h = record {
  counted = omega (arith, length-modify name_of name f r.entries, h.counted);
  bounded = h.bounded;
  distinct = Distinct-modify name_of name f r.entries keep h.distinct;
}

pub update_status-IsValid :
    (r : Registry) (name : Option Bytes) (s : Status)
    → IsValid r
    → IsValid (update_status r name s).0
unfolding update_status
update_status-IsValid r none s h = h
update_status-IsValid r (some name) s h =
    ground (arith, write-IsValid r name (with_status s) (λ e. refl) h)

pub heartbeat-IsValid :
    (r : Registry) (name : Option Bytes) (now : ℕ) → IsValid r → IsValid (heartbeat r name now).0
unfolding heartbeat
heartbeat-IsValid r none now h = h
heartbeat-IsValid r (some name) now h =
    ground (arith, write-IsValid r name (with_heartbeat now) (λ e. refl) h)

pub find_ci-write :
    (r : Registry) (name j : Bytes) (f : Entry → Entry)
    → ((e : Entry) → name_of (f e) ≡ name_of e)
    → find_ci (write r name f) j
      ≡ (if str_eq name j then Option.map f (find_ci r j) else find_ci r j)
unfolding find_ci write
find_ci-write r name j f keep = find-modify name_of name j f r.entries keep

pub find_ci-update_status :
    (r : Registry) (name j : Bytes) (s : Status)
    → find_ci (update_status r (some name) s).0 j
      ≡ (if str_eq name j then Option.map (with_status s) (find_ci r j) else find_ci r j)
unfolding update_status with_status
find_ci-update_status r name j s = ground (
  arith,
  str_eq_iff name j,
  find_ci-write r name j (with_status s) (λ e. refl),
  ap (find_ci r) {x = name} {y = j},
)

pub find_ci-heartbeat :
    (r : Registry) (name j : Bytes) (now : ℕ)
    → find_ci (heartbeat r (some name) now).0 j
      ≡ (if str_eq name j then Option.map (with_heartbeat now) (find_ci r j) else find_ci r j)
unfolding heartbeat with_heartbeat
find_ci-heartbeat r name j now = ground (
  arith,
  str_eq_iff name j,
  find_ci-write r name j (with_heartbeat now) (λ e. refl),
  ap (find_ci r) {x = name} {y = j},
)

pub find_ci-remove :
    (r : Registry) (name j : Bytes)
    → IsValid r
    → find_ci (remove_ci r (some name)).0 j ≡ (if str_eq name j then none else find_ci r j)
unfolding find_ci remove_ci
find_ci-remove r name j h = ground (
  arith,
  str_eq_iff name j,
  find-remove name_of name j r.entries h.distinct,
  ap (λ (b : Bytes). find_node name_of b r.entries) {x = name} {y = j},
)

-- The map law of a registration that succeeds, and what one that fails leaves.
pub find_ci-add :
    (r : Registry) (name role model j : Bytes) (port : ℕ) (mem : Bool) (now : ℕ)
    → length name ≤ 31
    → (add_ci r (some name) (some role) (some model) port mem now).1 ≡ success
    → find_ci (add_ci r (some name) (some role) (some model) port mem now).0 j
      ≡ (if str_eq name j then some (new_entry name role model port now) else find_ci r j)
unfolding add_ci find_ci
find_ci-add r name role model j port mem now short ok = ground (
  arith,
  new_entry-name name role model port now short,
  ap (λ (b : Bytes). str_eq b j) (new_entry-name name role model port now short),
)

pub add_ci_error :
    (r : Registry) (name role model : Bytes) (port : ℕ) (mem : Bool) (now : ℕ)
    → (add_ci r (some name) (some role) (some model) port mem now).1 ≢ success
    → (add_ci r (some name) (some role) (some model) port mem now).0 ≡ r
unfolding add_ci
add_ci_error r name role model port mem now bad = ground arith
