-- ===== src/Lifecycle/Creation.antt =====
-- The creation of a CI in src/daemon/argo_lifecycle.c and its agreement with the CI registry.
use argo.Base.{
  ℕ, ◌≤◌, ◌≡◌, refl, sym, subst, Bool, true, false, List, [], ◌∷◌, ◌++◌, Option, none, some, arith,
  if◌then◌else◌, Bytes, codes, str_eq, leb, length, Bool-cases, Option-cases, inl, inr, ◌⊎◌,
  take_all, str_eq_iff, ◌∙◌, ◌*◌,
}
use argo.Base.Nodes.{find_node}
use argo.Error.{success, e_protocol_queue, e_input_invalid, e_system_memory}
use argo.CiRegistry
use argo.CiRegistry.{offline, add_ci, allocate_port, new_entry}
use argo.CiRegistry.Valid.{IsValid, find_ci-add}
use argo.CiRegistry.Ports.{allocate_port-find}
use argo.Lifecycle.{
  created, Ci, Manager, Alloc, name_of, find_ci, add_transition, new_ci, register, enroll,
  create_ci,
}
use argo.Lifecycle.Sync.{Agree, IsSynced}

Agree-less :
    (oc : Option Ci) (a b : Option CiRegistry.Entry)
    → (a ≡ none) ⊎ (a ≡ b)
    → Agree oc b
    → Agree oc a
Agree-less none a b l h = tt
Agree-less (some c) a b (inl gone) h = rw gone tt
Agree-less (some c) a b (inr same) h = rw same h

-- A registry that agrees with the manager, in place of the manager's own.
abbrev IsSyncedWith : Manager → CiRegistry.Registry → Type 0
IsSyncedWith m r = (j : Bytes) → Agree (find_ci m j) (CiRegistry.find_ci r j)

find-append_one :
    (cs : List Ci) (c : Ci) (j : Bytes)
    → find_node name_of j cs ≡ none
    → find_node name_of j (cs ++ c ∷ []) ≡ (if str_eq (name_of c) j then some c else none)
unfolding find_node
find-append_one [] c j h = refl
find-append_one (x ∷ cs) c j h = ground (arith, find-append_one cs c j)

find-append_other :
    (cs : List Ci) (c : Ci) (j : Bytes)
    → str_eq (name_of c) j ≡ false
    → find_node name_of j (cs ++ c ∷ []) ≡ find_node name_of j cs
unfolding find_node
find-append_other [] c j h = rw h refl
find-append_other (x ∷ cs) c j h = ground (arith, find-append_other cs c j)

-- The CI that a creation appends.
abbrev fresh : Manager → Bytes → Bool → ℕ → Ci
fresh m name mem now =
    add_transition created offline offline (some (codes "Created")) mem now
      (new_ci name m.heartbeat_timeout_seconds now)

fresh-name :
    (m : Manager) (name : Bytes) (mem : Bool) (now : ℕ)
    → length name ≤ 31
    → name_of (fresh m name mem now) ≡ name
unfolding add_transition new_ci
fresh-name m name true now h = take_all 31 name h
fresh-name m name false now h = take_all 31 name h

fresh-status :
    (m : Manager) (name : Bytes) (mem : Bool) (now : ℕ)
    → (fresh m name mem now).current_status ≡ offline
unfolding add_transition new_ci
fresh-status m name true now = refl
fresh-status m name false now = refl

-- A registration succeeds, or fails with one of three codes and changes nothing.
add_ci_cases :
    (r : CiRegistry.Registry) (name role model : Bytes) (port : ℕ) (mem : Bool) (now : ℕ)
    → let x = add_ci r (some name) (some role) (some model) port mem now in
      (x.1 ≡ success)
      ⊎ ((x.0 ≡ r)
          × ((x.1 ≡ e_protocol_queue) ⊎ ((x.1 ≡ e_input_invalid) ⊎ (x.1 ≡ e_system_memory))))
unfolding add_ci
add_ci_cases r name role model port mem now = ground arith

with_registry-IsSynced :
    (m : Manager) (r : CiRegistry.Registry)
    → IsSyncedWith m r
    → IsSynced (record m { registry = r })
unfolding find_ci
with_registry-IsSynced m r h j = h j

new_entry-status :
    (name role model : Bytes) (port now : ℕ) → (new_entry name role model port now).status ≡ offline
unfolding new_entry
new_entry-status name role model port now = refl

-- The new CI and its new entry.
appended-IsSynced :
    (m : Manager) (r r' : CiRegistry.Registry) (name : Bytes) (c : Ci) (e : CiRegistry.Entry)
    → IsSyncedWith m r
    → find_ci m name ≡ none
    → name_of c ≡ name
    → Agree (some c) (some e)
    → ((j : Bytes)
        → CiRegistry.find_ci r' j ≡ (if str_eq name j then some e else CiRegistry.find_ci r j))
    → IsSynced (record m { registry = r'; cis = m.cis ++ c ∷ [] })
unfolding find_ci
appended-IsSynced m r r' name c e h missing named a added j = elim (Bool-cases (str_eq name j)) [
  | inl here ↦
      let same : name ≡ j = (str_eq_iff name j).0 here in
      let gone : find_node name_of j m.cis ≡ none =
        subst (λ k. find_node name_of k m.cis ≡ none) same missing in
      rw (find-append_one m.cis c j gone, added j, named) (rw here a)
  | inr elsewhere ↦
      rw (find-append_other m.cis c j (rw named elsewhere), added j) (rw elsewhere (h j))
]

register-IsSynced :
    (m : Manager) (r : CiRegistry.Registry) (name role model : Bytes) (port : ℕ) (mem : Alloc)
    (now : ℕ)
    → IsSyncedWith m r
    → find_ci m name ≡ none
    → length name ≤ 31
    → IsSynced (register m r name role model port mem now).0
unfolding register
register-IsSynced m r name role model port mem now h missing short =
    elim (add_ci_cases r name role model port mem.entry now) [
      | inl ok ↦
          rw (ok, register)
            (appended-IsSynced m r _ name (fresh m name mem.transition now)
              (new_entry name role model port now) h missing
              (fresh-name m name mem.transition now short)
              (new_entry-status name role model port now
                ∙ sym (fresh-status m name mem.transition now))
              (λ j. find_ci-add r name role model j port mem.entry now short ok))
      | inr (same, failed) ↦
          let kept = with_registry-IsSynced m _ (subst (IsSyncedWith m) (sym same) h) in
          elim failed [
            | inl full ↦ rw (full, register) kept
            | inr (inl known) ↦ rw (known, register) kept
            | inr (inr no_memory) ↦ rw (no_memory, register) kept
          ]
    ]

more_room-IsSynced : (m : Manager) → IsSynced m → IsSynced (record m { capacity = m.capacity * 2 })
unfolding find_ci
more_room-IsSynced m h j = h j

more_room-find :
    (m : Manager) (name : Bytes)
    → find_ci m name ≡ none
    → find_ci (record m { capacity = m.capacity * 2 }) name ≡ none
unfolding find_ci
more_room-find m name h = h

enroll-IsSynced :
    (m : Manager) (name role model : Bytes) (mem : Alloc) (now : ℕ)
    → IsSynced m
    → IsValid m.registry
    → find_ci m name ≡ none
    → length name ≤ 31
    → IsSynced (enroll m name role model mem now).0
unfolding enroll
enroll-IsSynced m name role model mem now h v missing short =
    let r = (allocate_port m.registry (some role)).0 in
    let less : IsSyncedWith m r =
      λ j. Agree-less (find_ci m j) _ _ (allocate_port-find m.registry role j v).1 (h j) in
    elim (Bool-cases mem.ci) [
      | inr no_memory ↦ rw no_memory h
      | inl given ↦ rw given (elim (Option-cases (allocate_port m.registry (some role)).1) [
        | inl no_port ↦ rw no_port (with_registry-IsSynced m r less)
        | inr (p, at) ↦ rw at (register-IsSynced m r name role model p mem now less missing short)
      ])
    ]

-- The creation of a CI whose name has at most 31 bytes, with a valid registry, keeps the manager
-- and the registry in step, however it ends: also where the allocation of its port took an offline
-- CI out of the registry, or where memory ran out.
pub create_ci-IsSynced :
    (m : Manager) (name role model : Bytes) (mem : Alloc) (now : ℕ)
    → IsSynced m
    → IsValid m.registry
    → length name ≤ 31
    → IsSynced (create_ci m (some name) (some role) (some model) mem now).0
unfolding create_ci
create_ci-IsSynced m name role model mem now h v short = elim (Option-cases (find_ci m name)) [
  | inr (c, at) ↦ rw (at, create_ci) h
  | inl missing ↦
      rw (missing, create_ci)
        (elim (Bool-cases (leb m.capacity (length m.cis))) [
          | inr room ↦ rw room (enroll-IsSynced m name role model mem now h v missing short)
          | inl full ↦ rw full (elim (Bool-cases mem.array) [
            | inr no_memory ↦ rw no_memory h
            | inl grown ↦ rw grown (
                enroll-IsSynced (record m { capacity = m.capacity * 2 }) name role model mem now
                  (more_room-IsSynced m h) v (more_room-find m name missing) short)
          ])
        ])
]
