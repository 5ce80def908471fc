-- ===== src/CiRegistry/Ports.antt =====
-- Port allocation in src/daemon/argo_registry.c.
use argo.Base.{
  ℕ, zero, suc, ◌+◌, ◌-◌, ◌≤◌, ◌<◌, ◌≡◌, ◌≢◌, ◌⊎◌, inl, inr, refl, ap, true, false, List, [], ◌∷◌,
  Option, none, some, arith, Bytes, str_eq, str_eq_iff, All, Bool-cases, Option-cases,
}
use argo.Base.Nodes.{find_node, remove_node, Distinct}
use argo.CiRegistry.{
  offline, Entry, Registry, name_of, ports_per_role, role_base, port_free, is_port_available,
  first_free, reclaimable, first_reclaimable, reclaim_port, allocate_port, find_ci, remove_ci,
}
use argo.CiRegistry.Valid.{IsValid, remove_ci-IsValid, find_ci-remove}

abbrev pub Free : ℕ → List Entry → Type 0
Free p es = All (λ e. e.port ≢ p) es

-- No two entries have the same port.
abbrev pub PortsDistinct : List Entry → Type 0
PortsDistinct [] = Unit
PortsDistinct (e ∷ es) = Free e.port es × PortsDistinct es

pub port_free-Free : (p : ℕ) (es : List Entry) → port_free p es ≡ true → Free p es
unfolding port_free
port_free-Free p [] h = tt
port_free-Free p (e ∷ es) h = ground (arith, port_free-Free p es)

Free-remove :
    (p : ℕ) (name : Bytes) (es : List Entry) → Free p es → Free p (remove_node name_of name es)
unfolding remove_node
Free-remove p name [] h = tt
Free-remove p name (e ∷ es) h = ground (arith, Free-remove p name es)

pub PortsDistinct-remove :
    (name : Bytes) (es : List Entry)
    → PortsDistinct es
    → PortsDistinct (remove_node name_of name es)
unfolding remove_node
PortsDistinct-remove name [] h = tt
PortsDistinct-remove name (e ∷ es) h =
    ground (arith, PortsDistinct-remove name es, Free-remove e.port name es)

-- The entry that is reclaimed is the one that its name finds.
first_reclaimable-find :
    (base : ℕ) (es : List Entry) {e : Entry}
    → Distinct name_of es
    → first_reclaimable base es ≡ some e
    → (find_node name_of e.name es ≡ some e) × (reclaimable base e ≡ true)
unfolding first_reclaimable find_node
first_reclaimable-find base [] d m = absurd (cc)
first_reclaimable-find base (x ∷ es) {e} d m = elim (Bool-cases (reclaimable base x)) [
  | inl hit ↦ ground (arith, str_eq_iff x.name e.name)
  | inr miss ↦
      let later = first_reclaimable-find base es {e = e} d.1 (ground arith) in
      ground (
        arith,
        later,
        str_eq_iff x.name e.name,
        ap (λ (b : Bytes). find_node name_of b es) {x = x.name} {y = e.name},
      )
]

Free-find :
    (p : ℕ) (name : Bytes) (es : List Entry) {e : Entry}
    → Free p es
    → find_node name_of name es ≡ some e
    → e.port ≢ p
unfolding find_node
Free-find p name [] f m = absurd (cc)
Free-find p name (x ∷ es) {e} f m = elim (Bool-cases (str_eq x.name name)) [
  | inl hit ↦ ground arith
  | inr miss ↦ Free-find p name es {e = e} f.1 (rw miss at m)
]

-- Once the entry that a name finds is gone, its port is free.
Free-port_removed :
    (name : Bytes) (es : List Entry) {e : Entry}
    → PortsDistinct es
    → find_node name_of name es ≡ some e
    → Free e.port (remove_node name_of name es)
unfolding find_node remove_node
Free-port_removed name [] d m = absurd (cc)
Free-port_removed name (x ∷ es) {e} d m = elim (Bool-cases (str_eq x.name name)) [
  | inl hit ↦ ground arith
  | inr miss ↦
      let m' : find_node name_of name es ≡ some e = rw miss at m in
      ground
        (arith, Free-port_removed name es {e = e} d.1 m', Free-find x.port name es {e = e} d.0 m')
]

is_free_lem : (r : Registry) (p : ℕ) → is_port_available r p ≡ true → Free p r.entries
unfolding is_port_available
is_free_lem r p h = port_free-Free p r.entries h

-- An allocated port lies in the ten ports of the role's range.
first_free-range :
    (r : Registry) (rounds p q : ℕ)
    → first_free r rounds p ≡ some q
    → (p ≤ q) × (q < p + rounds) × (is_port_available r q ≡ true)
unfolding first_free
first_free-range r zero p q h = absurd (cc)
first_free-range r (suc rounds) p q h = ground (arith, first_free-range r rounds (p + 1) q)

no_reclaimable :
    (base : ℕ) (es : List Entry)
    → first_reclaimable base es ≡ none
    → All (λ e. reclaimable base e ≡ false) es
unfolding first_reclaimable
no_reclaimable base [] h = tt
no_reclaimable base (e ∷ es) h = (ground arith, no_reclaimable base es (ground arith))

reclaim_port_lem :
    (r : Registry) (role : Bytes) {e : Entry}
    → IsValid r
    → first_reclaimable (role_base r role) r.entries ≡ some e
    → (find_ci r e.name ≡ some e)
      × (reclaimable (role_base r role) e ≡ true)
      × (reclaim_port r role ≡ (
        record r { entries = remove_node name_of e.name r.entries; count = r.count - 1 },
        some e.port,
      ))
unfolding reclaim_port remove_ci find_ci
reclaim_port_lem r role {e} h m =
    let found = first_reclaimable-find (role_base r role) r.entries {e = e} h.distinct m in
    (found.0, found.1, ground arith)

find_of :
    (r : Registry) (e : Entry)
    → find_ci r e.name ≡ some e
    → find_node name_of e.name r.entries ≡ some e
unfolding find_ci
find_of r e h = h

reclaim_none :
    (r : Registry) (role : Bytes)
    → first_reclaimable (role_base r role) r.entries ≡ none
    → reclaim_port r role ≡ (r, none)
unfolding reclaim_port
reclaim_none r role h = ground arith

reclaim_some :
    (r : Registry) (role : Bytes) (e : Entry)
    → first_reclaimable (role_base r role) r.entries ≡ some e
    → reclaim_port r role ≡ ((remove_ci r (some e.name)).0, some e.port)
unfolding reclaim_port
reclaim_some r role e h = ground arith

allocate_full :
    (r : Registry) (role : Bytes)
    → first_free r ports_per_role (role_base r role) ≡ none
    → allocate_port r (some role) ≡ reclaim_port r role
unfolding allocate_port
allocate_full r role h = ground arith

reclaimable_range :
    (base : ℕ) (e : Entry)
    → reclaimable base e ≡ true
    → (base ≤ e.port) × (e.port < base + ports_per_role) × (e.status ≡ offline)
reclaimable_range base e h = ground arith

-- What a successful allocation promises: a port in the role's range, which no entry that is left
-- uses, in a registry whose ports are still distinct.
abbrev pub IsAllocated : Registry → Bytes → Registry → ℕ → Type 0
IsAllocated r role r' p =
    (role_base r role ≤ p)
    × (p < role_base r role + ports_per_role)
    × Free p r'.entries
    × PortsDistinct r'.entries

-- The `rounds` ports from `p` on are all in use.
abbrev pub AllTaken : Registry → ℕ → ℕ → Type 0
AllTaken r zero p = Unit
AllTaken r (suc rounds) p = (is_port_available r p ≡ false) × AllTaken r rounds (p + 1)

first_free-none : (r : Registry) (rounds p : ℕ) → first_free r rounds p ≡ none → AllTaken r rounds p
unfolding first_free
first_free-none r zero p h = tt
first_free-none r (suc rounds) p h = (ground arith, first_free-none r rounds (p + 1) (ground arith))

-- What a failed allocation shows: every port of the range is in use, and no entry with a port of
-- the range is offline.
abbrev pub IsExhausted : Registry → Bytes → Type 0
IsExhausted r role =
    AllTaken r ports_per_role (role_base r role)
    × All (λ e. reclaimable (role_base r role) e ≡ false) r.entries

abbrev pub Allocates : Registry → Bytes → Registry × Option ℕ → Type 0
Allocates r role (r', some p) = IsAllocated r role r' p
Allocates r role (r', none) = (r' ≡ r) × IsExhausted r role

-- In a valid registry with distinct ports an allocation either returns a port of the role's range
-- that no remaining entry uses, and keeps the ports distinct, or fails; it fails only where all
-- ten ports are in use by entries of which none is offline, and then changes nothing.
pub allocate_port_lem :
    (r : Registry) (role : Bytes)
    → IsValid r
    → PortsDistinct r.entries
    → Allocates r role (allocate_port r (some role))
unfolding allocate_port
allocate_port_lem r role h d =
    elim (Option-cases (first_free r ports_per_role (role_base r role))) [
      | inr (p, at) ↦
          let found = first_free-range r ports_per_role (role_base r role) p at in
          rw (at, allocate_port) (found.0, found.1, is_free_lem r p found.2, d)
      | inl full ↦
          rw (allocate_full r role full)
            (elim (Option-cases (first_reclaimable (role_base r role) r.entries)) [
              | inl none_left ↦ rw (reclaim_none r role none_left) (
                  (
                    refl,
                    (
                      first_free-none r ports_per_role (role_base r role) full,
                      no_reclaimable (role_base r role) r.entries none_left,
                    ),
                  ))
              | inr (e, at) ↦
                  let did = reclaim_port_lem r role {e = e} h at in
                  let bounds = reclaimable_range (role_base r role) e did.1 in
                  rw (did.2) (
                    bounds.0,
                    bounds.1,
                    Free-port_removed e.name r.entries {e = e} d (find_of r e did.0),
                    PortsDistinct-remove e.name r.entries d,
                  )
            ])
    ]

-- An allocation keeps the registry valid, and leaves each entry as it was or takes it out.
pub allocate_port-find :
    (r : Registry) (role j : Bytes)
    → IsValid r
    → IsValid (allocate_port r (some role)).0
      × ((find_ci (allocate_port r (some role)).0 j ≡ none)
          ⊎ (find_ci (allocate_port r (some role)).0 j ≡ find_ci r j))
unfolding allocate_port
allocate_port-find r role j h =
    elim (Option-cases (first_free r ports_per_role (role_base r role))) [
      | inr (p, at) ↦ rw (at, allocate_port) (h, inr refl)
      | inl full ↦
          rw (allocate_full r role full)
            (elim (Option-cases (first_reclaimable (role_base r role) r.entries)) [
              | inl none_left ↦ rw (reclaim_none r role none_left) (h, inr refl)
              | inr (e, at) ↦
                  rw (reclaim_some r role e at) (
                    remove_ci-IsValid r (some e.name) h,
                    ground (arith, find_ci-remove r e.name j h),
                  )
            ])
    ]
