-- ===== src/Lifecycle/Sync.antt =====
-- The status of a CI in the lifecycle manager and in the CI registry (src/daemon/argo_lifecycle.c,
-- src/daemon/argo_lifecycle_monitoring.c, src/daemon/argo_registry.c).
use mathlib.Core.Option
use argo.Base.{
  ℕ, ◌≡◌, refl, sym, ◌∙◌, Bool, true, false, Option, none, some, if◌then◌else◌, Bytes, str_eq,
  Bool-cases, Option-cases, inl, inr, codes,
}
use argo.Error.{Code, success}
use argo.CiRegistry
use argo.CiRegistry.{Status, offline, starting, shutdown, status_eq}
use argo.CiRegistry.Valid.{find_ci-update_status}
use argo.Lifecycle.{
  Event, initializing, shutdown_req, terminated, Ci, Manager, name_of, find_ci, write, moved, move,
  start_ci, stop_ci, start_after, restart_ci, next_status, transition,
}
use argo.Lifecycle.Restart.{
  find_ci-write, find_ci-move, moved-status, transition_same, transition_moved,
}

-- Statuses of a CI and of the entry of its name, where both are there.
abbrev pub Agree : Option Ci → Option CiRegistry.Entry → Type 0
Agree none e = Unit
Agree (some c) none = Unit
Agree (some c) (some e) = e.status ≡ c.current_status

-- Whoever is known to both has the same status in both.
abbrev pub IsSynced : Manager → Type 0
IsSynced m = (j : Bytes) → Agree (find_ci m j) (CiRegistry.find_ci m.registry j)

Agree-moved :
    (oc : Option Ci) (oe : Option CiRegistry.Entry) (e : Event) (to : Status)
    (reason : Option Bytes) (mem : Bool) (now : ℕ)
    → Agree (Option.map (moved e to reason mem now) oc) (Option.map (CiRegistry.with_status to) oe)
unfolding CiRegistry.with_status
Agree-moved none oe e to reason mem now = tt
Agree-moved (some c) none e to reason mem now = tt
Agree-moved (some c) (some x) e to reason mem now = sym (moved-status e to reason mem now c)

move-registry :
    (m : Manager) (name : Bytes) (e : Event) (to : Status) (reason : Option Bytes) (mem : Bool)
    (now : ℕ)
    → (move m name e to reason mem now).registry
      ≡ (CiRegistry.update_status m.registry (some name) to).0
unfolding move
move-registry m name e to reason mem now = refl

pub move-IsSynced :
    (m : Manager) (name : Bytes) (e : Event) (to : Status) (reason : Option Bytes) (mem : Bool)
    (now : ℕ)
    → IsSynced m
    → IsSynced (move m name e to reason mem now)
move-IsSynced m name e to reason mem now h j =
    rw
      (
        find_ci-move m name j e to reason mem now,
        move-registry m name e to reason mem now,
        find_ci-update_status m.registry name j to,
      )
      (elim (Bool-cases (str_eq name j)) [
        | inl here ↦
            rw here
              (Agree-moved (find_ci m j) (CiRegistry.find_ci m.registry j) e to reason mem now)
        | inr elsewhere ↦ rw elsewhere (h j)
      ])

write-registry : (m : Manager) (name : Bytes) (f : Ci → Ci) → (write m name f).registry ≡ m.registry
unfolding write
write-registry m name f = refl

Agree-map :
    (oc : Option Ci) (oe : Option CiRegistry.Entry) (f : Ci → Ci)
    → ((c : Ci) → (f c).current_status ≡ c.current_status)
    → Agree oc oe
    → Agree (Option.map f oc) oe
Agree-map none oe f same a = tt
Agree-map (some c) none f same a = tt
Agree-map (some c) (some e) f same a = a ∙ sym (same c)

stopping :
    (m : Manager) (name : Bytes) (graceful mem : Bool) (now : ℕ)
    → IsSynced m
    → IsSynced (
        if graceful
        then move m name shutdown_req shutdown (some (codes "Graceful shutdown requested")) mem now
        else move m name terminated offline (some (codes "Forced shutdown")) mem now)
stopping m name true mem now h = move-IsSynced m name shutdown_req shutdown _ mem now h
stopping m name false mem now h = move-IsSynced m name terminated offline _ mem now h

-- A write that keeps the names and the statuses.
pub write-IsSynced :
    (m : Manager) (name : Bytes) (f : Ci → Ci)
    → ((c : Ci) → name_of (f c) ≡ name_of c)
    → ((c : Ci) → (f c).current_status ≡ c.current_status)
    → IsSynced m
    → IsSynced (write m name f)
write-IsSynced m name f keep same h j =
    let written = find_ci-write m name j f keep in
    rw (written, write-registry m name f)
      (elim (Bool-cases (str_eq name j)) [
        | inl here ↦
            rw here (Agree-map (find_ci m j) (CiRegistry.find_ci m.registry j) f same (h j))
        | inr elsewhere ↦ rw elsewhere (h j)
      ])

pub start_ci-IsSynced :
    (m : Manager) (name : Option Bytes) (mem : Bool) (now : ℕ)
    → IsSynced m
    → IsSynced (start_ci m name mem now).0
unfolding start_ci
start_ci-IsSynced m none mem now h = h
start_ci-IsSynced m (some name) mem now h = elim (Option-cases (find_ci m name)) [
  | inl missing ↦ rw (missing, start_ci) h
  | inr (c, at) ↦ elim (Bool-cases (status_eq c.current_status offline)) [
    | inl down ↦
        rw (at, start_ci) (rw down (move-IsSynced m name initializing starting _ mem now h))
    | inr up ↦ rw (at, start_ci) (rw up h)
  ]
]

pub stop_ci-IsSynced :
    (m : Manager) (name : Option Bytes) (graceful mem : Bool) (now : ℕ)
    → IsSynced m
    → IsSynced (stop_ci m name graceful mem now).0
unfolding stop_ci
stop_ci-IsSynced m none graceful mem now h = h
stop_ci-IsSynced m (some name) graceful mem now h = elim (Option-cases (find_ci m name)) [
  | inl missing ↦ rw (missing, stop_ci) h
  | inr (c, at) ↦ rw (at, stop_ci) (stopping m name graceful mem now h)
]

start_after-IsSynced :
    (a : Manager × Code) (name : Option Bytes) (mem : Bool) (now : ℕ)
    → IsSynced a.0
    → IsSynced (start_after a name mem now).0
unfolding start_after
start_after-IsSynced (m, success) name mem now h = start_ci-IsSynced m name mem now h
start_after-IsSynced (m, other) name mem now h = h

pub restart_ci-IsSynced :
    (m : Manager) (name : Option Bytes) (mem : Bool) (now : ℕ)
    → IsSynced m
    → IsSynced (restart_ci m name mem now).0
unfolding restart_ci
restart_ci-IsSynced m name mem now h =
    start_after-IsSynced _ name mem now (stop_ci-IsSynced m name true mem now h)

pub transition-IsSynced :
    (m : Manager) (name : Option Bytes) (e : Event) (reason : Option Bytes) (mem : Bool) (now : ℕ)
    → IsSynced m
    → IsSynced (transition m name e reason mem now).0
unfolding transition
transition-IsSynced m none e reason mem now h = h
transition-IsSynced m (some name) e reason mem now h = elim (Option-cases (find_ci m name)) [
  | inl missing ↦ rw (missing, transition) h
  | inr (c, at) ↦ elim (Bool-cases (status_eq (next_status e c.current_status) c.current_status)) [
    | inl same ↦ rw (transition_same m name e reason mem now c at same) h
    | inr other ↦
        rw (transition_moved m name e reason mem now c at other)
          (move-IsSynced m name e _ reason mem now h)
  ]
]
